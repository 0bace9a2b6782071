-- ===== src/Examples/Objects.antt =====
-- Interfaces, objects, a server and its introspection, with the names of test/dbusPropertiesServer.cpp.
use boost_dbus.Common.{
  ℕ, ◌≡◌, ◌≢◌, refl, ap, false, List, [], ◌∷◌, Bytes, Option, none, some, codes, arith, bytes_eq,
  bytes_compare,
}
use boost_dbus.Common.FlatMap.{IsSorted, find}
use boost_dbus.Element.{int32, Variant, of_string, of_number}
use boost_dbus.Properties.Interface.{
  DbusInterface, DbusMethod, Property, value_change_only, force, set_properties, get_property,
  properties_changed,
}
use boost_dbus.Properties.Updates.{
  replay, Stands, set_properties-replay, set_properties-get_property, set_properties-force,
}
use boost_dbus.Properties.Object.{DbusObject, Handler, user}

abbrev pub hello : DbusMethod (Handler ℕ)
hello = record { args = []; handler = user 1 }

abbrev pub sensor : DbusInterface (Handler ℕ)
sensor = record {
  object_name = codes "/foo";
  interface_name = codes "s";
  dbus_methods = (codes "Hello", hello) ∷ [];
  dbus_signals = [];
  properties_map = (codes "name", of_string (codes "a")) ∷ (codes "value", of_number int32 5) ∷ [];
}

abbrev pub object : ℕ → Bytes → DbusObject ℕ
object a name = record { address = a; object_name = name; interfaces = (codes "s", sensor) ∷ [] }

abbrev pub foo : DbusObject ℕ
foo = object 1 (codes "/foo")

abbrev pub bar : DbusObject ℕ
bar = object 2 (codes "/bar")

abbrev seven : Property
seven = (codes "value", of_number int32 7)

sensor-IsSorted : IsSorted sensor.properties_map
unfolding bytes_compare
sensor-IsSorted = (refl, (tt, tt))

value-name : bytes_eq (codes "value") (codes "name") ≡ false
unfolding bytes_eq
value-name = refl

set_properties-replay_example :
    (us : List Property) × ((set_properties (seven ∷ []) value_change_only sensor).1
      ≡ properties_changed sensor us)
    × (replay sensor.properties_map us
        ≡ (set_properties (seven ∷ []) value_change_only sensor).0.properties_map)
set_properties-replay_example = set_properties-replay sensor (seven ∷ [])

set_properties-get_property_example :
    let j = (set_properties (seven ∷ []) value_change_only sensor).0 in
    ((y : Variant) × (get_property (codes "value") j ≡ some y) × Stands y (of_number int32 7))
    × (get_property (codes "name") j ≡ get_property (codes "name") sensor)
    × IsSorted j.properties_map
set_properties-get_property_example =
    set_properties-get_property sensor [] [] (codes "value") (codes "name") (of_number int32 7)
      sensor-IsSorted tt (value-name, tt)

-- The number that a variant holds.
abbrev number : Option Variant → ℕ
number (some (of_number f n)) = n
number _ = 0

seven-new : get_property (codes "value") sensor ≢ some (of_number int32 7)
unfolding get_property find bytes_eq
seven-new e = absurd (omega (arith, ap number e))

set_properties-force_example :
    let r = set_properties (seven ∷ []) force sensor in
    (us : List Property) × (r.1 ≡ properties_changed sensor us)
    × (find (codes "value") (replay sensor.properties_map us) ≡ some (of_number int32 7))
    × (get_property (codes "value") r.0 ≢ some (of_number int32 7))
set_properties-force_example =
    set_properties-force sensor [] [] (codes "value") (of_number int32 7) tt seven-new

none-there : find (codes "t") foo.interfaces ≡ none
unfolding find bytes_eq
none-there = refl

pub sensor-there : find (codes "s") foo.interfaces ≡ some sensor
unfolding find bytes_eq
sensor-there = refl
