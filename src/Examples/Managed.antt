-- ===== src/Examples/Managed.antt =====
-- GetManagedObjects on a server with two objects.
use boost_dbus.Common.{ℕ, ◌<◌, ◌≡◌, refl, Bool, true, List, [], ◌∷◌, Bytes, some, map, codes, arith}
use boost_dbus.Element.{Variant, Value, of_string, of_bool}
use boost_dbus.Wire.{Body, size}
use boost_dbus.Wire.Room.{Page, blank, sheets, sheets_laws, sheets_never_fail, bodies, bodies_laws}
use boost_dbus.Message.Packer.{pack_args}
use boost_dbus.Message.Unpacker.{unpack_args}
use boost_dbus.Message.Clean.{AllClean, defaults}
use boost_dbus.Properties.Interface.{DbusInterface}
use boost_dbus.Properties.Object.{DbusObject, Handler}
use boost_dbus.Properties.Server.{managed_object, managed_objects, managed_type}
use boost_dbus.Properties.Managed.{
  reply_types, reply_packable, reply_unpackable, on_get_managed_objects, Describes,
  on_get_managed_objects-arrives,
}

abbrev lamp : DbusInterface (Handler ℕ)
lamp = record {
  object_name = codes "/a";
  interface_name = codes "i";
  dbus_methods = [];
  dbus_signals = [];
  properties_map = (codes "k", of_string (codes "v")) ∷ (codes "on", of_bool true) ∷ [];
}

abbrev objects : List (DbusObject ℕ)
objects =
    record { address = 1; object_name = codes "/a"; interfaces = (codes "i", lamp) ∷ [] }
    ∷ record { address = 2; object_name = codes "/b"; interfaces = [] }
    ∷ []

abbrev dict : List (Bytes × List (Bytes × List (Bytes × Variant)))
dict =
    (
      codes "/a",
      (codes "i", (codes "k", of_string (codes "v")) ∷ (codes "on", of_bool true) ∷ []) ∷ [],
    )
    ∷ (codes "/b", [])
    ∷ []

dict-AllClean : AllClean reply_types (map managed_object objects, tt)
unfolding managed_object
dict-AllClean = (
  (
    (
      (refl, (refl, tt)),
      (((refl, tt), (((refl, tt), (refl, tt)), (((refl, (refl, tt)), tt), tt))), tt),
    ),
    (((refl, (refl, tt)), tt), tt),
  ),
  tt,
)

abbrev reply : Bool × Page
reply = pack_args sheets reply_types reply_packable (map managed_object objects, tt) (blank 0)

reply-size : size (reply.1.written) < 30
unfolding pack_args managed_object
reply-size = omega arith

answered : on_get_managed_objects sheets (map some objects) (blank 0) ≡ some (reply.0, reply.1)
unfolding on_get_managed_objects managed_objects
answered = refl

on_get_managed_objects-arrives_example :
    (reply.0 ≡ true)
    × ((received : Value managed_type) × (it' : Body) × (unpack_args bodies 30 reply_types
            reply_unpackable
            (defaults reply_types)
            reply.1.written
          ≡ some (true, (received, tt), it'))
        × Describes objects received)
on_get_managed_objects-arrives_example =
    on_get_managed_objects-arrives sheets_laws bodies_laws sheets_never_fail objects (blank 0)
      reply.1 reply.0 reply.1.written 30 dict-AllClean refl answered refl reply-size

objects-dict : map managed_object objects ≡ dict
unfolding managed_object
objects-dict = refl
