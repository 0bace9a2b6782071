-- ===== src/Properties/Interface.antt =====
-- include/dbus/properties.hpp, `DbusInterface`, `DbusMethod` and `DbusSignal`.
--
-- `H` stands for the handlers of methods. A signal that is sent is recorded as the header and the
-- arguments that the code hands to libdbus.
use boost_dbus.Common.{
  true, not, List, [], ◌∷◌, ◌++◌, Bytes, Option, none, some, if◌then◌else◌, codes,
}
use boost_dbus.Common.FlatMap.{FlatMap, find, emplace, assign}
use boost_dbus.Element.{Ty, string, text, dbus_variant, vector, pair, Variant, variant_eq}
use boost_dbus.Message.Packer.{Values}
use boost_dbus.Properties.Arguments.{DbusArgument, arg_types}

pub record DbusMethod (H : Type 0) : Type 0 where
  pub args : List DbusArgument
  pub handler : H

pub record DbusSignal : Type 0 where
  pub name : Bytes
  pub object_name : Bytes
  pub interface_name : Bytes
  pub args : List DbusArgument

pub record DbusInterface (H : Type 0) : Type 0 where
  pub object_name : Bytes
  pub interface_name : Bytes
  pub dbus_methods : FlatMap (DbusMethod H)
  pub dbus_signals : FlatMap DbusSignal
  pub properties_map : FlatMap Variant

pub record Emission : Type 0 where
  pub path : Bytes
  pub interface : Bytes
  pub member : Bytes
  pub types : List Ty
  pub values : Values types

pub data UpdateType : Type 0 where
  value_change_only force : UpdateType

abbrev pub Property : Type 0
Property = Bytes × Variant

-- The types of the arguments of `PropertiesChanged`.
abbrev pub changed_types : List Ty
changed_types = text string ∷ vector (pair (text string) dbus_variant) ∷ vector (text string) ∷ []

-- One round of the loop of `set_properties`: the map and the updates so far.
unfoldable pub set_one :
    FlatMap Variant × List Property → Property → FlatMap Variant × List Property
set_one (m, updates) (k, x) = elim (find k m) [
  | some old ↦
      if not (variant_eq old x) then (assign k x m, updates ++ (k, x) ∷ []) else (m, updates)
  | none ↦ (assign k x m, updates ++ (k, x) ∷ [])
]

unfoldable pub set_each :
    FlatMap Variant × List Property → List Property → FlatMap Variant × List Property
unfolding set_one
set_each s [] = s
set_each s (p ∷ ps) = set_each (set_one s p) ps

unfoldable pub collect_updates :
    UpdateType → List Property → FlatMap Variant → FlatMap Variant × List Property
unfolding set_each
collect_updates force v m = (m, v)
collect_updates value_change_only v m = set_each (m, []) v

module _ {H : Type 0} where
  unfoldable pub new_interface : Bytes → DbusInterface H
  new_interface name = record {
    object_name = [];
    interface_name = name;
    dbus_methods = [];
    dbus_signals = [];
    properties_map = [];
  }

  -- `none` is `std::runtime_error("property not found")`.
  unfoldable pub get_property : Bytes → DbusInterface H → Option Variant
  get_property name i = find name i.properties_map

  abbrev pub properties_changed : DbusInterface H → List Property → Emission
  properties_changed i updates = record {
    path = i.object_name;
    interface = codes "org.freedesktop.DBus.Properties";
    member = codes "PropertiesChanged";
    types = changed_types;
    values = (i.interface_name, (updates, ([], tt)));
  }

  unfoldable pub set_properties :
      List Property → UpdateType → DbusInterface H → DbusInterface H × Emission
  unfolding collect_updates
  set_properties v mode i =
      let (m, updates) = collect_updates mode v i.properties_map in
      (record i { properties_map = m }, properties_changed i updates)

  unfoldable pub set_property :
      Bytes → Variant → UpdateType → DbusInterface H → DbusInterface H × Emission
  unfolding set_properties
  set_property name value mode i = set_properties ((name, value) ∷ []) mode i

  unfoldable pub register_method : Bytes → DbusMethod H → DbusInterface H → DbusInterface H
  register_method name m i = record i { dbus_methods = emplace name m i.dbus_methods }

  -- `register_signal<Args...>`, with the constructor of `DbusTemplateSignal`.
  unfoldable pub register_signal :
      Bytes → List Ty → List Bytes → DbusInterface H → DbusInterface H × DbusSignal
  unfolding arg_types
  register_signal name ts arg_names i =
      let s : DbusSignal = record {
        name = name;
        object_name = i.object_name;
        interface_name = i.interface_name;
        args = arg_types true ts (some arg_names) 0 [];
      } in
      (record i { dbus_signals = emplace name s i.dbus_signals }, s)

  -- `DbusInterface::call`: the method that the message's member names is called; with no such
  -- method nothing happens.
  unfoldable pub called_method : Bytes → DbusInterface H → Option (DbusMethod H)
  called_method member i = find member i.dbus_methods

-- `DbusTemplateSignal::send` makes the signal and sends it; the arguments are not packed.
unfoldable pub send_signal : (s : DbusSignal) (ts : List Ty) → Values ts → Emission
send_signal s ts args = record {
  path = s.object_name;
  interface = s.interface_name;
  member = s.name;
  types = [];
  values = tt;
}
