-- ===== src/Properties/Object.antt =====
-- include/dbus/properties.hpp, `DbusObject`: interfaces by name, the interface
-- org.freedesktop.DBus.Properties that every object has, and the signal InterfacesAdded.
--
-- The interfaces are shared objects that `interfaces` points to; the model keeps them in the map.
use boost_dbus.Common.{ℕ, List, [], ◌∷◌, Bytes, Option, none, some, codes}
use boost_dbus.Common.FlatMap.{FlatMap, find, assign}
use boost_dbus.Element.{Ty, string, text, dbus_variant, vector, flat_map, pair, Variant}
use boost_dbus.Properties.Arguments.{tuple, single, method_args}
use boost_dbus.Properties.Interface.{
  DbusInterface, DbusMethod, Emission, value_change_only, changed_types, new_interface,
  register_method, register_signal, set_properties,
}

-- The handlers of methods: the three lambdas of the constructor, and those of the program `U`.
pub data Handler (U : Type 0) : Type 0 where
  properties_get properties_get_all properties_set : Handler U
  user : U → Handler U

-- `address` tells one shared object from another.
pub record DbusObject (U : Type 0) : Type 0 where
  pub address : ℕ
  pub object_name : Bytes
  pub interfaces : FlatMap (DbusInterface (Handler U))

abbrev pub properties_name : Bytes
properties_name = codes "org.freedesktop.DBus.Properties"

abbrev pub added_types : List Ty
added_types =
    text string ∷ vector (pair (text string) (vector (pair (text string) dbus_variant))) ∷ []

-- The endpoint of InterfacesAdded is a `static` local: it is made by the first call in the
-- program, and is the same in all later ones.
abbrev pub static_path : Option Bytes → Bytes → Bytes
static_path none name = name
static_path (some first) name = first

module _ {U : Type 0} where
  unfoldable pub register_interface :
      DbusInterface (Handler U)
      → Option Bytes
      → DbusObject U
      → DbusObject U × Option Bytes × Emission
  register_interface i statics o =
      let path = static_path statics o.object_name in
      (
        record o {
          interfaces =
              assign i.interface_name (record i { object_name = o.object_name }) o.interfaces;
        },
        some path,
        record {
          path = path;
          interface = codes "org.freedesktop.DBus.ObjectManager";
          member = codes "InterfacesAdded";
          types = added_types;
          values = (o.object_name, ((i.interface_name, i.properties_map) ∷ [], tt));
        },
      )

  unfoldable pub add_interface :
      Bytes → Option Bytes → DbusObject U → DbusObject U × Option Bytes × Emission
  unfolding register_interface new_interface
  add_interface name = register_interface (new_interface name)

  -- What the constructor registers on the properties interface.
  unfoldable pub with_properties : DbusInterface (Handler U) → DbusInterface (Handler U)
  unfolding register_method register_signal method_args
  with_properties i =
      (register_signal (codes "PropertiesChanged") changed_types
        (codes "interface_name" ∷ codes "changed_properties" ∷ codes "invalidated_properties" ∷ [])
        (register_method (codes "Set")
          (record {
            args =
                method_args (text string ∷ text string ∷ dbus_variant ∷ []) (tuple [])
                  (some (codes "interface_name" ∷ codes "properties_name" ∷ codes "value" ∷ []))
                  (some []);
            handler = properties_set;
          })
          (register_method (codes "GetAll")
            (record {
              args =
                  method_args (text string ∷ []) (single (flat_map dbus_variant))
                    (some (codes "interface_name" ∷ [])) (some (codes "properties" ∷ []));
              handler = properties_get_all;
            })
            (register_method (codes "Get")
              (record {
                args =
                    method_args (text string ∷ text string ∷ []) (tuple (dbus_variant ∷ []))
                      (some (codes "interface_name" ∷ codes "properties_name" ∷ []))
                      (some (codes "value" ∷ []));
                handler = properties_get;
              })
              i)))).0

  -- The constructor.
  unfoldable pub new_object : ℕ → Bytes → Option Bytes → DbusObject U × Option Bytes × Emission
  unfolding add_interface with_properties
  new_object address name statics =
      let (o, statics', e) =
        add_interface properties_name statics
          (record { address = address; object_name = name; interfaces = [] }) in
      (
        record o {
          interfaces =
              assign properties_name
                (with_properties (record (new_interface properties_name) { object_name = name }))
                o.interfaces;
        },
        statics',
        e,
      )

  -- The lambdas of the constructor. `none` is a `std::runtime_error`.
  unfoldable pub get : Bytes → Bytes → DbusObject U → Option Variant
  get interface_name property_name o = elim (find interface_name o.interfaces) [
    | none ↦ none
    | some i ↦ find property_name i.properties_map
  ]

  unfoldable pub get_all : Bytes → DbusObject U → Option (FlatMap Variant)
  get_all interface_name o = elim (find interface_name o.interfaces) [
    | none ↦ none
    | some i ↦ some i.properties_map
  ]

  unfoldable pub set : Bytes → Bytes → Variant → DbusObject U → Option (DbusObject U × Emission)
  set interface_name property_name value o = elim (find interface_name o.interfaces) [
    | none ↦ none
    | some i ↦
        let (i', e) = set_properties ((property_name, value) ∷ []) value_change_only i in
        some (record o { interfaces = assign interface_name i' o.interfaces }, e)
  ]

  -- `DbusObject::call`: the method of the interface and the member that the message names.
  unfoldable pub called_method : Bytes → Bytes → DbusObject U → Option (DbusMethod (Handler U))
  called_method interface member o = elim (find interface o.interfaces) [
    | none ↦ none
    | some i ↦ find member i.dbus_methods
  ]
