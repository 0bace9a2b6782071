-- ===== src/Properties/Added.antt =====
-- What registering an interface does, and where its signal InterfacesAdded comes from.
use boost_dbus.Common.{
  ℕ, ◌≡◌, refl, false, List, [], ◌∷◌, Bytes, Option, none, some, if◌then◌else◌, codes, All,
  bytes_eq, bytes_compare,
}
use boost_dbus.Common.FlatMap.{find, assign, emplace, find-assign}
use boost_dbus.Properties.Interface.{DbusInterface, DbusMethod, Emission}
use boost_dbus.Properties.Object.{
  DbusObject, Handler, properties_get, properties_get_all, properties_set, register_interface,
  new_object, called_method, properties_name,
}

module _ {U : Type 0} where
  -- After an interface is registered the object has it under its name, with the object's name in it,
  -- and under every other name what it had.
  pub register_interface-find :
      (i : DbusInterface (Handler U)) (statics : Option Bytes) (o : DbusObject U) (name : Bytes)
      → find name (register_interface i statics o).0.interfaces ≡ (
          if bytes_eq i.interface_name name
          then some (record i { object_name = o.object_name })
          else find name o.interfaces)
  unfolding register_interface
  register_interface-find i statics o name = find-assign name i.interface_name _ o.interfaces

  -- The signals of registrations, made one after the other in the program.
  abbrev pub signals :
      List (DbusInterface (Handler U) × DbusObject U) → Option Bytes → List Emission
  signals [] statics = []
  signals ((i, o) ∷ rest) statics =
      let (o', statics', e) = register_interface i statics o in e ∷ signals rest statics'

  later-path :
      (rest : List (DbusInterface (Handler U) × DbusObject U)) (first : Bytes)
      → All (λ e. e.path ≡ first) (signals rest (some first))
  unfolding register_interface
  later-path [] first = tt
  later-path ((i, o) ∷ rest) first = (refl, later-path rest first)

  -- All InterfacesAdded signals of a program are sent from the path of the object on which the first
  -- interface of the program was registered, whatever objects the later ones are registered on.
  pub register_interface-path :
      (i : DbusInterface (Handler U)) (o : DbusObject U)
      → (rest : List (DbusInterface (Handler U) × DbusObject U))
      → All (λ e. e.path ≡ o.object_name) (signals ((i, o) ∷ rest) none)
  unfolding register_interface
  register_interface-path i o rest = (refl, later-path rest o.object_name)

  abbrev pub handler_of : Option (DbusMethod (Handler U)) → Option (Handler U)
  handler_of none = none
  handler_of (some m) = some m.handler

  -- A new object answers Get, GetAll and Set of org.freedesktop.DBus.Properties with the three handlers
  -- of the constructor, and calls no method of any other interface.
  pub new_object-called_method :
      (address : ℕ) (name : Bytes) (statics : Option Bytes) (other member : Bytes)
      → bytes_eq properties_name other ≡ false
      → let o = (new_object {U = U} address name statics).0 in
        (handler_of (called_method properties_name (codes "Get") o) ≡ some properties_get)
        × (handler_of (called_method properties_name (codes "GetAll") o) ≡ some properties_get_all)
        × (handler_of (called_method properties_name (codes "Set") o) ≡ some properties_set)
        × (called_method other member o ≡ none)
  unfolding new_object called_method find bytes_eq assign bytes_compare emplace
  new_object-called_method address name statics other member different =
      (refl, refl, refl, rw (different) refl)
