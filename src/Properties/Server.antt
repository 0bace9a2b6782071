-- ===== src/Properties/Server.antt =====
-- include/dbus/properties.hpp, `DbusObjectServer`: which filter a message belongs to, which method a
-- call reaches, the answer to GetManagedObjects, and the list of objects.
--
-- `objects` holds shared pointers; `none` is a null one. Where the code follows a null pointer its
-- behaviour is undefined, which the model calls `fault`.
use boost_dbus.Common.{
  ℕ, Bool, true, false, not, List, [], ◌∷◌, ◌++◌, Bytes, map, Option, none, some, if◌then◌else◌,
  codes, bytes_eq, ◌==◌, length, drop,
}
use boost_dbus.Common.FlatMap.{find}
use boost_dbus.Element.{Ty, string, object_path, text, dbus_variant, vector, pair, Variant, Value}
use boost_dbus.Properties.Interface.{DbusMethod, Emission}
use boost_dbus.Properties.Object.{DbusObject, Handler, new_object}

-- What `get_type`, `get_path`, `get_interface` and `get_member` of a message answer.
pub record Header : Type 0 where
  pub type : Bytes
  pub path : Bytes
  pub interface : Bytes
  pub member : Bytes

-- The predicates of the three filters.
unfoldable pub is_introspect : Header → Bool
is_introspect m =
    if not (bytes_eq m.type (codes "method_call"))
    then false
    else if not (bytes_eq m.interface (codes "org.freedesktop.DBus.Introspectable"))
    then false
    else if not (bytes_eq m.member (codes "Introspect"))
    then false
    else true

unfoldable pub is_get_managed_objects : Header → Bool
is_get_managed_objects m =
    if not (bytes_eq m.type (codes "method_call"))
    then false
    else if not (bytes_eq m.interface (codes "org.freedesktop.DBus.ObjectManager"))
    then false
    else if not (bytes_eq m.member (codes "GetManagedObjects"))
    then false
    else true

unfoldable pub is_method_call : Header → Bool
is_method_call m = if not (bytes_eq m.type (codes "method_call")) then false else true

abbrev pub Pointer : Type 0 → Type 0
Pointer U = Option (DbusObject U)

-- What becomes of a method call: nothing is done where no object has the path, or the object has no
-- such method.
pub data Route (U : Type 0) : Type 0 where
  fault ignored : Route U
  calls : DbusObject U → DbusMethod (Handler U) → Route U

abbrev pub Properties : Type 0
Properties = List (Bytes × Variant)

abbrev pub managed_type : Ty
managed_type = vector (
    pair (text object_path)
      (vector (pair (text string) (vector (pair (text string) dbus_variant)))))

module _ {U : Type 0} where
  unfoldable pub call_object : Header → DbusObject U → Route U
  call_object m o = elim (find m.interface o.interfaces) [
    | none ↦ ignored
    | some i ↦ elim (find m.member i.dbus_methods) [ none ↦ ignored | some method ↦ calls o method ]
  ]

  -- The loop of `on_method_call` up to its `break`.
  unfoldable pub find_object : Header → List (Pointer U) → Route U
  unfolding call_object
  find_object m [] = ignored
  find_object m (none ∷ ps) = fault
  find_object m (some o ∷ ps) =
      if bytes_eq o.object_name m.path then call_object m o else find_object m ps

  -- `ec` says whether the handler was called with an error.
  unfoldable pub on_method_call : (ec : Bool) → Header → List (Pointer U) → Route U
  unfolding find_object
  on_method_call true m ps = ignored
  on_method_call false m ps = find_object m ps

  unfoldable pub managed_object : DbusObject U → Bytes × List (Bytes × Properties)
  managed_object o =
      (o.object_name, map (λ e. (e.1.interface_name, e.1.properties_map)) o.interfaces)

  -- The argument of the reply to GetManagedObjects; `none` where a pointer is null.
  unfoldable pub managed_objects : List (Pointer U) → Option (Value managed_type)
  unfolding managed_object
  managed_objects [] = some []
  managed_objects (none ∷ ps) = none
  managed_objects (some o ∷ ps) = elim (managed_objects ps) [
    | none ↦ none
    | some rest ↦ some (managed_object o ∷ rest)
  ]

  unfoldable pub register_object : DbusObject U → List (Pointer U) → List (Pointer U)
  register_object o ps = ps ++ some o ∷ []

  unfoldable pub add_object :
      ℕ
      → Bytes
      → Option Bytes
      → List (Pointer U)
      → DbusObject U × List (Pointer U) × Option Bytes × Emission
  unfolding new_object register_object
  add_object address name statics ps =
      let (o, statics', e) = new_object address name statics in
      (o, register_object o ps, statics', e)

  abbrev pub same_object : ℕ → Pointer U → Bool
  same_object a none = false
  same_object a (some o) = o.address == a

  abbrev pub others : ℕ → List (Pointer U) → List (Pointer U)
  others a [] = []
  others a (p ∷ ps) = if same_object a p then others a ps else p ∷ others a ps

  -- What `std::remove` leaves behind the elements that it keeps: a shared pointer that was moved away
  -- is null, and one that was to be removed is still there.
  abbrev pub left_behind : ℕ → List (Pointer U) → List (Pointer U)
  left_behind a [] = []
  left_behind a (p ∷ ps) = (if same_object a p then p else none) ∷ left_behind a ps

  -- `remove_object`: `std::remove` over the whole vector, whose result is not used to erase.
  unfoldable pub remove_object : ℕ → List (Pointer U) → List (Pointer U)
  remove_object a ps = others a ps ++ left_behind a (drop (length (others a ps)) ps)
