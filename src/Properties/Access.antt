-- ===== src/Properties/Access.antt =====
-- Get, GetAll and Set of org.freedesktop.DBus.Properties together.
use boost_dbus.Common.{
  ◌≡◌, ap, ◌∙◌, false, List, [], ◌∷◌, Bytes, none, some, bytes_eq, bytes_eq_refl,
}
use boost_dbus.Common.FlatMap.{find, assign, find-assign, IsSorted}
use boost_dbus.Element.{Variant}
use boost_dbus.Properties.Interface.{
  DbusInterface, value_change_only, set_properties, get_property, properties_changed, Property,
}
use boost_dbus.Properties.Updates.{Stands, set_properties-replay, set_properties-get_property}
use boost_dbus.Properties.Object.{DbusObject, Handler, get, get_all, set}

module _ {U : Type 0} (o : DbusObject U) where
  -- Set of a property of an interface that the object does not have throws, and so do Get and
  -- GetAll.
  pub missing_interface :
      (i k : Bytes) (x : Variant)
      → find i o.interfaces ≡ none
      → (set i k x o ≡ none) × (get i k o ≡ none) × (get_all i o ≡ none)
  unfolding set get get_all
  missing_interface i k x h = (rw (h, set), rw (h, get), rw (h, get_all))

  -- On an interface that the object has, with its properties sorted by name, Set succeeds, and its
  -- signal is the interface's PropertiesChanged. A Get of the same property then gives the value, or
  -- one that compares equal to it; a Get of another property of that interface, or of any property of
  -- another interface, gives what it gave before.
  pub get-set :
      (i other k k' j : Bytes) (x : Variant) (f : DbusInterface (Handler U))
      → find i o.interfaces ≡ some f
      → IsSorted f.properties_map
      → bytes_eq i other ≡ false
      → bytes_eq k k' ≡ false
      → (o' : DbusObject U) × (us : List Property) × (set i k x o
          ≡ some (o', properties_changed f us))
        × ((y : Variant) × (get i k o' ≡ some y) × Stands y x)
        × (get i k' o' ≡ get i k' o)
        × (get other j o' ≡ get other j o)
  unfolding set get get_property
  get-set i other k k' j x f h sorted apart differ =
      let f' = (set_properties ((k, x) ∷ []) value_change_only f).0 in
      let told = set_properties-replay f ((k, x) ∷ []) in
      let law = set_properties-get_property f [] [] k k' x sorted tt (differ, tt) in
      let here : find i (assign i f' o.interfaces) ≡ some f' =
        find-assign i i f' o.interfaces ∙ rw (bytes_eq_refl i) in
      let there : find other (assign i f' o.interfaces) ≡ find other o.interfaces =
        find-assign other i f' o.interfaces ∙ rw apart in
      (
        record o { interfaces = assign i f' o.interfaces },
        told.0,
        rw (h, set) (ap (λ e. some (record o { interfaces = assign i f' o.interfaces }, e)) told.1),
        (law.0.0, rw (here, get) law.0.1, law.0.2),
        rw (here, h, get) law.1,
        rw (there, get),
      )
