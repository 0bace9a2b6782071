-- ===== src/Properties/Updates.antt =====
-- What `set_properties` does to the map, and what `PropertiesChanged` tells.
use boost_dbus.Common.{
  ◌≡◌, refl, ◌∙◌, true, false, List, [], ◌∷◌, ◌++◌, Bytes, some, arith, bytes_eq, bytes_eq_refl,
  ◌⊎◌, inl, inr, ◌≢◌, All, Bool-cases, Option-cases,
}
use boost_dbus.Common.FlatMap.{FlatMap, find, assign, IsSorted, find-assign, assign-IsSorted}
use boost_dbus.Element.{Variant, variant_eq}
use boost_dbus.Properties.Interface.{
  DbusInterface, value_change_only, force, Property, set_one, set_each, set_properties,
  get_property, properties_changed,
}

-- What a client does that keeps a copy of the map: it takes over the changed properties.
abbrev pub replay : FlatMap Variant → List Property → FlatMap Variant
replay m [] = m
replay m ((k, x) ∷ us) = replay (assign k x m) us

replay-append :
    (m : FlatMap Variant) (us vs : List Property) → replay m (us ++ vs) ≡ replay (replay m us) vs
replay-append m [] vs = refl
replay-append m ((k, x) ∷ us) vs = replay-append (assign k x m) us vs

set_one-replay :
    (old : FlatMap Variant) (m : FlatMap Variant) (us : List Property) (p : Property)
    → replay old us ≡ m
    → replay old (set_one (m, us) p).1 ≡ (set_one (m, us) p).0
unfolding set_one
set_one-replay old m us (k, x) h = ground (arith, replay-append old us ((k, x) ∷ []))

set_each-replay :
    (old : FlatMap Variant) (s : FlatMap Variant × List Property) (v : List Property)
    → replay old s.1 ≡ s.0
    → replay old (set_each s v).1 ≡ (set_each s v).0
unfolding set_each
set_each-replay old s [] h = h
set_each-replay old s (p ∷ ps) h =
    set_each-replay old (set_one s p) ps (set_one-replay old s.0 s.1 p h)

set_one-IsSorted :
    (m : FlatMap Variant) (us : List Property) (p : Property)
    → IsSorted m
    → IsSorted (set_one (m, us) p).0
unfolding set_one
set_one-IsSorted m us (k, x) h = ground (arith, assign-IsSorted k x m h)

set_each-IsSorted :
    (s : FlatMap Variant × List Property) (v : List Property)
    → IsSorted s.0
    → IsSorted (set_each s v).0
unfolding set_each
set_each-IsSorted s [] h = h
set_each-IsSorted s (p ∷ ps) h = set_each-IsSorted (set_one s p) ps (set_one-IsSorted s.0 s.1 p h)

-- `y` may stand for `x`: it is `x`, or compares equal to it.
abbrev pub Stands : Variant → Variant → Type 0
Stands y x = (y ≡ x) ⊎ (variant_eq y x ≡ true)

set_one-find :
    (m : FlatMap Variant) (us : List Property) (k : Bytes) (x : Variant)
    → (y : Variant) × (find k (set_one (m, us) (k, x)).0 ≡ some y) × Stands y x
unfolding set_one
set_one-find m us k x = elim (Option-cases (find k m)) [
  | inl absent ↦ (x, ground (arith, absent, find-assign k k x m, bytes_eq_refl k), inl refl)
  | inr (old, e) ↦ elim (Bool-cases (variant_eq old x)) [
    | inl same ↦ (old, ground (arith, e, same), inr same)
    | inr differs ↦ (x, ground (arith, e, differs, find-assign k k x m, bytes_eq_refl k), inl refl)
  ]
]

set_one-find_other :
    (m : FlatMap Variant) (us : List Property) (i k : Bytes) (x : Variant)
    → bytes_eq k i ≡ false
    → find i (set_one (m, us) (k, x)).0 ≡ find i m
unfolding set_one
set_one-find_other m us i k x h = ground (arith, find-assign i k x m)

abbrev pub NotAmong : Bytes → List Property → Type 0
NotAmong k ps = All (λ p. bytes_eq p.0 k ≡ false) ps

set_each-find_other :
    (s : FlatMap Variant × List Property) (v : List Property) (k : Bytes)
    → NotAmong k v
    → find k (set_each s v).0 ≡ find k s.0
unfolding set_each
set_each-find_other s [] k h = refl
set_each-find_other s (p ∷ ps) k h =
    set_each-find_other (set_one s p) ps k h.1 ∙ set_one-find_other s.0 s.1 k p.0 p.1 h.0

set_each-find :
    (s : FlatMap Variant × List Property) (before after : List Property) (k : Bytes) (x : Variant)
    → NotAmong k after
    → (y : Variant) × (find k (set_each s (before ++ (k, x) ∷ after)).0 ≡ some y) × Stands y x
unfolding set_each
set_each-find s [] after k x h =
    let (y, e, st) = set_one-find s.0 s.1 k x in
    (y, set_each-find_other (set_one s (k, x)) after k h ∙ e, st)
set_each-find s (p ∷ ps) after k x h = set_each-find (set_one s p) ps after k x h

find-replay_other :
    (m : FlatMap Variant) (ps : List Property) (k : Bytes)
    → NotAmong k ps
    → find k (replay m ps) ≡ find k m
find-replay_other m [] k h = refl
find-replay_other m ((j, y) ∷ ps) k h =
    find-replay_other (assign j y m) ps k h.1 ∙ ground (arith, find-assign k j y m, h.0)

find-replay :
    (m : FlatMap Variant) (before after : List Property) (k : Bytes) (x : Variant)
    → NotAmong k after
    → find k (replay m (before ++ (k, x) ∷ after)) ≡ some x
find-replay m [] after k x h =
    find-replay_other (assign k x m) after k h
    ∙ ground (arith, find-assign k k x m, bytes_eq_refl k)
find-replay m ((j, y) ∷ ps) after k x h = find-replay (assign j y m) ps after k x h

module _ {H : Type 0} (i : DbusInterface H) where
  -- In the default mode the changed properties that the signal of `set_properties` carries are what
  -- a client needs: taken over into a copy of the old map, one after the other, they give the new
  -- map.
  pub set_properties-replay :
      (v : List Property)
      → (us : List Property) × ((set_properties v value_change_only i).1 ≡ properties_changed i us)
        × (replay i.properties_map us ≡ (set_properties v value_change_only i).0.properties_map)
  unfolding set_properties
  set_properties-replay v = (
    (set_each (i.properties_map, []) v).1,
    refl,
    set_each-replay i.properties_map (i.properties_map, []) v refl,
  )

  -- In the default mode, on a map that is sorted by name: a property that is set, and not set again
  -- later in the list, has afterwards the value given, or one that compares equal to it; a property
  -- that is not among those set keeps its value, or stays absent; and the map stays sorted.
  pub set_properties-get_property :
      (before after : List Property) (k other : Bytes) (x : Variant)
      → IsSorted i.properties_map
      → NotAmong k after
      → NotAmong other (before ++ (k, x) ∷ after)
      → let j = (set_properties (before ++ (k, x) ∷ after) value_change_only i).0 in
        ((y : Variant) × (get_property k j ≡ some y) × Stands y x)
        × (get_property other j ≡ get_property other i)
        × IsSorted j.properties_map
  unfolding set_properties get_property
  set_properties-get_property before after k other x sorted h n = (
    set_each-find (i.properties_map, []) before after k x h,
    set_each-find_other (i.properties_map, []) (before ++ (k, x) ∷ after) other n,
    set_each-IsSorted (i.properties_map, []) (before ++ (k, x) ∷ after) sorted,
  )

  -- In the mode FORCE the signal tells a new value and the map does not take it: for a property that
  -- is set, that is not set again later in the list, and whose value before is not the one given, a
  -- client that takes over what the signal carries has the value given, and the interface has not.
  pub set_properties-force :
      (before after : List Property) (k : Bytes) (x : Variant)
      → NotAmong k after
      → get_property k i ≢ some x
      → let r = set_properties (before ++ (k, x) ∷ after) force i in
        (us : List Property) × (r.1 ≡ properties_changed i us)
        × (find k (replay i.properties_map us) ≡ some x)
        × (get_property k r.0 ≢ some x)
  unfolding set_properties
  set_properties-force before after k x h new =
      (before ++ (k, x) ∷ after, refl, find-replay i.properties_map before after k x h, new)
