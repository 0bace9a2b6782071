-- ===== src/Message/Clean.antt =====
-- Values whose strings hold no NUL byte and whose maps are in the order of their keys.
use mathlib.Core.Path.{◌≡◌, refl, sym, ap, ap₂, ◌∙◌}
use Prim.Native.Nat.{Ordering}
use boost_dbus.Common.{
  List, [], ◌∷◌, ◌++◌, Bytes, map, foldl, append_assoc, append-nil, c_str, c_str-HasNoNul, HasNoNul,
  All, bytes_compare, bytes_compare_trans, bytes_compare-lt,
}
use boost_dbus.Common.FlatMap.{FlatMap, emplace, IsSorted}
use boost_dbus.Element.{
  Ty, bool, fixed, text, dbus_variant, vector, flat_map, pair, pointer, Variant, of_string, of_bool,
  of_number, Value, default,
}
use boost_dbus.Message.Packer.{Values}
use boost_dbus.Message.Unpacker.{push_back, emplace_entry}
use boost_dbus.Message.Received.{received, received_variant}
use boost_dbus.Message.RoundTrip.{received_args}

abbrev pub CleanVariant : Variant → Type 0
CleanVariant (of_string s) = HasNoNul s
CleanVariant _ = Unit {0}

abbrev pub Clean : (t : Ty) → Value t → Type 0
Clean bool v = Unit {0}
Clean (fixed f) v = Unit {0}
Clean (text x) s = HasNoNul s
Clean dbus_variant v = CleanVariant v
Clean (vector t) xs = All (Clean t) xs
Clean (flat_map t) m = IsSorted m × All (λ e. HasNoNul e.0 × Clean t e.1) m
Clean (pair k v) e = Clean k e.0 × Clean v e.1
Clean (pointer t) v = Clean t v

abbrev pub AllClean : (ts : List Ty) → Values ts → Type 0
AllClean [] vs = Unit {0}
AllClean (t ∷ ts) vs = Clean t vs.0 × AllClean ts vs.1

abbrev pub defaults : (ts : List Ty) → Values ts
defaults [] = tt
defaults (t ∷ ts) = (default t, defaults ts)

module _ {A : Type 0} where
  foldl-push_back : (old xs : List A) → foldl push_back old xs ≡ old ++ xs
  foldl-push_back old [] = sym (append-nil old)
  foldl-push_back old (x ∷ xs) = foldl-push_back (old ++ x ∷ []) xs ∙ append_assoc old (x ∷ []) xs

  map-All :
      (P : A → Type 0) (f : A → A)
      → ((x : A) → P x → f x ≡ x)
      → (xs : List A) → All P xs
      → map f xs ≡ xs
  map-All P f h [] all = refl
  map-All P f h (x ∷ xs) all = ap₂ ◌∷◌ (h x all.0) (map-All P f h xs all.1)

module _ {V : Type 0} where
  sorted-lt :
      (j k : Bytes) (w v : V) (a m : FlatMap V)
      → IsSorted ((j, w) ∷ (a ++ (k, v) ∷ m))
      → bytes_compare j k ≡ Ordering.lt
  sorted-lt j k w v [] m s = s.0
  sorted-lt j k w v ((i, u) ∷ a) m s = bytes_compare_trans j i k s.0 (sorted-lt i k u v a m s.1)

  emplace-last :
      (k : Bytes) (v : V) (a m : FlatMap V)
      → IsSorted (a ++ (k, v) ∷ m)
      → emplace k v a ≡ a ++ (k, v) ∷ []
  unfolding emplace
  emplace-last k v [] m s = refl
  emplace-last k v ((j, w) ∷ a) m s =
      rw (bytes_compare-lt j k (sorted-lt j k w v a m s), emplace)
        (ap (◌∷◌ (j, w)) (emplace-last k v a m s.1))

  foldl-emplace : (a m : FlatMap V) → IsSorted (a ++ m) → foldl emplace_entry a m ≡ a ++ m
  foldl-emplace a [] s = sym (append-nil a)
  foldl-emplace a ((k, v) ∷ m) s =
      ap (λ b. foldl emplace_entry b m) (emplace-last k v a m s)
      ∙ foldl-emplace (a ++ (k, v) ∷ []) m (rw (append_assoc a ((k, v) ∷ []) m) s)
      ∙ append_assoc a ((k, v) ∷ []) m

received_variant-Clean : (v : Variant) → CleanVariant v → received_variant v ≡ v
received_variant-Clean (of_string s) h = ap of_string (c_str-HasNoNul s h)
received_variant-Clean (of_bool b) h = refl
received_variant-Clean (of_number f n) h = refl

pub received-Clean : (t : Ty) (v : Value t) → Clean t v → received t (default t) v ≡ v
received-Clean bool v h = refl
received-Clean (fixed f) v h = refl
received-Clean (text x) v h = c_str-HasNoNul v h
received-Clean dbus_variant v h = received_variant-Clean v h
received-Clean (vector t) xs h =
    foldl-push_back [] (map (received t (default t)) xs)
    ∙ map-All (Clean t) (received t (default t)) (received-Clean t) xs h
received-Clean (flat_map t) m h =
    ap (foldl emplace_entry []) (
      map-All (λ e. HasNoNul e.0 × Clean t e.1) (λ e. (c_str e.0, received t (default t) e.1))
        (λ e c. ap₂ (λ k x. (k, x)) (c_str-HasNoNul e.0 c.0) (received-Clean t e.1 c.1)) m h.1)
    ∙ foldl-emplace [] m h.0
received-Clean (pair k w) v h =
    ap₂ (λ a b. (a, b)) (received-Clean k v.0 h.0) (received-Clean w v.1 h.1)
received-Clean (pointer t) v h = received-Clean t v h

pub received_args-Clean :
    (ts : List Ty) (vs : Values ts) → AllClean ts vs → received_args ts (defaults ts) vs ≡ vs
received_args-Clean [] vs h = refl
received_args-Clean (t ∷ ts) vs h =
    ap₂ (λ a b. (a, b)) (received-Clean t vs.0 h.0) (received_args-Clean ts vs.1 h.1)
