-- ===== src/Common/FlatMap.antt =====
-- `boost::container::flat_map<std::string, V>` as the code uses it: a vector of pairs that is kept
-- sorted by key, with `find`, `emplace` and assignment through `operator[]`.
use Prim.Native.Nat.{Ordering}
use mathlib.Core.Path.{◌≡◌, refl}
use mathlib.Core.Option.{Option, none, some}
use mathlib.Core.List.{List, [], ◌∷◌}
use native.Mathlib.Omega.{arith}
use boost_dbus.Common.Tests.{if◌then◌else◌}
use boost_dbus.Common.ByteString.{
  Bytes, bytes_eq, bytes_eq_iff, bytes_compare, bytes_compare-eq_iff, bytes_compare_trans,
  bytes_compare-gt,
}

abbrev pub FlatMap {ℓ} : Type ℓ → Type ℓ
FlatMap V = List (Bytes × V)

module _ {ℓ} {V : Type ℓ} where
  unfoldable pub find : Bytes → FlatMap V → Option V
  find k [] = none
  find k ((j, w) ∷ m) = if bytes_eq j k then some w else find k m

  -- Inserts in the place of the order, and changes nothing where the key is there already.
  unfoldable pub emplace : Bytes → V → FlatMap V → FlatMap V
  emplace k v [] = (k, v) ∷ []
  emplace k v ((j, w) ∷ m) =
      let after = (j, w) ∷ emplace k v m in
      elim (bytes_compare k j) [
        | Ordering.lt ↦ (k, v) ∷ (j, w) ∷ m
        | Ordering.eq ↦ (j, w) ∷ m
        | Ordering.gt ↦ after
      ]

  -- `m[k] = v`
  unfoldable pub assign : Bytes → V → FlatMap V → FlatMap V
  assign k v [] = (k, v) ∷ []
  assign k v ((j, w) ∷ m) =
      let after = (j, w) ∷ assign k v m in
      elim (bytes_compare k j) [
        | Ordering.lt ↦ (k, v) ∷ (j, w) ∷ m
        | Ordering.eq ↦ (j, v) ∷ m
        | Ordering.gt ↦ after
      ]

  abbrev pub IsBelow : Bytes → FlatMap V → Type 0
  IsBelow k [] = Unit {0}
  IsBelow k ((j, w) ∷ m) = bytes_compare k j ≡ Ordering.lt

  abbrev pub IsSorted : FlatMap V → Type 0
  IsSorted [] = Unit {0}
  IsSorted ((k, v) ∷ m) = IsBelow k m × IsSorted m

module _ {ℓ} {V : Type ℓ} where
  pub find_below : (k : Bytes) (m : FlatMap V) → IsBelow k m → IsSorted m → find k m ≡ none
  unfolding find
  find_below k [] b s = refl
  find_below k ((j, w) ∷ []) b s = ground (arith, bytes_eq_iff j k, bytes_compare-eq_iff k j)
  find_below k ((j, w) ∷ (i, u) ∷ m) b s = ground (
    arith,
    bytes_eq_iff j k,
    bytes_compare-eq_iff k j,
    find_below k ((i, u) ∷ m) (bytes_compare_trans k j i b s.0) s.1,
  )

  pub assign-IsBelow :
      (i k : Bytes) (v : V) (m : FlatMap V)
      → IsBelow i m
      → bytes_compare i k ≡ Ordering.lt
      → IsBelow i (assign k v m)
  unfolding assign
  assign-IsBelow i k v [] b h = h
  assign-IsBelow i k v ((j, w) ∷ m) b h = ground arith

  pub emplace-IsBelow :
      (i k : Bytes) (v : V) (m : FlatMap V)
      → IsBelow i m
      → bytes_compare i k ≡ Ordering.lt
      → IsBelow i (emplace k v m)
  unfolding emplace
  emplace-IsBelow i k v [] b h = h
  emplace-IsBelow i k v ((j, w) ∷ m) b h = ground arith

  pub assign-IsSorted : (k : Bytes) (v : V) (m : FlatMap V) → IsSorted m → IsSorted (assign k v m)
  unfolding assign
  assign-IsSorted k v [] s = (tt, tt)
  assign-IsSorted k v ((j, w) ∷ m) s =
      ground (arith, bytes_compare-gt k j, assign-IsBelow j k v m s.0, assign-IsSorted k v m s.1)

  pub emplace-IsSorted : (k : Bytes) (v : V) (m : FlatMap V) → IsSorted m → IsSorted (emplace k v m)
  unfolding emplace
  emplace-IsSorted k v [] s = (tt, tt)
  emplace-IsSorted k v ((j, w) ∷ m) s =
      ground (arith, bytes_compare-gt k j, emplace-IsBelow j k v m s.0, emplace-IsSorted k v m s.1)

  -- After `m[k] = v` the key `k` holds `v` and every other key what it held.
  pub find-assign :
      (i k : Bytes) (v : V) (m : FlatMap V)
      → find i (assign k v m) ≡ (if bytes_eq k i then some v else find i m)
  unfolding find assign
  find-assign i k v [] = refl
  find-assign i k v ((j, w) ∷ m) =
      ground
        (arith, bytes_eq_iff k i, bytes_eq_iff j i, bytes_compare-eq_iff k j, find-assign i k v m)

  -- A key that is there keeps its value and the map stays as it is.
  pub emplace_old :
      (k : Bytes) (u v : V) (m : FlatMap V) → IsSorted m → find k m ≡ some u → emplace k v m ≡ m
  unfolding find emplace
  emplace_old k u v [] s h = cc
  emplace_old k u v ((j, w) ∷ m) s h = ground (
    arith,
    bytes_eq_iff j k,
    bytes_compare-eq_iff k j,
    find_below k ((j, w) ∷ m),
    emplace_old k u v m s.1,
  )

  -- A new key holds the value, and every other key what it held.
  pub find-emplace_new :
      (i k : Bytes) (v : V) (m : FlatMap V)
      → find k m ≡ none
      → find i (emplace k v m) ≡ (if bytes_eq k i then some v else find i m)
  unfolding find emplace
  find-emplace_new i k v [] h = refl
  find-emplace_new i k v ((j, w) ∷ m) h = ground (
    arith,
    bytes_eq_iff k i,
    bytes_eq_iff j i,
    bytes_eq_iff j k,
    bytes_compare-eq_iff k j,
    find-emplace_new i k v m,
  )
