-- ===== src/Common/ByteString.antt =====
-- Byte strings: `std::string` as the list of its bytes, what a C string keeps of it, and the
-- order of `std::string`.
use Prim.Native.Char.{code}
use Prim.Native.String.{String}
use Prim.Native.Nat.{ℕ, compare, Ordering}
use mathlib.Core.Path.{◌≡◌, refl}
use mathlib.Core.Logic.{◌↔◌}
use mathlib.Core.Bool.{Bool, true, false, ◌&&◌}
use mathlib.Core.List.{List, [], ◌∷◌, ◌++◌}
use native.Mathlib.Omega.{arith}
use boost_dbus.Common.Tests.{◌==◌, if◌then◌else◌}
use boost_dbus.Common.Lists.{All}

abbrev pub Bytes : Type 0
Bytes = List ℕ

-- The bytes of an ASCII literal.
abbrev pub codes : String → Bytes
codes String.[] = []
codes (String.◌∷◌ c s) = code c ∷ codes s

-- What is read through a `const char *`: the bytes before the first NUL.
unfoldable pub c_str : Bytes → Bytes
c_str [] = []
c_str (b ∷ s) = if b == 0 then [] else b ∷ c_str s

abbrev pub HasNoNul : Bytes → Type 0
HasNoNul s = All (λ b. (b == 0) ≡ false) s

pub c_str-nul : (s t : Bytes) → HasNoNul s → c_str (s ++ 0 ∷ t) ≡ s
unfolding c_str
c_str-nul [] t h = refl
c_str-nul (b ∷ s) t h = ground (arith, c_str-nul s t h.1)

pub c_str-HasNoNul : (s : Bytes) → HasNoNul s → c_str s ≡ s
unfolding c_str
c_str-HasNoNul [] h = refl
c_str-HasNoNul (b ∷ s) h = ground (arith, c_str-HasNoNul s h.1)

pub HasNoNul-c_str : (s : Bytes) → HasNoNul (c_str s)
unfolding c_str
HasNoNul-c_str [] = tt
HasNoNul-c_str (b ∷ s) = ground (arith, HasNoNul-c_str s)

pub c_str_idem : (s : Bytes) → c_str (c_str s) ≡ c_str s
c_str_idem s = c_str-HasNoNul (c_str s) (HasNoNul-c_str s)

pub HasNoNul-append : (s t : Bytes) → HasNoNul s → HasNoNul t → HasNoNul (s ++ t)
HasNoNul-append [] t hs ht = ht
HasNoNul-append (b ∷ s) t hs ht = (hs.0, HasNoNul-append s t hs.1 ht)

unfoldable pub bytes_eq : Bytes → Bytes → Bool
bytes_eq [] [] = true
bytes_eq (a ∷ s) (b ∷ t) = (a == b) && bytes_eq s t
bytes_eq _ _ = false

pub bytes_eq_iff : (s t : Bytes) → (bytes_eq s t ≡ true) ↔ (s ≡ t)
unfolding bytes_eq
bytes_eq_iff [] [] = (λ _. refl, λ _. refl)
bytes_eq_iff [] (b ∷ t) = (λ h. cc, λ h. cc)
bytes_eq_iff (a ∷ s) [] = (λ h. cc, λ h. cc)
bytes_eq_iff (a ∷ s) (b ∷ t) =
    (λ h. ground (arith, bytes_eq_iff s t), λ h. ground (arith, bytes_eq_iff s t))

pub bytes_eq_refl : (s : Bytes) → bytes_eq s s ≡ true
bytes_eq_refl s = (bytes_eq_iff s s).1 refl

-- `std::string::compare`: lexicographic, bytes as unsigned.
unfoldable pub bytes_compare : Bytes → Bytes → Ordering
bytes_compare [] [] = Ordering.eq
bytes_compare [] (b ∷ t) = Ordering.lt
bytes_compare (a ∷ s) [] = Ordering.gt
bytes_compare (a ∷ s) (b ∷ t) =
    let rest = bytes_compare s t in
    elim (compare a b) [
      | Ordering.lt ↦ Ordering.lt
      | Ordering.eq ↦ rest
      | Ordering.gt ↦ Ordering.gt
    ]

pub bytes_compare-eq_iff : (s t : Bytes) → (bytes_compare s t ≡ Ordering.eq) ↔ (s ≡ t)
unfolding bytes_compare
bytes_compare-eq_iff [] [] = (λ _. refl, λ _. refl)
bytes_compare-eq_iff [] (b ∷ t) = (λ h. cc, λ h. cc)
bytes_compare-eq_iff (a ∷ s) [] = (λ h. cc, λ h. cc)
bytes_compare-eq_iff (a ∷ s) (b ∷ t) =
    (λ h. ground (arith, bytes_compare-eq_iff s t), λ h. ground (arith, bytes_compare-eq_iff s t))

pub bytes_compare_trans :
    (s t u : Bytes)
    → bytes_compare s t ≡ Ordering.lt
    → bytes_compare t u ≡ Ordering.lt
    → bytes_compare s u ≡ Ordering.lt
unfolding bytes_compare
bytes_compare_trans [] [] u h k = cc
bytes_compare_trans [] (b ∷ t) [] h k = cc
bytes_compare_trans [] (b ∷ t) (c ∷ u) h k = refl
bytes_compare_trans (a ∷ s) [] u h k = cc
bytes_compare_trans (a ∷ s) (b ∷ t) [] h k = cc
bytes_compare_trans (a ∷ s) (b ∷ t) (c ∷ u) h k = ground (arith, bytes_compare_trans s t u)

pub bytes_compare-gt :
    (s t : Bytes) → bytes_compare s t ≡ Ordering.gt → bytes_compare t s ≡ Ordering.lt
unfolding bytes_compare
bytes_compare-gt [] [] h = cc
bytes_compare-gt [] (b ∷ t) h = cc
bytes_compare-gt (a ∷ s) [] h = refl
bytes_compare-gt (a ∷ s) (b ∷ t) h = ground (arith, bytes_compare-gt s t)

pub bytes_compare-lt :
    (s t : Bytes) → bytes_compare s t ≡ Ordering.lt → bytes_compare t s ≡ Ordering.gt
unfolding bytes_compare
bytes_compare-lt [] [] h = cc
bytes_compare-lt [] (b ∷ t) h = refl
bytes_compare-lt (a ∷ s) [] h = cc
bytes_compare-lt (a ∷ s) (b ∷ t) h = ground (arith, bytes_compare-lt s t)
