-- ===== src/Element/SignatureLaws.antt =====
-- include/dbus/element.hpp: the arrays of `element_signature` beside the written signatures.
use boost_dbus.Common.{
  ℕ, zero, suc, ◌-◌, ◌≡◌, refl, sym, ap, ap₂, ◌∙◌, List, [], ◌∷◌, ◌++◌, Bytes, map, length, get_or,
  append-nil, append_assoc, arith, ◌<◌, ◌≤◌, c_str, c_str-nul, HasNoNul, HasNoNul-append, take,
  length-append,
}
use boost_dbus.Element.Types.{
  Ty, bool, fixed, text, dbus_variant, vector, flat_map, pair, pointer, type_array, fixed_code,
  text_code, type_variant,
}
use boost_dbus.Element.Signature.{gen_seq, concat, pair_signature, element_signature}

-- The D-Bus signature of a type, as the specification writes it, with no terminator.
unfoldable pub type_string : Ty → Bytes
type_string bool = b'b' ∷ []
type_string (fixed f) = fixed_code f ∷ []
type_string (text x) = text_code x ∷ []
type_string dbus_variant = type_variant ∷ []
type_string (vector t) = b'a' ∷ type_string t
type_string (flat_map t) = b'a' ∷ b'{' ∷ b's' ∷ (type_string t ++ b'}' ∷ [])
type_string (pair k v) = b'{' ∷ (type_string k ++ (type_string v ++ b'}' ∷ []))
type_string (pointer t) = type_string t

abbrev read_at : Bytes → ℕ → ℕ
read_at a i = get_or a i 0

-- Reading an array at the indices of `gen_seq`.
map-gen_seq :
    (a : Bytes) (n : ℕ) (is : List ℕ)
    → map (read_at a) (gen_seq n is) ≡ map (read_at a) (gen_seq n []) ++ map (read_at a) is
unfolding gen_seq
map-gen_seq a zero is = refl
map-gen_seq a (suc n) is =
    map-gen_seq a n (n ∷ is)
    ∙ sym (append_assoc (map (read_at a) (gen_seq n [])) (read_at a n ∷ []) _)
    ∙ ap (λ r. r ++ map (read_at a) is) (sym (map-gen_seq a n (n ∷ [])))

take-last : (n : ℕ) (a : Bytes) → n < length a → take n a ++ read_at a n ∷ [] ≡ take (suc n) a
take-last zero [] h = absurd (omega arith)
take-last zero (x ∷ a) h = refl
take-last (suc n) [] h = absurd (omega arith)
take-last (suc n) (x ∷ a) h = ap (◌∷◌ x) (take-last n a (omega arith))

gen_seq-take : (a : Bytes) (n : ℕ) → n ≤ length a → map (read_at a) (gen_seq n []) ≡ take n a
unfolding gen_seq
gen_seq-take a zero h = refl
gen_seq-take a (suc n) h =
    map-gen_seq a n (n ∷ [])
    ∙ ap (λ r. r ++ read_at a n ∷ []) (gen_seq-take a n (omega arith))
    ∙ take-last n a (omega arith)

take-length : (s t : Bytes) → take (length s) (s ++ t) ≡ s
take-length [] t = refl
take-length (x ∷ s) t = ap (◌∷◌ x) (take-length s t)

-- `concat` of two NUL-terminated arrays is the terminated concatenation.
concat-nul : (s t : Bytes) → concat (s ++ 0 ∷ []) (t ++ 0 ∷ []) ≡ (s ++ t) ++ 0 ∷ []
unfolding concat
concat-nul s t =
    ap₂ ◌++◌
      (gen_seq-take (s ++ 0 ∷ []) (length (s ++ 0 ∷ []) - 1) (omega arith)
        ∙ ap (λ n. take n (s ++ 0 ∷ [])) (omega (arith, length-append s (0 ∷ [])))
        ∙ take-length s (0 ∷ []))
      (gen_seq-take (t ++ 0 ∷ []) (length (t ++ 0 ∷ [])) (omega arith)
        ∙ ap (take (length (t ++ 0 ∷ []))) (sym (append-nil (t ++ 0 ∷ [])))
        ∙ take-length (t ++ 0 ∷ []) [])
    ∙ sym (append_assoc s t (0 ∷ []))

pair_signature-nul :
    (k v : Bytes)
    → pair_signature (k ++ 0 ∷ []) (v ++ 0 ∷ []) ≡ (b'{' ∷ (k ++ (v ++ b'}' ∷ []))) ++ 0 ∷ []
unfolding pair_signature
pair_signature-nul k v =
    ap (λ r. concat (b'{' ∷ 0 ∷ []) (concat (k ++ 0 ∷ []) r)) (concat-nul v (b'}' ∷ []))
    ∙ ap (concat (b'{' ∷ 0 ∷ [])) (concat-nul k (v ++ b'}' ∷ []))
    ∙ concat-nul (b'{' ∷ []) (k ++ (v ++ b'}' ∷ []))

-- The array that the compiler builds is the type's D-Bus signature and a terminator.
pub element_signature-type_string : (t : Ty) → element_signature t ≡ type_string t ++ 0 ∷ []
unfolding element_signature type_string
element_signature-type_string bool = refl
element_signature-type_string (fixed f) = refl
element_signature-type_string (text x) = refl
element_signature-type_string dbus_variant = refl
element_signature-type_string (vector t) =
    ap (concat (type_array ∷ 0 ∷ [])) (element_signature-type_string t)
    ∙ concat-nul (b'a' ∷ []) (type_string t)
element_signature-type_string (flat_map t) =
    ap (λ r. concat (type_array ∷ 0 ∷ []) (pair_signature (b's' ∷ 0 ∷ []) r))
      (element_signature-type_string t)
    ∙ ap (concat (type_array ∷ 0 ∷ [])) (pair_signature-nul (b's' ∷ []) (type_string t))
    ∙ concat-nul (b'a' ∷ []) (b'{' ∷ b's' ∷ (type_string t ++ b'}' ∷ []))
element_signature-type_string (pair k v) =
    ap₂ pair_signature (element_signature-type_string k) (element_signature-type_string v)
    ∙ pair_signature-nul (type_string k) (type_string v)
element_signature-type_string (pointer t) = element_signature-type_string t

pub type_string-HasNoNul : (t : Ty) → HasNoNul (type_string t)
unfolding type_string
type_string-HasNoNul bool = (refl, tt)
type_string-HasNoNul (fixed f) = ground arith
type_string-HasNoNul (text x) = ground arith
type_string-HasNoNul dbus_variant = (refl, tt)
type_string-HasNoNul (vector t) = (refl, type_string-HasNoNul t)
type_string-HasNoNul (flat_map t) =
    (refl, (refl, (refl, HasNoNul-append _ _ (type_string-HasNoNul t) (refl, tt))))
type_string-HasNoNul (pair k v) = (
  refl,
  HasNoNul-append _ _ (type_string-HasNoNul k)
      (HasNoNul-append _ _ (type_string-HasNoNul v) (refl, tt)),
)
type_string-HasNoNul (pointer t) = type_string-HasNoNul t

-- Read as a C string, the array is the signature with nothing cut off.
pub c_str-element_signature : (t : Ty) → c_str (element_signature t) ≡ type_string t
c_str-element_signature t =
    ap c_str (element_signature-type_string t)
    ∙ c_str-nul (type_string t) [] (type_string-HasNoNul t)
