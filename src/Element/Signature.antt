-- ===== src/Element/Signature.antt =====
-- `element_signature<T>::code`, the NUL-terminated array that is computed at compile time.
use boost_dbus.Common.{ℕ, zero, suc, ◌-◌, List, [], ◌∷◌, ◌++◌, Bytes, map, length, get_or}
use boost_dbus.Element.Types.{
  Ty, Text, text, vector, flat_map, pair, pointer, element_code, type_array,
}

-- gen_seq<N>: the indices 0, …, N - 1, each put in front of those already there.
unfoldable pub gen_seq : ℕ → List ℕ → List ℕ
gen_seq zero is = is
gen_seq (suc n) is = gen_seq n (n ∷ is)

unfoldable pub concat_helper : Bytes → Bytes → List ℕ → List ℕ → Bytes
concat_helper a1 a2 is1 is2 = map (λ i. get_or a1 i 0) is1 ++ map (λ i. get_or a2 i 0) is2

-- Drops the terminator of the first array.
unfoldable pub concat : Bytes → Bytes → Bytes
unfolding concat_helper gen_seq
concat a1 a2 = concat_helper a1 a2 (gen_seq (length a1 - 1) []) (gen_seq (length a2) [])

-- The signature of `std::pair<Key, Value>`.
unfoldable pub pair_signature : Bytes → Bytes → Bytes
unfolding concat
pair_signature k v = concat (b'{' ∷ 0 ∷ []) (concat k (concat v (b'}' ∷ 0 ∷ [])))

unfoldable pub element_signature : Ty → Bytes
unfolding pair_signature element_code
element_signature (vector t) = concat (type_array ∷ 0 ∷ []) (element_signature t)
element_signature (flat_map t) =
    concat (type_array ∷ 0 ∷ [])
      (pair_signature (element_code (text Text.string) ∷ 0 ∷ []) (element_signature t))
element_signature (pair k v) = pair_signature (element_signature k) (element_signature v)
element_signature (pointer t) = element_signature t
element_signature t = element_code t ∷ 0 ∷ []
