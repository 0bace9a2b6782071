-- ===== src/Message/Encoding.antt =====
-- The D-Bus arguments that stand for a C++ value: the description that packing and unpacking are
-- held to.
use boost_dbus.Common.{
  ℕ, ◌≡◌, refl, sym, ap, ap₂, ◌∙◌, List, [], ◌∷◌, ◌++◌, Bytes, none, some, append-nil, append_assoc,
  c_str,
}
use boost_dbus.Element.{
  Fixed, Text, string, object_path, signature, Ty, bool, fixed, text, dbus_variant, vector,
  flat_map, pair, pointer, Variant, of_string, of_bool, of_number, Value, fixed_code, text_code,
  type_dict_entry, type_array, type_variant, type_string,
}
use boost_dbus.Wire.{word, chars, Body, end, value, group, ◌⊕◌, body_signature}
use boost_dbus.Message.Packer.{Packable, bool_word, variant_type, Values, AllPackable}

abbrev pub encode_text : Text → Bytes → Body
encode_text x s = value (text_code x) (chars (c_str s)) end

abbrev pub encode_alternative : Variant → Body
encode_alternative (of_string s) = encode_text string s
encode_alternative (of_bool b) = value b'b' (word (bool_word b)) end
encode_alternative (of_number f n) = value (fixed_code f) (word n) end

abbrev pub encode_each {ℓ} : {A : Type ℓ} → (A → Body) → List A → Body
encode_each f [] = end
encode_each f (x ∷ xs) = f x ⊕ encode_each f xs

abbrev pub encode_pair {ℓ κ} : {A : Type ℓ} {B : Type κ} → (A → Body) → (B → Body) → A × B → Body
encode_pair f g (a, b) = group type_dict_entry none (f a ⊕ g b) end

unfoldable pub encode : (t : Ty) → Packable t → Value t → Body
encode bool p b = value b'b' (word (bool_word b)) end
encode (fixed f) p n = value (fixed_code f) (word n) end
encode (text string) p s = encode_text string s
encode (text object_path) p s = encode_text object_path s
encode (text signature) p s = end
encode dbus_variant p v =
    group type_variant (some (type_string (variant_type v))) (encode_alternative v) end
encode (vector t) p xs = group type_array (some (type_string t)) (encode_each (encode t p) xs) end
encode (flat_map t) p m =
    group type_array (some (b'{' ∷ b's' ∷ (type_string t ++ b'}' ∷ [])))
      (encode_each (encode_pair (encode_text string) (encode t p)) m) end
encode (pair k v) p e = encode_pair (encode k p.0) (encode v p.1) e
encode (pointer t) p x = encode t p x

unfoldable pub encode_args : (ts : List Ty) → AllPackable ts → Values ts → Body
encode_args [] ps vs = end
encode_args (t ∷ ts) ps vs = encode t ps.0 vs.0 ⊕ encode_args ts ps.1 vs.1

pub body_signature-⊕ : (a b : Body) → body_signature (a ⊕ b) ≡ body_signature a ++ body_signature b
unfolding body_signature
body_signature-⊕ end b = refl
body_signature-⊕ (value c d r) b = ap (◌∷◌ c) (body_signature-⊕ r b)
body_signature-⊕ (group c s i r) b =
    ap (◌++◌ _) (body_signature-⊕ r b) ∙ sym (append_assoc _ (body_signature r) (body_signature b))

pub pair-signature :
    (a b : Body) (s t : Bytes)
    → body_signature a ≡ s
    → body_signature b ≡ t
    → body_signature (group type_dict_entry none (a ⊕ b) end) ≡ b'{' ∷ (s ++ (t ++ b'}' ∷ []))
unfolding body_signature
pair-signature a b s t h k =
    append-nil _
    ∙ ap (λ r. b'{' ∷ (r ++ b'}' ∷ [])) (body_signature-⊕ a b ∙ ap₂ ◌++◌ h k)
    ∙ ap (◌∷◌ b'{') (append_assoc s t (b'}' ∷ []))

fixed_code-signature :
    (f : Fixed) (n : ℕ) → body_signature (value (fixed_code f) (word n) end) ≡ fixed_code f ∷ []
unfolding body_signature
fixed_code-signature f n = refl

-- The signature of a packed value is the signature of its type.
pub body_signature-encode :
    (t : Ty) (p : Packable t) (v : Value t) → body_signature (encode t p v) ≡ type_string t
unfolding body_signature encode type_string
body_signature-encode bool p v = refl
body_signature-encode (fixed f) p v = refl
body_signature-encode (text string) p v = refl
body_signature-encode (text object_path) p v = refl
body_signature-encode (text signature) p v = absurd p
body_signature-encode dbus_variant p v = refl
body_signature-encode (vector t) p v = append-nil _
body_signature-encode (flat_map t) p v = append-nil _
body_signature-encode (pair k v) p (a, b) =
    pair-signature (encode k p.0 a) (encode v p.1 b) (type_string k) (type_string v)
      (body_signature-encode k p.0 a) (body_signature-encode v p.1 b)
body_signature-encode (pointer t) p v = body_signature-encode t p v
