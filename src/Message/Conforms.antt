-- ===== src/Message/Conforms.antt =====
-- What libdbus requires of the arguments of a message: every element of an array has the
-- signature that the array was opened with, and a variant holds one value of its signature.
use boost_dbus.Common.{ℕ, ◌≡◌, refl, List, [], ◌∷◌, ◌++◌, Bytes, Option, ◌==◌, if◌then◌else◌}
use boost_dbus.Element.{
  string, object_path, signature, Ty, bool, fixed, text, dbus_variant, vector, flat_map, pair,
  pointer, Variant, of_string, of_bool, of_number, Value, type_array, type_variant, type_string,
}
use boost_dbus.Wire.{Body, end, value, group, ◌⊕◌, body_signature, opening}
use boost_dbus.Message.Packer.{Packable, variant_type}
use boost_dbus.Message.Encoding.{
  encode, encode_text, encode_alternative, encode_each, encode_pair, body_signature-encode,
  pair-signature,
}

-- Each argument by itself has the signature `s`.
abbrev pub EachHas : Bytes → Body → Type 0
EachHas s end = Unit {0}
EachHas s (value c d r) = (c ∷ [] ≡ s) × EachHas s r
EachHas s (group c o i r) = (body_signature (group c o i end) ≡ s) × EachHas s r

abbrev pub GroupConforms : ℕ → Option Bytes → Body → Type 0
GroupConforms c o i =
    if c == type_array
    then EachHas (opening o) i
    else if c == type_variant
    then body_signature i ≡ opening o
    else Unit {0}

abbrev pub Conforms : Body → Type 0
Conforms end = Unit {0}
Conforms (value c d r) = Conforms r
Conforms (group c o i r) = GroupConforms c o i × Conforms i × Conforms r

EachHas-⊕ : (s : Bytes) (a b : Body) → EachHas s a → EachHas s b → EachHas s (a ⊕ b)
EachHas-⊕ s end b h k = k
EachHas-⊕ s (value c d r) b h k = (h.0, EachHas-⊕ s r b h.1 k)
EachHas-⊕ s (group c o i r) b h k = (h.0, EachHas-⊕ s r b h.1 k)

pub Conforms-⊕ : (a b : Body) → Conforms a → Conforms b → Conforms (a ⊕ b)
Conforms-⊕ end b h k = k
Conforms-⊕ (value c d r) b h k = Conforms-⊕ r b h k
Conforms-⊕ (group c o i r) b h k = (h.0, h.1, Conforms-⊕ r b h.2 k)

-- One argument at a time: a value is packed to exactly one.
abbrev IsOne : Body → Type 0
IsOne end = ⊥
IsOne (value c d r) = r ≡ end
IsOne (group c o i r) = r ≡ end

encode-IsOne : (t : Ty) (p : Packable t) (v : Value t) → IsOne (encode t p v)
unfolding encode
encode-IsOne bool p v = refl
encode-IsOne (fixed f) p v = refl
encode-IsOne (text string) p v = refl
encode-IsOne (text object_path) p v = refl
encode-IsOne (text signature) p v = absurd p
encode-IsOne dbus_variant p v = refl
encode-IsOne (vector t) p v = refl
encode-IsOne (flat_map t) p v = refl
encode-IsOne (pair k u) p (a, b) = refl
encode-IsOne (pointer t) p v = encode-IsOne t p v

IsOne-EachHas : (a : Body) → IsOne a → EachHas (body_signature a) a
unfolding body_signature
IsOne-EachHas end h = tt
IsOne-EachHas (value c d r) h = rw h (refl, tt)
IsOne-EachHas (group c o i r) h = rw h (refl, tt)

encode-EachHas : (t : Ty) (p : Packable t) (v : Value t) → EachHas (type_string t) (encode t p v)
encode-EachHas t p v =
    rw (body_signature-encode t p v) at (IsOne-EachHas (encode t p v) (encode-IsOne t p v))

module _ {A : Type 0} (f : A → Body) where
  encode_each-EachHas :
      (s : Bytes) → ((a : A) → EachHas s (f a)) → (xs : List A) → EachHas s (encode_each f xs)
  encode_each-EachHas s h [] = tt
  encode_each-EachHas s h (x ∷ xs) =
      EachHas-⊕ s (f x) (encode_each f xs) (h x) (encode_each-EachHas s h xs)

  encode_each-Conforms : ((a : A) → Conforms (f a)) → (xs : List A) → Conforms (encode_each f xs)
  encode_each-Conforms h [] = tt
  encode_each-Conforms h (x ∷ xs) =
      Conforms-⊕ (f x) (encode_each f xs) (h x) (encode_each-Conforms h xs)

encode_alternative-signature :
    (v : Variant) → body_signature (encode_alternative v) ≡ type_string (variant_type v)
unfolding body_signature type_string
encode_alternative-signature (of_string s) = refl
encode_alternative-signature (of_bool b) = refl
encode_alternative-signature (of_number f n) = refl

encode_alternative-Conforms : (v : Variant) → Conforms (encode_alternative v)
encode_alternative-Conforms (of_string s) = tt
encode_alternative-Conforms (of_bool b) = tt
encode_alternative-Conforms (of_number f n) = tt

abbrev entry : (t : Ty) → Packable t → Bytes × Value t → Body
entry t p = encode_pair (encode_text string) (encode t p)

-- A packed value, of any type, conforms: the signatures that the packer hands to
-- `open_container` are those of the elements that follow.
pub encode-Conforms : (t : Ty) (p : Packable t) (v : Value t) → Conforms (encode t p v)
unfolding encode body_signature
encode-Conforms bool p v = tt
encode-Conforms (fixed f) p v = tt
encode-Conforms (text string) p v = tt
encode-Conforms (text object_path) p v = tt
encode-Conforms (text signature) p v = tt
encode-Conforms dbus_variant p v =
    (encode_alternative-signature v, encode_alternative-Conforms v, tt)
encode-Conforms (vector t) p xs = (
  encode_each-EachHas (encode t p) (type_string t) (encode-EachHas t p) xs,
  encode_each-Conforms (encode t p) (encode-Conforms t p) xs,
  tt,
)
encode-Conforms (flat_map t) p m = (
  encode_each-EachHas (entry t p) (b'{' ∷ b's' ∷ (type_string t ++ b'}' ∷ []))
      (λ e. (
        pair-signature (encode_text string e.0) (encode t p e.1) (b's' ∷ []) (type_string t) refl
            (body_signature-encode t p e.1),
        tt,
      ))
      m,
  encode_each-Conforms (entry t p) (λ e. (tt, encode-Conforms t p e.1, tt)) m,
  tt,
)
encode-Conforms (pair k v) p (a, b) = (
  tt,
  Conforms-⊕ (encode k p.0 a) (encode v p.1 b) (encode-Conforms k p.0 a) (encode-Conforms v p.1 b),
  tt,
)
encode-Conforms (pointer t) p v = encode-Conforms t p v
