-- ===== src/Element/Shapes.antt =====
-- include/dbus/element.hpp: what a signature says of the type that it was made for.
use boost_dbus.Common.{
  ℕ, zero, suc, ◌+◌, ◌<◌, false, ◌↔◌, ◌≡◌, refl, sym, ap, ap₂, ◌∙◌, [], ◌∷◌, ◌++◌, Bytes,
  append_assoc, arith, c_str, Option, none, some, if◌then◌else◌, ◌==◌,
}
use mathlib.Core.Option.{some_inj}
use boost_dbus.Element.Types.{
  Ty, Fixed, Text, byte, int16, uint16, int32, uint32, int64, uint64, double, string, object_path,
  signature, bool, fixed, text, dbus_variant, vector, flat_map, pair, pointer, fixed_code,
  text_code,
}
use boost_dbus.Element.Signature.{element_signature}
use boost_dbus.Element.SignatureLaws.{
  type_string, element_signature-type_string, c_str-element_signature,
}

-- The types of one code, by their code's kind.
pub data Basic : Type 0 where
  boolean variant : Basic
  number : Fixed → Basic
  chars : Text → Basic

-- A D-Bus type: a basic one or a variant, an array, or a dictionary entry.
pub data Shape : Type 0 where
  basic : Basic → Shape
  array : Shape → Shape
  entry : Shape → Shape → Shape

-- The D-Bus type of a C++ type: a map is an array of entries with string keys, and a pointer is what it
-- points to.
abbrev pub shape : Ty → Shape
shape bool = basic boolean
shape (fixed f) = basic (number f)
shape (text x) = basic (chars x)
shape dbus_variant = basic variant
shape (vector t) = array (shape t)
shape (flat_map t) = array (entry (basic (chars string)) (shape t))
shape (pair k v) = entry (shape k) (shape v)
shape (pointer t) = shape t

basic_code : Basic → ℕ
basic_code boolean = b'b'
basic_code variant = b'v'
basic_code (number f) = fixed_code f
basic_code (chars x) = text_code x

-- The type that a code stands for, where it is one of a basic type or a variant.
basic_of : ℕ → Option Basic
basic_of c =
    if c == b'b'
    then some boolean
    else if c == b'v'
    then some variant
    else if c == b'y'
    then some (number byte)
    else if c == b'n'
    then some (number int16)
    else if c == b'q'
    then some (number uint16)
    else if c == b'i'
    then some (number int32)
    else if c == b'u'
    then some (number uint32)
    else if c == b'x'
    then some (number int64)
    else if c == b't'
    then some (number uint64)
    else if c == b'd'
    then some (number double)
    else if c == b's'
    then some (chars string)
    else if c == b'o'
    then some (chars object_path)
    else if c == b'g'
    then some (chars signature)
    else none

basic_of-basic_code : (b : Basic) → basic_of (basic_code b) ≡ some b
unfolding basic_of basic_code
basic_of-basic_code boolean = refl
basic_of-basic_code variant = refl
basic_of-basic_code (number byte) = refl
basic_of-basic_code (number int16) = refl
basic_of-basic_code (number uint16) = refl
basic_of-basic_code (number int32) = refl
basic_of-basic_code (number uint32) = refl
basic_of-basic_code (number int64) = refl
basic_of-basic_code (number uint64) = refl
basic_of-basic_code (number double) = refl
basic_of-basic_code (chars string) = refl
basic_of-basic_code (chars object_path) = refl
basic_of-basic_code (chars signature) = refl

basic_code-plain : (b : Basic) → ((basic_code b == b'a') ≡ false) × ((basic_code b == b'{') ≡ false)
unfolding basic_code
basic_code-plain boolean = (refl, refl)
basic_code-plain variant = (refl, refl)
basic_code-plain (number f) = ground arith
basic_code-plain (chars x) = ground arith

shape_string : Shape → Bytes
unfolding basic_code
shape_string (basic b) = basic_code b ∷ []
shape_string (array s) = b'a' ∷ shape_string s
shape_string (entry k v) = b'{' ∷ (shape_string k ++ (shape_string v ++ b'}' ∷ []))

type_string-shape : (t : Ty) → type_string t ≡ shape_string (shape t)
unfolding type_string shape_string basic_code
type_string-shape bool = refl
type_string-shape (fixed f) = refl
type_string-shape (text x) = refl
type_string-shape dbus_variant = refl
type_string-shape (vector t) = ap (◌∷◌ b'a') (type_string-shape t)
type_string-shape (flat_map t) =
    ap (λ s. b'a' ∷ b'{' ∷ b's' ∷ (s ++ b'}' ∷ [])) (type_string-shape t)
type_string-shape (pair k v) =
    ap₂ (λ a b. b'{' ∷ (a ++ (b ++ b'}' ∷ []))) (type_string-shape k) (type_string-shape v)
type_string-shape (pointer t) = type_string-shape t

-- Reading a signature: the first type, and what follows it.
close_entry : Shape → Bytes → Option (Shape × Bytes)
close_entry s [] = none
close_entry s (c ∷ r) = if c == b'}' then some (s, r) else none

parse_shape : ℕ → Bytes → Option (Shape × Bytes)
unfolding basic_of close_entry
parse_shape zero s = none
parse_shape (suc n) [] = none
parse_shape (suc n) (c ∷ s) =
    let inner = parse_shape n s in
    if c == b'a'
    then (elim inner [ none ↦ none | some (t, r) ↦ some (array t, r) ])
    else if c == b'{'
    then (elim inner [
      | none ↦ none
      | some (k, r) ↦ elim (parse_shape n r) [
        | none ↦ none
        | some (v, r') ↦ close_entry (entry k v) r'
      ]
    ])
    else (elim (basic_of c) [ none ↦ none | some b ↦ some (basic b, s) ])

abbrev depth : Shape → ℕ
depth (basic b) = 0
depth (array s) = suc (depth s)
depth (entry k v) = suc (depth k + depth v)

parse_shape-shape_string :
    (s : Shape) (n : ℕ) (rest : Bytes)
    → depth s < n
    → parse_shape n (shape_string s ++ rest) ≡ some (s, rest)
unfolding parse_shape shape_string close_entry
parse_shape-shape_string s zero rest h = absurd (omega arith)
parse_shape-shape_string (basic b) (suc n) rest h =
    let (not_array, not_entry) = basic_code-plain b in
    rw (not_array, not_entry, basic_of-basic_code b) refl
parse_shape-shape_string (array s) (suc n) rest h =
    rw (parse_shape-shape_string s n rest (omega arith)) refl
parse_shape-shape_string (entry k v) (suc n) rest h =
    let inner =
      parse_shape-shape_string k n ((shape_string v ++ b'}' ∷ []) ++ rest) (omega arith) in
    let outer = parse_shape-shape_string v n ((b'}' ∷ []) ++ rest) (omega arith) in
    rw
      (
        append_assoc (shape_string k) (shape_string v ++ b'}' ∷ []) rest,
        inner,
        append_assoc (shape_string v) (b'}' ∷ []) rest,
        outer,
      )
      refl

shape_string_inj : (s t : Shape) → shape_string s ≡ shape_string t → s ≡ t
shape_string_inj s t h =
    let n = suc (depth s + depth t) in
    ap (λ x. x.0)
      (some_inj.0 (
        sym (parse_shape-shape_string s n [] (omega arith))
        ∙ ap (λ l. parse_shape n (l ++ [])) h
        ∙ parse_shape-shape_string t n [] (omega arith)))

-- Two C++ types have the same signature exactly where they are the same D-Bus type: a signature
-- determines its type, up to maps for arrays of entries and pointers for what they point to.
pub element_signature-shape :
    (t u : Ty) → (element_signature t ≡ element_signature u) ↔ (shape t ≡ shape u)
element_signature-shape t u = (
  (λ h. shape_string_inj (shape t) (shape u) (
      sym (type_string-shape t)
      ∙ sym (c_str-element_signature t)
      ∙ ap c_str h
      ∙ c_str-element_signature u
      ∙ type_string-shape u)),
  (λ h.
      element_signature-type_string t
      ∙ ap (λ s. s ++ 0 ∷ []) (type_string-shape t ∙ ap shape_string h ∙ sym (type_string-shape u))
      ∙ sym (element_signature-type_string u)),
)
