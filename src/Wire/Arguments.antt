-- ===== src/Wire/Arguments.antt =====
-- The arguments of a message, as the documentation of libdbus describes them: basic values with a
-- type code, and containers with a type code, the signature they were opened with, and contents.
use boost_dbus.Common.{
  ℕ, suc, ◌+◌, ◌≡◌, refl, ap, [], ◌∷◌, ◌++◌, Bytes, Option, none, some, if◌then◌else◌, ◌==◌,
}
use boost_dbus.Element.{type_invalid, type_array, type_dict_entry}

-- What `append_basic` copies from and `get_basic` copies to: a number, or a C string.
pub data Datum : Type 0 where
  word : ℕ → Datum
  chars : Bytes → Datum

pub data Body : Type 0 where
  end : Body
  value : (code : ℕ) → Datum → (after : Body) → Body
  group : (code : ℕ) → Option Bytes → (inner after : Body) → Body

infixr 66 ◌⊕◌
abbrev pub ◌⊕◌ : Body → Body → Body
end ⊕ b = b
value c d r ⊕ b = value c d (r ⊕ b)
group c s i r ⊕ b = group c s i (r ⊕ b)

pub ⊕-end : (a : Body) → a ⊕ end ≡ a
⊕-end end = refl
⊕-end (value c d r) = ap (value c d) (⊕-end r)
⊕-end (group c s i r) = ap (group c s i) (⊕-end r)

pub ⊕_assoc : (a b c : Body) → (a ⊕ b) ⊕ c ≡ a ⊕ (b ⊕ c)
⊕_assoc end b c = refl
⊕_assoc (value k d r) b c = ap (value k d) (⊕_assoc r b c)
⊕_assoc (group k s i r) b c = ap (group k s i) (⊕_assoc r b c)

-- The type code of the first argument, DBUS_TYPE_INVALID where there is none.
abbrev pub head_code : Body → ℕ
head_code end = type_invalid
head_code (value c d r) = c
head_code (group c s i r) = c

abbrev pub after_head : Body → Body
after_head end = end
after_head (value c d r) = r
after_head (group c s i r) = r

abbrev pub contents : Body → Body
contents end = end
contents (value c d r) = end
contents (group c s i r) = i

abbrev pub datum : Body → Datum
datum (value c d r) = d
datum _ = word 0

-- How many arguments there are, at every depth.
abbrev pub size : Body → ℕ
size end = 0
size (value c d r) = suc (size r)
size (group c s i r) = suc (size i + size r)

abbrev pub opening : Option Bytes → Bytes
opening none = []
opening (some s) = s

-- The signature of the arguments, as `dbus_message_get_signature` gives it.
unfoldable pub body_signature : Body → Bytes
body_signature end = []
body_signature (value c d r) = c ∷ body_signature r
body_signature (group c s i r) =
    (if c == type_array
      then c ∷ opening s
      else if c == type_dict_entry
      then b'{' ∷ (body_signature i ++ b'}' ∷ [])
      else c ∷ [])
    ++ body_signature r
