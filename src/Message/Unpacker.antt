-- ===== src/Message/Unpacker.antt =====
-- include/dbus/message.hpp, `message::unpacker`: one `unpack` for each kind of C++ type. Each
-- takes the object to fill and gives it back as it is left, also where it answers false.
--
-- The loops over a container run until the sub-iterator is at its end; they take fuel, and `none`
-- says that it ran out.
use boost_dbus.Common.{
  ℕ, zero, suc, Bool, true, false, not, List, [], ◌∷◌, ◌++◌, Bytes, Option, none, some,
  if◌then◌else◌, get_or, ◌==◌, c_str,
}
use boost_dbus.Common.FlatMap.{FlatMap, emplace}
use boost_dbus.Element.{
  Fixed, byte, int16, uint16, int32, uint32, int64, uint64, double, Text, string, Ty, bool, fixed,
  text, dbus_variant, vector, flat_map, pair, pointer, Variant, of_string, of_bool, of_number,
  Value, default, element_code, element_signature, type_dict_entry, type_invalid,
}
use boost_dbus.Wire.{Datum, word, chars, Reader}
use boost_dbus.Message.Packer.{Values}

-- The types that `unpack` can be instantiated at: there is no overload for pointers.
abbrev pub Unpackable : Ty → Type 0
Unpackable (vector t) = Unpackable t
Unpackable (flat_map t) = Unpackable t
Unpackable (pair k v) = Unpackable k × Unpackable v
Unpackable (pointer t) = ⊥
Unpackable _ = Unit {0}

-- The memory that `get_basic` filled, read as a number or as a C string.
abbrev pub as_word : Datum → ℕ
as_word (word n) = n
as_word (chars s) = 0

abbrev pub as_chars : Datum → Bytes
as_chars (word n) = []
as_chars (chars s) = c_str s

-- `int c; get_basic(&c); s = c`
abbrev pub as_bool : Datum → Bool
as_bool d = not (as_word d == 0)

-- The alternatives of `dbus_variant`, in their order.
pub data Alternative : Type 0 where
  alt_string alt_bool : Alternative
  alt_number : Fixed → Alternative

abbrev pub variant_types : List Alternative
variant_types =
    alt_string
    ∷ alt_bool
    ∷ alt_number byte
    ∷ alt_number int16
    ∷ alt_number uint16
    ∷ alt_number int32
    ∷ alt_number uint32
    ∷ alt_number int64
    ∷ alt_number uint64
    ∷ alt_number double
    ∷ []

abbrev pub alternative_type : Alternative → Ty
alternative_type alt_string = text string
alternative_type alt_bool = bool
alternative_type (alt_number f) = fixed f

abbrev pub to_variant : (a : Alternative) → Value (alternative_type a) → Variant
to_variant alt_string s = of_string s
to_variant alt_bool b = of_bool b
to_variant (alt_number f) n = of_number f n

abbrev pub AllUnpackable : List Ty → Type 0
AllUnpackable [] = Unit {0}
AllUnpackable (t ∷ ts) = Unpackable t × AllUnpackable ts

abbrev pub push_back : {A : Type 0} → List A → A → List A
push_back c x = c ++ x ∷ []

abbrev pub emplace_entry : {V : Type 0} → FlatMap V → Bytes × V → FlatMap V
emplace_entry m e = emplace e.0 e.1 m

abbrev pub unchanged : {V : Type 0} → FlatMap V → Bytes × V → FlatMap V
unchanged m e = m

module _ (r : Reader) where
  open r use {Iter, get_arg_type, get_basic, next, recurse}

  -- The answer, the object, and the iterator.
  abbrev pub Unpacked : Type 0 → Type 0
  Unpacked A = Bool × A × Iter

  -- `if (iter_.get_arg_type() != code) return false; get_basic; next; return true`
  unfoldable pub unpack_basic : {A : Type 0} → ℕ → (Datum → A) → A → Iter → Unpacked A
  unpack_basic code read e it =
      if get_arg_type it == code then (true, read (get_basic it), (next it).1) else (false, e, it)

  unfoldable pub unpack_bool : Bool → Iter → Unpacked Bool
  unfolding unpack_basic element_code
  unpack_bool = unpack_basic (element_code bool) as_bool

  unfoldable pub unpack_fixed : Fixed → ℕ → Iter → Unpacked ℕ
  unfolding unpack_basic element_code
  unpack_fixed f = unpack_basic (element_code (fixed f)) as_word

  unfoldable pub unpack_text : Text → Bytes → Iter → Unpacked Bytes
  unfolding unpack_basic element_code
  unpack_text x = unpack_basic (element_code (text x)) as_chars

  unfoldable pub unpack_alternative :
      (a : Alternative) → Value (alternative_type a) → Iter → Unpacked (Value (alternative_type a))
  unfolding unpack_bool unpack_fixed unpack_text
  unpack_alternative alt_string = unpack_text string
  unpack_alternative alt_bool = unpack_bool
  unpack_alternative (alt_number f) = unpack_fixed f

  -- The body of `boost::mpl::for_each<dbus_variant::types>`: the sub-iterator and the variant.
  unfoldable pub try_alternative : ℕ → Alternative → Iter × Variant → Iter × Variant
  unfolding unpack_alternative element_code
  try_alternative arg_type a (sub, v) =
      let (_, val, sub') = unpack_alternative a (default (alternative_type a)) sub in
      if arg_type == element_code (alternative_type a) then (sub', to_variant a val) else (sub, v)

  unfoldable pub for_each_type : ℕ → List Alternative → Iter × Variant → Iter × Variant
  unfolding try_alternative
  for_each_type arg_type [] s = s
  for_each_type arg_type (a ∷ as') s = for_each_type arg_type as' (try_alternative arg_type a s)

  unfoldable pub unpack_variant : Variant → Iter → Unpacked Variant
  unfolding for_each_type element_code
  unpack_variant v it =
      let sub = recurse it in
      let (_, v') = for_each_type (get_arg_type sub) variant_types (sub, v) in
      if get_arg_type it == element_code dbus_variant
      then (true, v', (next it).1)
      else (false, v, it)

  unfoldable pub unpack_pair :
      {A B : Type 0}
      → (A → Iter → Option (Unpacked A))
      → (B → Iter → Option (Unpacked B))
      → A × B
      → Iter
      → Option (Unpacked (A × B))
  unpack_pair f g (a, b) it =
      if get_arg_type it == type_dict_entry
      then elim (f a (recurse it)) [
        | none ↦ none
        | some (false, a', sub) ↦ some (false, (a', b), it)
        | some (true, a', sub) ↦ elim (g b sub) [
          | none ↦ none
          | some (false, b', sub') ↦ some (false, (a', b'), it)
          | some (true, b', sub') ↦ some (true, (a', b'), (next it).1)
        ]
      ]
      else some (false, (a, b), it)

  -- `while (sub.get_arg_type() != DBUS_TYPE_INVALID)`: one element is unpacked into a fresh
  -- object and put into the container. `partial` is what a failed element leaves there:
  -- `emplace_back` comes before the unpacking, `emplace` after.
  unfoldable pub unpack_each :
      {A C : Type 0}
      → (A → Iter → Option (Unpacked A))
      → A
      → (C → A → C)
      → (C → A → C)
      → ℕ
      → C
      → Iter
      → Option (Unpacked C)
  unpack_each f fresh put partial zero c sub = none
  unpack_each f fresh put partial (suc fuel) c sub =
      if get_arg_type sub == type_invalid then some (true, c, sub) else elim (f fresh sub) [
        | none ↦ none
        | some (false, x, sub') ↦ some (false, partial c x, sub')
        | some (true, x, sub') ↦ unpack_each f fresh put partial fuel (put c x) sub'
      ]

  -- The type check, the loop over the contents, and `next`.
  unfoldable pub unpack_container :
      {C : Type 0} → ℕ → (C → Iter → Option (Unpacked C)) → C → Iter → Option (Unpacked C)
  unpack_container code each c it =
      if get_arg_type it == code
      then elim (each c (recurse it)) [
        | none ↦ none
        | some (false, c', sub) ↦ some (false, c', it)
        | some (true, c', sub) ↦ some (true, c', (next it).1)
      ]
      else some (false, c, it)

  unfoldable pub unpack :
      (fuel : ℕ) (t : Ty) → Unpackable t → Value t → Iter → Option (Unpacked (Value t))
  unfolding unpack_bool unpack_fixed unpack_text unpack_variant unpack_pair unpack_each
      unpack_container
  unpack fuel bool p e it = some (unpack_bool e it)
  unpack fuel (fixed f) p e it = some (unpack_fixed f e it)
  unpack fuel (text x) p e it = some (unpack_text x e it)
  unpack fuel dbus_variant p e it = some (unpack_variant e it)
  unpack fuel (vector t) p c it =
      unpack_container (get_or (element_signature (vector t)) 0 0)
        (unpack_each (unpack fuel t p) (default t) push_back push_back fuel) c it
  unpack fuel (flat_map t) p m it =
      unpack_container (get_or (element_signature (flat_map t)) 0 0)
        (unpack_each (unpack_pair (λ k it'. some (unpack_text string k it')) (unpack fuel t p))
          (default (pair (text string) t)) emplace_entry unchanged fuel)
        m it
  unpack fuel (pair k v) p e it = unpack_pair (unpack fuel k p.0) (unpack fuel v p.1) e it
  unpack fuel (pointer t) p e it = absurd p

  -- The arguments of a call, from the left up to the first that does not fit.
  unfoldable pub unpack_args :
      (fuel : ℕ) (ts : List Ty)
      → AllUnpackable ts
      → Values ts
      → Iter
      → Option (Unpacked (Values ts))
  unfolding unpack
  unpack_args fuel [] ps vs it = some (true, vs, it)
  unpack_args fuel (t ∷ ts) ps (v, vs) it = elim (unpack fuel t ps.0 v it) [
    | none ↦ none
    | some (false, v', it') ↦ some (false, (v', vs), it')
    | some (true, v', it') ↦ elim (unpack_args fuel ts ps.1 vs it') [
      | none ↦ none
      | some (ok, vs', it'') ↦ some (ok, (v', vs'), it'')
    ]
  ]
