-- ===== src/Message/Packer.antt =====
-- include/dbus/message.hpp, `message::packer`: one `pack` for each kind of C++ type. A section
-- over the appending iterators of libdbus.
use boost_dbus.Common.{
  ℕ, Bool, true, false, List, [], ◌∷◌, Bytes, Option, none, some, if◌then◌else◌, drop, get_or,
  c_str,
}
use boost_dbus.Element.{
  Fixed, Text, string, object_path, signature, Ty, bool, fixed, text, dbus_variant, vector,
  flat_map, pair, pointer, Variant, of_string, of_bool, of_number, Value, element_code,
  element_signature, type_dict_entry,
}
use boost_dbus.Wire.{word, chars, Writer}

-- The types that `pack` can be instantiated at: for `signature` there is no overload.
abbrev pub Packable : Ty → Type 0
Packable (text signature) = ⊥
Packable (vector t) = Packable t
Packable (flat_map t) = Packable t
Packable (pair k v) = Packable k × Packable v
Packable (pointer t) = Packable t
Packable _ = Unit {0}

abbrev pub bool_word : Bool → ℕ
bool_word true = 1
bool_word false = 0

-- `&signature[1]` and `&sig[0]` as C strings.
abbrev pub contained_signature : Ty → Bytes
contained_signature t = c_str (drop 1 (element_signature t))

abbrev pub variant_type : Variant → Ty
variant_type (of_string s) = text string
variant_type (of_bool b) = bool
variant_type (of_number f n) = fixed f

abbrev pub variant_signature : Variant → Bytes
variant_signature v = c_str (element_signature (variant_type v))

abbrev pub AllPackable : List Ty → Type 0
AllPackable [] = Unit {0}
AllPackable (t ∷ ts) = Packable t × AllPackable ts

abbrev pub Values : List Ty → Type 0
Values [] = Unit {0}
Values (t ∷ ts) = Value t × Values ts

module _ (w : Writer) where
  open w use {Iter, append_basic, open_container, close_container}

  -- `if (x == false) return false; else return k`
  abbrev pub and_then : Bool × Iter → (Iter → Bool × Iter) → Bool × Iter
  and_then (true, it) k = k it
  and_then (false, it) k = (false, it)

  unfoldable pub pack_bool : Bool → Iter → Bool × Iter
  unfolding element_code
  pack_bool c it = append_basic it (element_code bool) (word (bool_word c))

  unfoldable pub pack_fixed : Fixed → ℕ → Iter → Bool × Iter
  unfolding element_code
  pack_fixed f e it = append_basic it (element_code (fixed f)) (word e)

  -- `pack(const char*)`, `pack(const string&)` and `pack(const object_path&)`.
  unfoldable pub pack_text : Text → Bytes → Iter → Bool × Iter
  unfolding element_code
  pack_text x e it = append_basic it (element_code (text x)) (chars (c_str e))

  unfoldable pub pack_alternative : Variant → Iter → Bool × Iter
  unfolding pack_bool pack_fixed pack_text
  pack_alternative (of_string s) it = pack_text string s it
  pack_alternative (of_bool b) it = pack_bool b it
  pack_alternative (of_number f n) it = pack_fixed f n it

  -- The three results are dropped.
  unfoldable pub pack_variant : Variant → Iter → Bool × Iter
  unfolding pack_alternative element_code
  pack_variant v it =
      let (_, outer, sub) =
        open_container it (element_code dbus_variant) (some (variant_signature v)) in
      let (_, sub') = pack_alternative v sub in
      let (_, it') = close_container outer sub' in (true, it')

  -- The loop over a container's elements.
  unfoldable pub pack_each {ℓ} :
      {A : Type ℓ} → (A → Iter → Bool × Iter) → List A → Iter → Bool × Iter
  pack_each f [] sub = (true, sub)
  pack_each f (x ∷ xs) sub = and_then (f x sub) (pack_each f xs)

  -- Opens a container, packs into it, and closes it; a container that fails stays open.
  unfoldable pub pack_within : ℕ → Option Bytes → (Iter → Bool × Iter) → Iter → Bool × Iter
  pack_within c s fill it =
      let (ok, outer, sub) = open_container it c s in
      if ok
      then (let (filled, sub') = fill sub in
          if filled then close_container outer sub' else (false, outer))
      else (false, outer)

  unfoldable pub pack_pair {ℓ κ} :
      {A : Type ℓ} {B : Type κ}
      → (A → Iter → Bool × Iter)
      → (B → Iter → Bool × Iter)
      → A × B
      → Iter
      → Bool × Iter
  unfolding pack_within
  pack_pair f g (a, b) = pack_within type_dict_entry none (λ it. and_then (f a it) (g b))

  unfoldable pub pack : (t : Ty) → Packable t → Value t → Iter → Bool × Iter
  unfolding pack_bool pack_fixed pack_text pack_variant pack_each pack_within pack_pair
  pack bool p c it = pack_bool c it
  pack (fixed f) p e it = pack_fixed f e it
  pack (text string) p e it = pack_text string e it
  pack (text object_path) p e it = pack_text object_path e it
  pack (text signature) p e it = absurd p
  pack dbus_variant p v it = pack_variant v it
  pack (vector t) p c it =
      pack_within (get_or (element_signature (vector t)) 0 0)
        (some (contained_signature (vector t))) (pack_each (pack t p) c) it
  pack (flat_map t) p c it =
      pack_within (get_or (element_signature (flat_map t)) 0 0)
        (some (contained_signature (flat_map t)))
        (pack_each (pack_pair (pack_text string) (pack t p)) c) it
  pack (pair k v) p e it = pack_pair (pack k (p.0)) (pack v (p.1)) e it
  pack (pointer t) p e it = pack t p e it

  -- The arguments of a call, packed from the left up to the first that fails.
  unfoldable pub pack_args : (ts : List Ty) → AllPackable ts → Values ts → Iter → Bool × Iter
  unfolding pack
  pack_args [] ps vs it = (true, it)
  pack_args (t ∷ ts) ps vs it = and_then (pack t ps.0 vs.0 it) (pack_args ts ps.1 vs.1)
