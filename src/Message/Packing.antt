-- ===== src/Message/Packing.antt =====
-- What `message::packer` writes.
use boost_dbus.Common.{
  ℕ, ◌≡◌, sym, ap, ap₂, ◌∙◌, Bool, true, List, [], ◌∷◌, ◌++◌, Bytes, Option, none, some, arith,
  get_or, drop, c_str, c_str-nul,
}
use boost_dbus.Element.{
  string, object_path, signature, Ty, bool, fixed, text, dbus_variant, vector, flat_map, pair,
  pointer, Variant, of_string, of_bool, of_number, Value, type_dict_entry, type_array, type_variant,
  type_string, element_signature, element_signature-type_string, c_str-element_signature,
  type_string-HasNoNul,
}
use boost_dbus.Wire.{Body, end, group, ◌⊕◌, ⊕-end, ⊕_assoc, Writer, WriterLaws, NeverFails}
use boost_dbus.Message.Packer.{
  Packable, AllPackable, Values, variant_type, variant_signature, contained_signature, and_then,
  pack_text, pack_alternative, pack_variant, pack_each, pack_within, pack_pair, pack, pack_args,
}
use boost_dbus.Message.Encoding.{
  encode, encode_text, encode_alternative, encode_each, encode_pair, encode_args,
}

-- The first code of a container's signature, and the rest, are what the specification says.
pub vector-code : (t : Ty) → get_or (element_signature (vector t)) 0 0 ≡ type_array
unfolding type_string
vector-code t = ap (λ s. get_or s 0 0) (element_signature-type_string (vector t))

pub flat_map-code : (t : Ty) → get_or (element_signature (flat_map t)) 0 0 ≡ type_array
unfolding type_string
flat_map-code t = ap (λ s. get_or s 0 0) (element_signature-type_string (flat_map t))

vector-contained : (t : Ty) → contained_signature (vector t) ≡ type_string t
unfolding type_string
vector-contained t =
    ap (λ s. c_str (drop 1 s)) (element_signature-type_string (vector t))
    ∙ c_str-nul (type_string t) [] (type_string-HasNoNul t)

flat_map-contained :
    (t : Ty) → contained_signature (flat_map t) ≡ b'{' ∷ b's' ∷ (type_string t ++ b'}' ∷ [])
unfolding type_string
flat_map-contained t =
    ap (λ s. c_str (drop 1 s)) (element_signature-type_string (flat_map t))
    ∙ c_str-nul (b'{' ∷ b's' ∷ (type_string t ++ b'}' ∷ [])) []
        (type_string-HasNoNul (flat_map t)).1

module _ {w : Writer} (laws : WriterLaws w) where
  open w use {Iter}
  open laws use {body, appended, opened, closed}

  -- A packing function that, where it succeeds, appends `b`.
  abbrev pub Appends : (Iter → Bool × Iter) → Body → Type 0
  Appends f b = (it : Iter) → (f it).0 ≡ true → body (f it).1 ≡ body it ⊕ b

  and_then-Appends :
      (f g : Iter → Bool × Iter) (a b : Body)
      → Appends f a
      → Appends g b
      → Appends (λ it. and_then w (f it) g) (a ⊕ b)
  and_then-Appends f g a b ha hb it h = ground (arith, ha it, hb (f it).1, ⊕_assoc (body it) a b)

  pack_each-Appends :
      {A : Type 0} (f : A → Iter → Bool × Iter) (e : A → Body)
      → ((a : A) → Appends (f a) (e a))
      → (xs : List A) → Appends (pack_each w f xs) (encode_each e xs)
  unfolding pack_each
  pack_each-Appends f e h [] it ok = sym (⊕-end (body it))
  pack_each-Appends f e h (x ∷ xs) it ok =
      and_then-Appends (f x) (pack_each w f xs) (e x) (encode_each e xs) (h x)
        (pack_each-Appends f e h xs) it ok

  pack_within-Appends :
      (c : ℕ) (s : Option Bytes) (fill : Iter → Bool × Iter) (b : Body)
      → Appends fill b
      → Appends (pack_within w c s fill) (group c s b end)
  unfolding pack_within
  pack_within-Appends c s fill b h it ok =
      let sub = (w.open_container it c s).2 in
      ground (arith, opened it c s, h sub, closed it c s (fill sub).1)

  pack_pair-Appends :
      {A B : Type 0} (f : A → Iter → Bool × Iter) (g : B → Iter → Bool × Iter)
      → (d : A → Body) (e : B → Body) → ((a : A) → Appends (f a) (d a))
      → ((b : B) → Appends (g b) (e b))
      → (x : A × B) → Appends (pack_pair w f g x) (encode_pair d e x)
  unfolding pack_pair
  pack_pair-Appends f g d e hf hg (a, b) =
      pack_within-Appends type_dict_entry none (λ it. and_then w (f a it) (g b)) (d a ⊕ e b)
        (and_then-Appends (f a) (g b) (d a) (e b) (hf a) (hg b))

  pack_alternative-Appends : (v : Variant) → Appends (pack_alternative w v) (encode_alternative v)
  unfolding pack_alternative
  pack_alternative-Appends (of_string s) it ok = appended it _ _ ok
  pack_alternative-Appends (of_bool b) it ok = appended it _ _ ok
  pack_alternative-Appends (of_number f n) it ok = appended it _ _ ok

  -- For a value that holds a variant the results of three calls are dropped, so there what is
  -- written is known only where no call fails.
  abbrev pub Safe : Ty → Type 0
  Safe dbus_variant = NeverFails w
  Safe (vector t) = Safe t
  Safe (flat_map t) = Safe t
  Safe (pair k v) = Safe k × Safe v
  Safe (pointer t) = Safe t
  Safe _ = Unit {0}

  pack_alternative-true :
      NeverFails w → (v : Variant) (it : Iter) → (pack_alternative w v it).0 ≡ true
  unfolding pack_alternative
  pack_alternative-true nf (of_string s) it = nf.appends it _ _
  pack_alternative-true nf (of_bool b) it = nf.appends it _ _
  pack_alternative-true nf (of_number f n) it = nf.appends it _ _

  variant_signature-type_string : (v : Variant) → variant_signature v ≡ type_string (variant_type v)
  variant_signature-type_string v = c_str-element_signature (variant_type v)

  pack_variant-Appends :
      NeverFails w
      → (v : Variant)
      → Appends
          (pack_variant w v)
          (group type_variant (some (type_string (variant_type v))) (encode_alternative v) end)
  unfolding pack_variant
  pack_variant-Appends nf v it ok =
      let s = some (variant_signature v) in
      let sub = (w.open_container it type_variant s).2 in
      ground (
        arith,
        variant_signature-type_string v,
        nf.opens it type_variant s,
        opened it type_variant s,
        pack_alternative-true nf v sub,
        pack_alternative-Appends v sub,
        nf.closes (w.open_container it type_variant s).1 (pack_alternative w v sub).1,
        closed it type_variant s (pack_alternative w v sub).1,
      )

  -- The body that a container is packed to, under the code and signature that the packer computes.
  pack_container-Appends :
      {c d : ℕ} {r s : Bytes} (fill : Iter → Bool × Iter) (b : Body)
      → c ≡ d
      → r ≡ s
      → Appends fill b
      → Appends (pack_within w c (some r) fill) (group d (some s) b end)
  pack_container-Appends {c} {r} fill b e k h it ok =
      pack_within-Appends c (some r) fill b h it ok
      ∙ ap₂ (λ x y. body it ⊕ group x (some y) b end) e k

  pub pack-Appends :
      (t : Ty) (p : Packable t) → Safe t → (v : Value t) → Appends (pack w t p v) (encode t p v)
  unfolding pack encode
  pack-Appends bool p safe v it ok = appended it _ _ ok
  pack-Appends (fixed f) p safe v it ok = appended it _ _ ok
  pack-Appends (text string) p safe v it ok = appended it _ _ ok
  pack-Appends (text object_path) p safe v it ok = appended it _ _ ok
  pack-Appends (text signature) p safe v it ok = absurd p
  pack-Appends dbus_variant p safe v it ok = pack_variant-Appends safe v it ok
  pack-Appends (vector t) p safe v it ok =
      pack_container-Appends (pack_each w (pack w t p) v) (encode_each (encode t p) v)
        (vector-code t) (vector-contained t)
        (pack_each-Appends (pack w t p) (encode t p) (pack-Appends t p safe) v) it ok
  pack-Appends (flat_map t) p safe m it ok =
      pack_container-Appends (pack_each w (pack_pair w (pack_text w string) (pack w t p)) m)
        (encode_each (encode_pair (encode_text string) (encode t p)) m) (flat_map-code t)
        (flat_map-contained t)
        (pack_each-Appends _ _
          (pack_pair-Appends (pack_text w string) (pack w t p) (encode_text string) (encode t p)
            (λ s it' ok'. appended it' _ _ ok') (pack-Appends t p safe))
          m)
        it ok
  pack-Appends (pair k u) p safe e it ok =
      pack_pair-Appends (pack w k p.0) (pack w u p.1) (encode k p.0) (encode u p.1)
        (pack-Appends k p.0 safe.0) (pack-Appends u p.1 safe.1) e it ok
  pack-Appends (pointer t) p safe v it ok = pack-Appends t p safe v it ok

  abbrev pub AllSafe : List Ty → Type 0
  AllSafe [] = Unit {0}
  AllSafe (t ∷ ts) = Safe t × AllSafe ts

  pub pack_args-Appends :
      (ts : List Ty) (ps : AllPackable ts)
      → AllSafe ts
      → (vs : Values ts) → Appends (pack_args w ts ps vs) (encode_args ts ps vs)
  unfolding pack_args encode_args
  pack_args-Appends [] ps safe vs it ok = sym (⊕-end (body it))
  pack_args-Appends (t ∷ ts) ps safe vs it ok =
      and_then-Appends (pack w t ps.0 vs.0) (pack_args w ts ps.1 vs.1) (encode t ps.0 vs.0)
        (encode_args ts ps.1 vs.1) (pack-Appends t ps.0 safe.0 vs.0)
        (pack_args-Appends ts ps.1 safe.1 vs.1) it ok
