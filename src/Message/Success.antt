-- ===== src/Message/Success.antt =====
-- include/dbus/message.hpp: packing with memory enough.
use boost_dbus.Common.{ℕ, ◌≡◌, refl, Bool, true, List, [], ◌∷◌, Bytes, Option, none, arith}
use boost_dbus.Element.{
  string, object_path, signature, Ty, bool, fixed, text, dbus_variant, vector, flat_map, pair,
  pointer, Value, type_dict_entry,
}
use boost_dbus.Wire.{Writer, NeverFails}
use boost_dbus.Message.Packer.{
  Packable, AllPackable, Values, and_then, pack_text, pack_each, pack_within, pack_pair, pack,
  pack_args,
}

module _ {w : Writer} (nf : NeverFails w) where
  open w use {Iter}
  open nf use {appends, opens, closes}

  abbrev Succeeds : (Iter → Bool × Iter) → Type 0
  Succeeds f = (it : Iter) → (f it).0 ≡ true

  and_then-Succeeds :
      (f g : Iter → Bool × Iter) → Succeeds f → Succeeds g → Succeeds (λ it. and_then w (f it) g)
  and_then-Succeeds f g hf hg it = ground (arith, hf it, hg (f it).1)

  pack_each-Succeeds :
      {A : Type 0} (f : A → Iter → Bool × Iter)
      → ((a : A) → Succeeds (f a))
      → (xs : List A) → Succeeds (pack_each w f xs)
  unfolding pack_each
  pack_each-Succeeds f h [] it = refl
  pack_each-Succeeds f h (x ∷ xs) it =
      and_then-Succeeds (f x) (pack_each w f xs) (h x) (pack_each-Succeeds f h xs) it

  pack_within-Succeeds :
      (c : ℕ) (s : Option Bytes) (fill : Iter → Bool × Iter)
      → Succeeds fill
      → Succeeds (pack_within w c s fill)
  unfolding pack_within
  pack_within-Succeeds c s fill h it =
      let sub = (w.open_container it c s).2 in
      ground (arith, opens it c s, h sub, closes (w.open_container it c s).1 (fill sub).1)

  pack_pair-Succeeds :
      {A B : Type 0} (f : A → Iter → Bool × Iter) (g : B → Iter → Bool × Iter)
      → ((a : A) → Succeeds (f a))
      → ((b : B) → Succeeds (g b))
      → (x : A × B) → Succeeds (pack_pair w f g x)
  unfolding pack_pair
  pack_pair-Succeeds f g hf hg (a, b) =
      pack_within-Succeeds type_dict_entry none (λ it. and_then w (f a it) (g b))
        (and_then-Succeeds (f a) (g b) (hf a) (hg b))

  pub pack-true : (t : Ty) (p : Packable t) (v : Value t) → Succeeds (pack w t p v)
  unfolding pack
  pack-true bool p v it = appends it _ _
  pack-true (fixed f) p v it = appends it _ _
  pack-true (text string) p v it = appends it _ _
  pack-true (text object_path) p v it = appends it _ _
  pack-true (text signature) p v it = absurd p
  pack-true dbus_variant p v it = refl
  pack-true (vector t) p v it =
      pack_within-Succeeds _ _ (pack_each w (pack w t p) v)
        (pack_each-Succeeds (pack w t p) (pack-true t p) v) it
  pack-true (flat_map t) p m it =
      pack_within-Succeeds _ _ (pack_each w (pack_pair w (pack_text w string) (pack w t p)) m)
        (pack_each-Succeeds _
          (pack_pair-Succeeds (pack_text w string) (pack w t p) (λ s it'. appends it' _ _)
            (pack-true t p))
          m)
        it
  pack-true (pair k u) p e it =
      pack_pair-Succeeds (pack w k p.0) (pack w u p.1) (pack-true k p.0) (pack-true u p.1) e it
  pack-true (pointer t) p v it = pack-true t p v it

  pub pack_args-true :
      (ts : List Ty) (ps : AllPackable ts) (vs : Values ts) → Succeeds (pack_args w ts ps vs)
  unfolding pack_args
  pack_args-true [] ps vs it = refl
  pack_args-true (t ∷ ts) ps vs it =
      and_then-Succeeds (pack w t ps.0 vs.0) (pack_args w ts ps.1 vs.1) (pack-true t ps.0 vs.0)
        (pack_args-true ts ps.1 vs.1) it
