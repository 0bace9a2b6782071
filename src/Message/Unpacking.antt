-- ===== src/Message/Unpacking.antt =====
-- Unpacking what was packed.
use boost_dbus.Common.{
  if◌then◌else◌, Bool, ℕ, zero, suc, ◌<◌, ◌≡◌, refl, sym, ap, ◌∙◌, true, false, List, [], ◌∷◌,
  Bytes, Option, some, map, foldl, arith, c_str_idem, ◌==◌, ==_refl,
}
use boost_dbus.Element.{
  byte, Variant, of_string, of_bool, of_number, default, fixed_code, type_dict_entry, type_variant,
  element_code,
}
use boost_dbus.Wire.{
  Datum, Body, end, value, group, ◌⊕◌, ⊕-end, head_code, after_head, size, Reader, ReaderLaws,
}
use boost_dbus.Message.Unpacker.{
  Unpacked, unpack_basic, variant_types, for_each_type, unpack_variant, unpack_pair, unpack_each,
  unpack_container, Alternative, alt_string, alt_bool, alt_number, alternative_type, to_variant,
  unpack_alternative,
}
use boost_dbus.Message.Encoding.{encode_each, encode_alternative}
use boost_dbus.Message.Received.{received_variant, size-⊕}

abbrev alternative : Variant → Alternative
alternative (of_string s) = alt_string
alternative (of_bool b) = alt_bool
alternative (of_number f n) = alt_number f

module _ {r : Reader} (laws : ReaderLaws r) where
  open r use {Iter}
  open laws use {rest, typed, got, moved, entered}

  -- Where `b` comes next, `f` reads it, gives `x`, and leaves the iterator behind it.
  abbrev pub Reads : {A : Type 0} → (Iter → Option (Unpacked r A)) → Body → A → Type 0
  Reads {A} f b x =
      (it : Iter) (after : Body)
      → rest it ≡ b ⊕ after
      → (it' : Iter) × (f it ≡ some (true, x, it')) × (rest it' ≡ after)

  -- Where `b` is all that is left, `f` reads it to the end.
  abbrev pub Exhausts : {A : Type 0} → (Iter → Option (Unpacked r A)) → Body → A → Type 0
  Exhausts {A} f b x =
      (it : Iter) → rest it ≡ b → (it' : Iter) × (f it ≡ some (true, x, it')) × (rest it' ≡ end)

  pub unpack_basic-Reads :
      {A : Type 0} (code : ℕ) (read : Datum → A) (e : A) (d : Datum)
      → Reads (λ it. some (unpack_basic r code read e it)) (value code d end) (read d)
  unfolding unpack_basic
  unpack_basic-Reads code read e d it after h = (
    (r.next it).1,
    ground (arith, typed it, got it code d after h, ==_refl code),
    moved it ∙ ap after_head h,
  )

  pub unpack_pair-Reads :
      {A B : Type 0} (f : A → Iter → Option (Unpacked r A)) (g : B → Iter → Option (Unpacked r B))
      → (a x : A) (b y : B) (s : Option Bytes) (d e : Body) → Reads (f a) d x
      → Reads (g b) e y
      → Reads (unpack_pair r f g (a, b)) (group type_dict_entry s (d ⊕ e) end) (x, y)
  unfolding unpack_pair
  unpack_pair-Reads f g a x b y s d e hf hg it after h =
      let inner = entered it type_dict_entry s (d ⊕ e) after h in
      let first = hf (r.recurse it) e inner in
      let second = hg first.0 end (first.2 ∙ sym (⊕-end e)) in
      ((r.next it).1, ground (arith, typed it, first.1, second.1), moved it ∙ ap after_head h)

  pub unpack_container-Reads :
      {C : Type 0} (code d : ℕ) (each : C → Iter → Option (Unpacked r C)) (c c' : C)
      → (s : Option Bytes) (b : Body) → code ≡ d
      → Exhausts (each c) b c'
      → Reads (unpack_container r code each c) (group d s b end) c'
  unfolding unpack_container
  unpack_container-Reads code d each c c' s b same h it after e =
      let inside = h (r.recurse it) (entered it d s b after e) in
      ((r.next it).1, ground (arith, typed it, inside.1), moved it ∙ ap after_head e)

  -- Each element costs a round of the loop, and the last round sees the end.
  pub unpack_each-Exhausts :
      {A C : Type 0} (f : A → Iter → Option (Unpacked r A)) (fresh : A) (put partial : C → A → C)
      → (e : A → Body) (g : A → A) (bound : ℕ) → ((x : A) → 0 < size (e x))
      → ((x : A) (b : Body) → (head_code (e x ⊕ b) == 0) ≡ false)
      → ((x : A) → size (e x) < bound → Reads (f fresh) (e x) (g x))
      → (fuel : ℕ) (xs : List A) (c : C) → size (encode_each e xs) < fuel
      → size (encode_each e xs) < bound
      → Exhausts
          (unpack_each r f fresh put partial fuel c)
          (encode_each e xs)
          (foldl put c (map g xs))
  unfolding unpack_each
  unpack_each-Exhausts f fresh put partial e g bound pos starts reads zero xs c small fits it h =
      absurd (omega arith)
  unpack_each-Exhausts f fresh put partial e g bound pos starts reads (suc fuel) [] c small fits it
        h =
      (it, rw (typed it, h), h)
  unpack_each-Exhausts f fresh put partial e g bound pos starts reads (suc fuel) (x ∷ xs) c small
        fits it h =
      let sizes = size-⊕ (e x) (encode_each e xs) in
      let here = reads x (omega (arith, sizes)) it (encode_each e xs) h in
      let more =
        unpack_each-Exhausts f fresh put partial e g bound pos starts reads fuel xs (put c (g x))
          (omega (arith, sizes, pos x)) (omega (arith, sizes)) here.0 here.2 in
      (more.0, rw (typed it, h, starts x (encode_each e xs), here.1) more.1, more.2)

  -- Of the alternatives the loop takes the one whose code it is given.
  for_each_type-picks :
      (a : Alternative) (w : Variant) (sub : Iter)
      → (for_each_type r (element_code (alternative_type a)) variant_types (sub, w)).1
        ≡ to_variant a (unpack_alternative r a (default (alternative_type a)) sub).1
  unfolding for_each_type
  for_each_type-picks alt_string w sub = refl
  for_each_type-picks alt_bool w sub = refl
  for_each_type-picks (alt_number byte) w sub = refl
  for_each_type-picks (alt_number f) w sub = refl

  unpack_alternative-received :
      (v : Variant) (sub : Iter)
      → rest sub ≡ encode_alternative v
      → to_variant
          (alternative v)
          (unpack_alternative r (alternative v) (default (alternative_type (alternative v))) sub).1
        ≡ received_variant v
  unfolding unpack_alternative
  unpack_alternative-received (of_string s) sub h =
      rw (typed sub, h, got sub _ _ _ h) (ap of_string (c_str_idem s))
  unpack_alternative-received (of_bool true) sub h = rw (typed sub, h, got sub _ _ _ h)
  unpack_alternative-received (of_bool false) sub h = rw (typed sub, h, got sub _ _ _ h)
  unpack_alternative-received (of_number f n) sub h =
      rw (typed sub, h, got sub _ _ _ h, ==_refl (fixed_code f))

  encode_alternative-code :
      (v : Variant)
      → head_code (encode_alternative v) ≡ element_code (alternative_type (alternative v))
  unfolding element_code
  encode_alternative-code (of_string s) = refl
  encode_alternative-code (of_bool b) = refl
  encode_alternative-code (of_number f n) = refl

  for_each_type-received :
      (v w : Variant) (sub : Iter)
      → rest sub ≡ encode_alternative v
      → (for_each_type r (r.get_arg_type sub) variant_types (sub, w)).1 ≡ received_variant v
  for_each_type-received v w sub inner =
      ap (λ c. (for_each_type r c variant_types (sub, w)).1)
        (typed sub ∙ ap head_code inner ∙ encode_alternative-code v)
      ∙ for_each_type-picks (alternative v) w sub
      ∙ unpack_alternative-received v sub inner

  if-true : {A : Type 0} (b : Bool) (x y : A) → b ≡ true → (if b then x else y) ≡ x
  if-true true x y h = refl
  if-true false x y h = absurd (cc)

  unpack_variant-fits :
      (w x : Variant) (it : Iter)
      → (r.get_arg_type it == type_variant) ≡ true
      → (for_each_type r (r.get_arg_type (r.recurse it)) variant_types (r.recurse it, w)).1 ≡ x
      → unpack_variant r w it ≡ (true, x, (r.next it).1)
  unfolding unpack_variant
  unpack_variant-fits w x it code picked =
      if-true (r.get_arg_type it == type_variant) _ _ code
      ∙ ap (λ y. (true, y, (r.next it).1)) picked

  pub unpack_variant-Reads :
      (v w : Variant) (s : Option Bytes)
      → Reads
          (λ it. some (unpack_variant r w it))
          (group type_variant s (encode_alternative v) end)
          (received_variant v)
  unpack_variant-Reads v w s it after h =
      let inner = entered it type_variant s (encode_alternative v) after h in
      let code = ap (λ c. c == type_variant) (typed it ∙ ap head_code h) in
      (
        (r.next it).1,
        ap some (
            unpack_variant-fits w (received_variant v) it code
              (for_each_type-received v w (r.recurse it) inner)),
        moved it ∙ ap after_head h,
      )
