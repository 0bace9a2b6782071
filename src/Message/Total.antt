-- ===== src/Message/Total.antt =====
-- include/dbus/message.hpp: unpacking from any message, also one of the wrong types.
use boost_dbus.Common.{
  ℕ, zero, suc, ◌<◌, ◌≤◌, ◌≡◌, refl, Bool, true, false, [], Bytes, Option, some, arith, ◌==◌,
  Bool-cases, inl, inr, ◌⊎◌,
}
use boost_dbus.Element.{
  string, Ty, bool, fixed, text, dbus_variant, vector, flat_map, pair, pointer, Variant, Value,
  default, type_array, type_dict_entry, text_code, fixed_code,
}
use boost_dbus.Wire.{
  Datum, Body, end, value, group, head_code, after_head, contents, size, Reader, ReaderLaws,
}
use boost_dbus.Message.RoundTrip.{unpack_entry}
use boost_dbus.Message.Packing.{vector-code, flat_map-code}
use boost_dbus.Message.Unpacker.{
  Unpackable, as_word, as_bool, as_chars, push_back, emplace_entry, unchanged, Unpacked,
  unpack_basic, unpack_text, for_each_type, variant_types, unpack_variant, unpack_pair, unpack_each,
  unpack_container, unpack,
}

-- Arrays and dictionary entries are containers.
abbrev pub IsProper : Body → Type 0
IsProper end = Unit {0}
IsProper (value c d r) = ((c == type_array) ≡ false) × ((c == type_dict_entry) ≡ false) × IsProper r
IsProper (group c s i r) = IsProper i × IsProper r

module _ {r : Reader} (laws : ReaderLaws r) where
  open r use {Iter}
  open laws use {rest, typed, moved, entered}

  abbrev pub Moved : Bool → Iter → Iter → Type 0
  Moved true it it' = rest it' ≡ after_head (rest it)
  Moved false it it' = it' ≡ it

  -- The call gives an answer. If it is true the iterator has passed one argument, and if it is false
  -- the iterator stands where it stood.
  abbrev pub Answers : {A : Type 0} → (Iter → Option (Unpacked r A)) → Iter → Type 0
  Answers {A} f it =
      (ok : Bool) × (x : A) × (it' : Iter) × (f it ≡ some (ok, x, it')) × Moved ok it it'

  abbrev AnswersBelow : {A : Type 0} → ℕ → (Iter → Option (Unpacked r A)) → Type 0
  AnswersBelow bound f = (it : Iter) → IsProper (rest it) → size (rest it) < bound → Answers f it

  unpack_basic-Answers :
      {A : Type 0} (code : ℕ) (read : Datum → A) (old : A) (it : Iter)
      → Answers (λ it'. some (unpack_basic r code read old it')) it
  unfolding unpack_basic
  unpack_basic-Answers code read old it = elim (Bool-cases (r.get_arg_type it == code)) [
    | inl fits ↦ (true, read (r.get_basic it), (r.next it).1, rw fits, moved it)
    | inr no_fit ↦ (false, old, it, rw no_fit, refl)
  ]

  unpack_variant-Answers :
      (old : Variant) (it : Iter) → Answers (λ it'. some (unpack_variant r old it')) it
  unfolding unpack_variant
  unpack_variant-Answers old it = elim (Bool-cases (r.get_arg_type it == b'v')) [
    | inl fits ↦ (
      true,
      (for_each_type r (r.get_arg_type (r.recurse it)) variant_types (r.recurse it, old)).1,
      (r.next it).1,
      rw fits,
      moved it,
    )
    | inr no_fit ↦ (false, old, it, rw no_fit, refl)
  ]

  -- What a sub-iterator reads, where the argument is a container of the code asked for.
  record Inside (b : Body) (it : Iter) : Type 0 where
    inner : rest (r.recurse it) ≡ contents b
    proper : IsProper (contents b)
    smaller : size (contents b) < size b

  inside :
      (code : ℕ)
      → (code ≡ type_array) ⊎ (code ≡ type_dict_entry)
      → (it : Iter) (b : Body) → rest it ≡ b
      → IsProper b
      → (head_code b == code) ≡ true
      → Inside b it
  inside code k it end e p h = absurd (ground arith)
  inside code k it (value c d b) e p h = absurd (ground arith)
  inside code k it (group c s i b) e p h = record {
    inner = entered it c s i b e;
    proper = p.0;
    smaller = omega arith;
  }

  Answers-Inside :
      (code : ℕ)
      → (code ≡ type_array) ⊎ (code ≡ type_dict_entry)
      → (it : Iter) → IsProper (rest it)
      → (r.get_arg_type it == code) ≡ true
      → Inside (rest it) it
  Answers-Inside code k it p h = inside code k it (rest it) refl p (rw (typed it) at h)

  pub after_head-IsProper : (b : Body) → IsProper b → IsProper (after_head b)
  after_head-IsProper end p = tt
  after_head-IsProper (value c d b) p = p.2
  after_head-IsProper (group c s i b) p = p.1

  after_head-size : (b : Body) → (head_code b == 0) ≡ false → size (after_head b) < size b
  after_head-size end h = cc
  after_head-size (value c d b) h = omega arith
  after_head-size (group c s i b) h = omega arith

  pub after_head-size_le : (b : Body) → size (after_head b) ≤ size b
  after_head-size_le end = omega arith
  after_head-size_le (value c d b) = omega arith
  after_head-size_le (group c s i b) = omega arith

  abbrev Finishes : {A : Type 0} → Option (Unpacked r A) → Type 0
  Finishes {A} o = (ok : Bool) × (x : A) × (it' : Iter) × (o ≡ some (ok, x, it'))

  -- Every round passes one argument, so the loop ends.
  unpack_each-Finishes :
      {A C : Type 0} (f : A → Iter → Option (Unpacked r A)) (fresh : A) (put partial : C → A → C)
      → (bound : ℕ) → AnswersBelow bound (f fresh)
      → (fuel : ℕ) (c : C) (it : Iter) → IsProper (rest it)
      → size (rest it) < fuel
      → size (rest it) < bound
      → Finishes (unpack_each r f fresh put partial fuel c it)
  unfolding unpack_each
  unpack_each-Finishes {C} f fresh put partial bound h zero c it p small fits = absurd (omega arith)
  unpack_each-Finishes {C} f fresh put partial bound h (suc fuel) c it p small fits =
      elim (Bool-cases (r.get_arg_type it == 0)) [
        | inl at_end ↦ (true, c, it, rw at_end)
        | inr goes_on ↦
            round (unpack_each-Finishes f fresh put partial bound h fuel) (h it p fits) goes_on
              (after_head-size (rest it) (rw (typed it) at goes_on))
      ]
    where
      round :
          ((c' : C) (it' : Iter)
            → IsProper (rest it')
            → size (rest it') < fuel
            → size (rest it') < bound
            → Finishes (unpack_each r f fresh put partial fuel c' it'))
          → Answers (f fresh) it
          → (r.get_arg_type it == 0) ≡ false
          → size (after_head (rest it)) < size (rest it)
          → Finishes (unpack_each r f fresh put partial (suc fuel) c it)
      round again (false, x, it', e, m) goes_on less = (false, partial c x, it', rw (goes_on, e))
      round again (true, x, it', e, m) goes_on less =
          let proper : IsProper (rest it') = rw m (after_head-IsProper (rest it) p) in
          let shorter : size (rest it') < size (rest it) = rw m less in
          let (ok, c', it'', e') = again (put c x) it' proper (omega arith) (omega arith) in
          (ok, c', it'', rw (goes_on, e) e')

  unpack_container-Answers :
      {C : Type 0} (code : ℕ) (each : C → Iter → Option (Unpacked r C)) (old : C) (it : Iter)
      → ((r.get_arg_type it == code) ≡ true → Finishes (each old (r.recurse it)))
      → Answers (unpack_container r code each old) it
  unfolding unpack_container
  unpack_container-Answers code each old it h = elim (Bool-cases (r.get_arg_type it == code)) [
    | inl fits ↦ loop (h fits) fits
    | inr no_fit ↦ (false, old, it, rw no_fit, refl)
  ]
    where
      loop :
          Finishes (each old (r.recurse it))
          → (r.get_arg_type it == code) ≡ true
          → Answers (unpack_container r code each old) it
      loop (true, c', sub, e) fits = (true, c', (r.next it).1, rw (fits, e), moved it)
      loop (false, c', sub, e) fits = (false, c', it, rw (fits, e), refl)

  unpack_pair-Answers :
      {A B : Type 0} (f : A → Iter → Option (Unpacked r A)) (g : B → Iter → Option (Unpacked r B))
      → (a : A) (b : B) (bound : ℕ) → AnswersBelow bound (f a)
      → AnswersBelow bound (g b)
      → AnswersBelow bound (unpack_pair r f g (a, b))
  unfolding unpack_pair
  unpack_pair-Answers {A} f g a b bound hf hg it p fits =
      elim (Bool-cases (r.get_arg_type it == type_dict_entry)) [
        | inl same ↦ enter (Answers-Inside type_dict_entry (inr refl) it p same) same
        | inr no_fit ↦ (false, (a, b), it, rw no_fit, refl)
      ]
    where
      second :
          (sub : Iter) (x : A)
          → (r.get_arg_type it == type_dict_entry) ≡ true
          → f a (r.recurse it) ≡ some (true, x, sub)
          → Answers (g b) sub
          → Answers (unpack_pair r f g (a, b)) it
      second sub x same e (true, y, sub', e', m) =
          (true, (x, y), (r.next it).1, rw (same, e, e'), moved it)
      second sub x same e (false, y, sub', e', m) = (false, (x, y), it, rw (same, e, e'), refl)

      first :
          (r.get_arg_type it == type_dict_entry) ≡ true
          → Inside (rest it) it
          → Answers (f a) (r.recurse it)
          → Answers (unpack_pair r f g (a, b)) it
      first same i (false, x, sub, e, m) = (false, (x, b), it, rw (same, e), refl)
      first same i (true, x, sub, e, m) =
          let proper : IsProper (rest (r.recurse it)) = rw (i.inner) i.proper in
          second sub x same e (
            hg sub (rw m (after_head-IsProper _ proper))
              (rw (m, i.inner) (omega (arith, i.smaller, after_head-size_le (contents (rest it))))))

      enter :
          Inside (rest it) it
          → (r.get_arg_type it == type_dict_entry) ≡ true
          → Answers (unpack_pair r f g (a, b)) it
      enter i same =
          first same i
            (hf (r.recurse it) (rw (i.inner) i.proper) (rw (i.inner) (omega (arith, i.smaller))))

  unpack_key-Answers :
      (k : Bytes) (bound : ℕ) → AnswersBelow bound (λ it. some (unpack_text r string k it))
  unfolding unpack_text
  unpack_key-Answers k bound it p fits = unpack_basic-Answers (text_code string) as_chars k it

  loop-Finishes :
      {A C : Type 0} (f : A → Iter → Option (Unpacked r A)) (fresh : A) (put partial : C → A → C)
      → (fuel : ℕ) → AnswersBelow fuel (f fresh)
      → (code : ℕ) → code ≡ type_array
      → (old : C) (it : Iter) → IsProper (rest it)
      → size (rest it) < fuel
      → (r.get_arg_type it == code) ≡ true
      → Finishes (unpack_each r f fresh put partial fuel old (r.recurse it))
  loop-Finishes f fresh put partial fuel h code k old it p fits same =
      let i = Answers-Inside code (inl k) it p same in
      unpack_each-Finishes f fresh put partial fuel h fuel old (r.recurse it)
        (rw (i.inner) i.proper) (rw (i.inner) (omega (arith, i.smaller)))
        (rw (i.inner) (omega (arith, i.smaller)))

  -- On every message whose arrays and dictionary entries are containers, with fuel for the loops above
  -- the number of D-Bus values that are left, unpacking into an object of any type answers: true, and
  -- the iterator has passed one argument, or false, and the iterator stands where it stood.
  pub unpack-Answers :
      (fuel : ℕ) (t : Ty) (u : Unpackable t) (old : Value t) (it : Iter)
      → IsProper (rest it)
      → size (rest it) < fuel
      → Answers (unpack r fuel t u old) it
  unfolding unpack
  unpack-Answers fuel bool u old it p fits = unpack_basic-Answers b'b' as_bool old it
  unpack-Answers fuel (fixed f) u old it p fits = unpack_basic-Answers (fixed_code f) as_word old it
  unpack-Answers fuel (text x) u old it p fits = unpack_basic-Answers (text_code x) as_chars old it
  unpack-Answers fuel dbus_variant u old it p fits = unpack_variant-Answers old it
  unpack-Answers fuel (vector t) u old it p fits =
      unpack_container-Answers _
        (unpack_each r (unpack r fuel t u) (default t) push_back push_back fuel) old it
        (loop-Finishes (unpack r fuel t u) (default t) push_back push_back fuel
          (unpack-Answers fuel t u (default t)) _ (vector-code t) old it p fits)
  unpack-Answers fuel (flat_map t) u old it p fits =
      unpack_container-Answers _
        (unpack_each r (unpack_entry r fuel t u) ([], default t) emplace_entry unchanged fuel) old
        it
        (loop-Finishes (unpack_entry r fuel t u) ([], default t) emplace_entry unchanged fuel
          (unpack_pair-Answers (λ k it'. some (unpack_text r string k it')) (unpack r fuel t u) []
            (default t) fuel (unpack_key-Answers [] fuel) (unpack-Answers fuel t u (default t)))
          _ (flat_map-code t) old it p fits)
  unpack-Answers fuel (pair k v) u old it p fits =
      unpack_pair-Answers (unpack r fuel k u.0) (unpack r fuel v u.1) old.0 old.1 fuel
        (unpack-Answers fuel k u.0 old.0) (unpack-Answers fuel v u.1 old.1) it p fits
  unpack-Answers fuel (pointer t) u old it p fits = absurd u
