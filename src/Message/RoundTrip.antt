-- ===== src/Message/RoundTrip.antt =====
-- Packing and then unpacking.
use boost_dbus.Common.{
  ℕ, ◌<◌, refl, ap, ◌∙◌, true, false, List, [], ◌∷◌, Bytes, Option, none, some, arith, c_str,
  c_str_idem,
}
use boost_dbus.Element.{
  Text, string, object_path, signature, Ty, bool, fixed, text, dbus_variant, vector, flat_map, pair,
  pointer, Value, default, type_array, text_code,
}
use boost_dbus.Wire.{word, chars, Body, ◌⊕◌, ⊕_assoc, size, Reader, ReaderLaws}
use boost_dbus.Message.Packer.{Packable, AllPackable, Values}
use boost_dbus.Message.Packing.{vector-code, flat_map-code}
use boost_dbus.Message.Unpacker.{
  Unpackable, AllUnpackable, as_word, as_bool, as_chars, push_back, emplace_entry, unchanged,
  Unpacked, unpack_text, unpack_pair, unpack_each, unpack, unpack_args,
}
use boost_dbus.Message.Encoding.{encode, encode_args, encode_each, encode_text, encode_pair}
use boost_dbus.Message.Received.{received, size-⊕, head-encode}
use boost_dbus.Message.Unpacking.{
  Reads, unpack_basic-Reads, unpack_pair-Reads, unpack_container-Reads, unpack_each-Exhausts,
  unpack_variant-Reads,
}

size-encode_pos : (t : Ty) (p : Packable t) (v : Value t) → 0 < size (encode t p v)
unfolding encode
size-encode_pos bool p v = omega arith
size-encode_pos (fixed f) p v = omega arith
size-encode_pos (text string) p v = omega arith
size-encode_pos (text object_path) p v = omega arith
size-encode_pos (text signature) p v = absurd p
size-encode_pos dbus_variant p v = omega arith
size-encode_pos (vector t) p v = omega arith
size-encode_pos (flat_map t) p v = omega arith
size-encode_pos (pair k u) p (x, y) = omega arith
size-encode_pos (pointer t) p v = size-encode_pos t p v

abbrev pub received_args : (ts : List Ty) (old new : Values ts) → Values ts
received_args [] old new = new
received_args (t ∷ ts) old new = (received t old.0 new.0, received_args ts old.1 new.1)

abbrev entry : (t : Ty) → Packable t → Bytes × Value t → Body
entry t p = encode_pair (encode_text string) (encode t p)

abbrev pub unpack_entry :
    (r : Reader) (fuel : ℕ) (t : Ty)
    → Unpackable t
    → Bytes × Value t
    → r.Iter
    → Option (Unpacked r (Bytes × Value t))
unpack_entry r fuel t u =
    unpack_pair r (λ k it. some (unpack_text r string k it)) (unpack r fuel t u)

module _ {r : Reader} (laws : ReaderLaws r) where
  open r use {Iter}
  open laws use {rest}

  unpack_text-Reads :
      (x : Text) (old s : Bytes)
      → Reads laws (λ it. some (unpack_text r x old it)) (encode_text x s) (c_str s)
  unfolding unpack_text
  unpack_text-Reads x old s it after h =
      let (it', e, h') =
        unpack_basic-Reads laws (text_code x) as_chars old (chars (c_str s)) it after h in
      (it', e ∙ ap (λ k. some (true, k, it')) (c_str_idem s), h')

  -- Fuel above the number of arguments, at every depth, is enough.
  pub unpack-Reads :
      (fuel : ℕ) (t : Ty) (p : Packable t) (u : Unpackable t) (old v : Value t)
      → size (encode t p v) < fuel
      → Reads laws (unpack r fuel t u old) (encode t p v) (received t old v)
  unfolding unpack encode
  unpack-Reads fuel bool p u old true h = unpack_basic-Reads laws _ as_bool old (word 1)
  unpack-Reads fuel bool p u old false h = unpack_basic-Reads laws _ as_bool old (word 0)
  unpack-Reads fuel (fixed f) p u old v h = unpack_basic-Reads laws _ as_word old (word v)
  unpack-Reads fuel (text string) p u old v h = unpack_text-Reads string old v
  unpack-Reads fuel (text object_path) p u old v h = unpack_text-Reads object_path old v
  unpack-Reads fuel (text signature) p u old v h = absurd p
  unpack-Reads fuel dbus_variant p u old v h = unpack_variant-Reads laws v old _
  unpack-Reads fuel (vector t) p u old v h =
      unpack_container-Reads laws _ type_array
        (unpack_each r (unpack r fuel t u) (default t) push_back push_back fuel) old _ _
        (encode_each (encode t p) v) (vector-code t)
        (unpack_each-Exhausts laws (unpack r fuel t u) (default t) push_back push_back (encode t p)
          (received t (default t)) fuel (size-encode_pos t p) (head-encode t p)
          (λ x small. unpack-Reads fuel t p u (default t) x small) fuel v old (omega arith)
          (omega arith))
  unpack-Reads fuel (flat_map t) p u old m h =
      unpack_container-Reads laws _ type_array
        (unpack_each r (unpack_entry r fuel t u) ([], default t) emplace_entry unchanged fuel) old _
        _ (encode_each (entry t p) m) (flat_map-code t)
        (unpack_each-Exhausts laws (unpack_entry r fuel t u) ([], default t) emplace_entry unchanged
          (entry t p) (λ e. (c_str e.0, received t (default t) e.1)) fuel (λ e. omega arith)
          (λ e b. refl)
          (λ e small.
            unpack_pair-Reads laws (λ k it. some (unpack_text r string k it)) (unpack r fuel t u) []
              _ (default t) _ none (encode_text string e.0) (encode t p e.1)
              (unpack_text-Reads string [] e.0)
              (unpack-Reads fuel t p u (default t) e.1 (omega arith)))
          fuel m old (omega arith) (omega arith))
  unpack-Reads fuel (pair k w) p u old v h =
      let sizes = size-⊕ (encode k p.0 v.0) (encode w p.1 v.1) in
      unpack_pair-Reads laws (unpack r fuel k u.0) (unpack r fuel w u.1) old.0 _ old.1 _ none
        (encode k p.0 v.0) (encode w p.1 v.1)
        (unpack-Reads fuel k p.0 u.0 old.0 v.0 (omega (arith, sizes)))
        (unpack-Reads fuel w p.1 u.1 old.1 v.1 (omega (arith, sizes)))
  unpack-Reads fuel (pointer t) p u old v h = absurd u

  pub unpack_args-Reads :
      (fuel : ℕ) (ts : List Ty) (ps : AllPackable ts) (us : AllUnpackable ts) (old vs : Values ts)
      → size (encode_args ts ps vs) < fuel
      → Reads laws (unpack_args r fuel ts us old) (encode_args ts ps vs) (received_args ts old vs)
  unfolding unpack_args encode_args
  unpack_args-Reads fuel [] ps us old vs h it after e = (it, refl, e)
  unpack_args-Reads fuel (t ∷ ts) ps us old vs h it after e =
      let sizes = size-⊕ (encode t ps.0 vs.0) (encode_args ts ps.1 vs.1) in
      let regroup = ⊕_assoc (encode t ps.0 vs.0) (encode_args ts ps.1 vs.1) after in
      let first =
        unpack-Reads fuel t ps.0 us.0 old.0 vs.0 (omega (arith, sizes)) it
          (encode_args ts ps.1 vs.1 ⊕ after) (e ∙ regroup) in
      let others =
        unpack_args-Reads fuel ts ps.1 us.1 old.1 vs.1 (omega (arith, sizes)) first.0 after
          first.2 in
      (others.0, ground (arith, first.1, others.1), others.2)
