-- ===== src/Message/EndToEnd.antt =====
-- include/dbus/message.hpp: what packing and unpacking promise together.
use boost_dbus.Common.{ℕ, ◌<◌, ◌≡◌, sym, ap, ◌∙◌, true, false, List, [], ◌∷◌, some, ◌==◌, c_str}
use boost_dbus.Element.{
  Ty, bool, fixed, text, dbus_variant, vector, flat_map, pair, pointer, Value, type_array,
  type_dict_entry, fixed_code, text_code, element_signature, c_str-element_signature,
}
use boost_dbus.Wire.{
  end, ◌⊕◌, ⊕-end, size, head_code, body_signature, Writer, WriterLaws, NeverFails, Reader,
  ReaderLaws,
}
use boost_dbus.Message.Packer.{Packable, AllPackable, Values, pack, pack_args}
use boost_dbus.Message.Encoding.{encode, encode_args, body_signature-encode}
use boost_dbus.Message.Conforms.{Conforms, encode-Conforms}
use boost_dbus.Message.Packing.{
  Safe, AllSafe, pack-Appends, pack_args-Appends, vector-code, flat_map-code,
}
use boost_dbus.Message.Success.{pack_args-true}
use boost_dbus.Message.Unpacker.{
  Unpackable, AllUnpackable, unpack, unpack_args, unpack_basic, unpack_text, unpack_variant,
  unpack_pair, unpack_container,
}
use boost_dbus.Message.RoundTrip.{unpack_args-Reads}
use boost_dbus.Message.Clean.{AllClean, defaults, received_args-Clean}

module _ {w : Writer} {r : Reader} (wl : WriterLaws w) (rl : ReaderLaws r) where
  -- Arguments are packed into an empty message and the packer answers true; either no argument type
  -- contains `dbus_variant` or the writer never fails; the strings hold no NUL byte and the maps are
  -- sorted. Then a reader of that message, with fuel for its loops above the number of D-Bus values,
  -- unpacks exactly those arguments into default objects and is then at the end of the message.
  pub unpack_args-pack_args :
      (ts : List Ty) (ps : AllPackable ts) (us : AllUnpackable ts) (vs : Values ts)
      → (out : w.Iter) (it : r.Iter) (fuel : ℕ) → AllSafe wl ts
      → AllClean ts vs
      → wl.body out ≡ end
      → (pack_args w ts ps vs out).0 ≡ true
      → rl.rest it ≡ wl.body (pack_args w ts ps vs out).1
      → size (encode_args ts ps vs) < fuel
      → (it' : r.Iter) × (unpack_args r fuel ts us (defaults ts) it ≡ some (true, vs, it'))
        × (rl.rest it' ≡ end)
  unpack_args-pack_args ts ps us vs out it fuel safe clean empty ok same enough =
      let written = pack_args-Appends wl ts ps safe vs out ok in
      let (it', e, h) = unpack_args-Reads rl fuel ts ps us (defaults ts) vs enough it end (
        same
        ∙ written
        ∙ ap (λ b. b ⊕ encode_args ts ps vs) empty
        ∙ sym (⊕-end (encode_args ts ps vs))) in
      (it', e ∙ ap (λ x. some (true, x, it')) (received_args-Clean ts vs clean), h)

module _ {w : Writer} (wl : WriterLaws w) where
  -- Where the packer answers true, and either no argument type contains `dbus_variant` or the writer
  -- never fails, what it has appended is the encoding of all the arguments, in order.
  pub pack_args_sound :
      (ts : List Ty) (ps : AllPackable ts) (vs : Values ts) (it : w.Iter)
      → AllSafe wl ts
      → (pack_args w ts ps vs it).0 ≡ true
      → wl.body (pack_args w ts ps vs it).1 ≡ wl.body it ⊕ encode_args ts ps vs
  pack_args_sound ts ps vs it safe ok = pack_args-Appends wl ts ps safe vs it ok

  -- A value packed into an empty message, with the answer true, and where either its type contains
  -- no `dbus_variant` or the writer never fails: the message has the signature that
  -- `element_signature` computes for the type, and its arrays and variants hold what the signatures
  -- they were opened with say.
  pub pack-Conforms :
      (t : Ty) (p : Packable t) (v : Value t) (it : w.Iter)
      → Safe wl t
      → wl.body it ≡ end
      → (pack w t p v it).0 ≡ true
      → (body_signature (wl.body (pack w t p v it).1) ≡ c_str (element_signature t))
        × Conforms (wl.body (pack w t p v it).1)
  pack-Conforms t p v it safe empty ok =
      let written : wl.body (pack w t p v it).1 ≡ encode t p v =
        pack-Appends wl t p safe v it ok ∙ ap (λ b. b ⊕ encode t p v) empty in
      (
        ap body_signature written ∙ body_signature-encode t p v ∙ sym (c_str-element_signature t),
        rw (written) (encode-Conforms t p v),
      )

module _ {w : Writer} (wl : WriterLaws w) (nf : NeverFails w) where
  pub AllSafe-NeverFails : (ts : List Ty) → AllSafe wl ts
  AllSafe-NeverFails [] = tt
  AllSafe-NeverFails (t ∷ ts) = (safe t, AllSafe-NeverFails ts)
    where
      safe : (u : Ty) → Safe wl u
      safe = elim [
        | dbus_variant ↦ nf
        | vector (u → ih) ↦ ih
        | flat_map (u → ih) ↦ ih
        | pair (k → ihk) (u → ihu) ↦ (ihk, ihu)
        | pointer (u → ih) ↦ ih
        | bool ↦ tt
        | fixed f ↦ tt
        | text x ↦ tt
      ]

  -- With memory enough, packing arguments answers true and appends exactly their encoding.
  pub pack_args_complete :
      (ts : List Ty) (ps : AllPackable ts) (vs : Values ts) (it : w.Iter)
      → ((pack_args w ts ps vs it).0 ≡ true)
        × (wl.body (pack_args w ts ps vs it).1 ≡ wl.body it ⊕ encode_args ts ps vs)
  pack_args_complete ts ps vs it =
      let ok = pack_args-true nf ts ps vs it in
      (ok, pack_args-Appends wl ts ps (AllSafe-NeverFails ts) vs it ok)

-- The code of the argument that `unpack` asks for.
abbrev pub arg_code : Ty → ℕ
arg_code bool = b'b'
arg_code (fixed f) = fixed_code f
arg_code (text x) = text_code x
arg_code dbus_variant = b'v'
arg_code (vector t) = type_array
arg_code (flat_map t) = type_array
arg_code (pair k v) = type_dict_entry
arg_code (pointer t) = arg_code t

module _ {r : Reader} (rl : ReaderLaws r) where
  -- Where the next argument has another type code, or there is none, `unpack` of any type answers
  -- false and changes neither the object nor the iterator.
  pub unpack_rejects :
      (fuel : ℕ) (t : Ty) (u : Unpackable t) (old : Value t) (it : r.Iter)
      → (head_code (rl.rest it) == arg_code t) ≡ false
      → unpack r fuel t u old it ≡ some (false, old, it)
  unfolding unpack unpack_basic unpack_text unpack_variant unpack_pair unpack_container
  unpack_rejects fuel bool u old it h = rw (rl.typed it, h)
  unpack_rejects fuel (fixed f) u old it h = rw (rl.typed it, h)
  unpack_rejects fuel (text x) u old it h = rw (rl.typed it, h)
  unpack_rejects fuel dbus_variant u old it h = rw (rl.typed it, h)
  unpack_rejects fuel (vector t) u old it h = rw (vector-code t, rl.typed it, h)
  unpack_rejects fuel (flat_map t) u old it h = rw (flat_map-code t, rl.typed it, h)
  unpack_rejects fuel (pair k v) u old it h = rw (rl.typed it, h)
  unpack_rejects fuel (pointer t) u old it h = absurd u
