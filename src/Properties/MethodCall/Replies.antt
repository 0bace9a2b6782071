-- ===== src/Properties/MethodCall/Replies.antt =====
-- Which reply a method call gets.
use mathlib.Core.Path.{subst}
use boost_dbus.Common.{
  ℕ, ◌<◌, ◌≡◌, refl, sym, ap, ◌∙◌, ◌⊎◌, Bool, true, false, List, [], ◌∷◌, Option, none, some, inl,
  inr, ◌==◌, Option-cases, Bool-cases,
}
use boost_dbus.Element.{Ty}
use boost_dbus.Wire.{
  end, ◌⊕◌, ⊕-end, size, head_code, Writer, WriterLaws, NeverFails, Reader, ReaderLaws,
}
use boost_dbus.Message.Packer.{Values, AllPackable, pack_args}
use boost_dbus.Message.Tuples.{
  unpack_into_tuple, unpack_into_tuple-unpack_args, pack_tuple_into_msg-pack_args,
}
use boost_dbus.Message.Unpacker.{AllUnpackable, unpack_args}
use boost_dbus.Message.Packing.{AllSafe}
use boost_dbus.Message.Encoding.{encode_args}
use boost_dbus.Message.Clean.{AllClean, defaults, received_args-Clean}
use boost_dbus.Message.RoundTrip.{unpack_args-Reads}
use boost_dbus.Message.Total.{IsProper}
use boost_dbus.Message.Answering.{unpack_args-Answers}
use boost_dbus.Message.EndToEnd.{pack_args_sound, pack_args_complete, arg_code, unpack_rejects}
use boost_dbus.Properties.MethodCall.{
  Reply, returned, error, invalid_args, failed, exception_message, packing_message, reply_with,
  call,
}

module _ {w : Writer} {r : Reader} (wl : WriterLaws w) (rl : ReaderLaws r) where
  -- The answer of the unpacker to a message that holds the arguments.
  arrived :
      (fuel : ℕ) (ins : List Ty) (is : AllPackable ins) (us : AllUnpackable ins) (vs : Values ins)
      → (m : r.Iter) → AllClean ins vs
      → rl.rest m ≡ encode_args ins is vs
      → size (encode_args ins is vs) < fuel
      → (m' : r.Iter) × (unpack_into_tuple r fuel ins us (defaults ins) m ≡ some (true, vs, m'))
  arrived fuel ins is us vs m clean same enough =
      let (m', e, h) =
        unpack_args-Reads rl fuel ins is us (defaults ins) vs enough m end
          (same ∙ sym (⊕-end (encode_args ins is vs))) in
      (
        m',
        unpack_into_tuple-unpack_args r fuel ins us (defaults ins) m
            ∙ e
            ∙ ap (λ x. some (true, x, m')) (received_args-Clean ins vs clean),
      )

  -- The message holds the arguments of the method (strings without NUL, maps sorted, fuel above the
  -- number of D-Bus values), the handler returns a result, and the writer never fails: the one reply
  -- is a method return that holds the result.
  pub call-returns :
      (nf : NeverFails w)
      → (fuel : ℕ) (ins : List Ty) (is : AllPackable ins) (us : AllUnpackable ins)
      → (outs : List Ty) (ps : AllPackable outs)
      → (h : Values ins → Option (Values outs)) (vs : Values ins) (result : Values outs)
      → (m : r.Iter) (ret : w.Iter) → AllClean ins vs
      → rl.rest m ≡ encode_args ins is vs
      → size (encode_args ins is vs) < fuel
      → h vs ≡ some result
      → wl.body ret ≡ end
      → (ret' : w.Iter) × (call w r fuel ins us outs ps h m ret ≡ some (returned ret'))
        × (wl.body ret' ≡ encode_args outs ps result)
  unfolding call reply_with
  call-returns nf fuel ins is us outs ps h vs result m ret clean same enough works empty =
      let (m', e) = arrived fuel ins is us vs m clean same enough in
      let (ok, holds) = pack_args_complete wl nf outs ps result ret in
      (
        (pack_args w outs ps result ret).1,
        rw (e, call)
            (rw (works) (rw (pack_tuple_into_msg-pack_args w outs ps result ret, ok) refl)),
        holds ∙ ap (λ b. b ⊕ encode_args outs ps result) empty,
      )

  -- The message holds the arguments of the method (strings without NUL, maps sorted, fuel above the
  -- number of D-Bus values), and the handler throws: the one reply is the error Failed with the
  -- message for exceptions.
  pub call-throws :
      (fuel : ℕ) (ins : List Ty) (is : AllPackable ins) (us : AllUnpackable ins)
      → (outs : List Ty) (ps : AllPackable outs)
      → (h : Values ins → Option (Values outs)) (vs : Values ins) → (m : r.Iter) (ret : w.Iter)
      → AllClean ins vs
      → rl.rest m ≡ encode_args ins is vs
      → size (encode_args ins is vs) < fuel
      → h vs ≡ none
      → call w r fuel ins us outs ps h m ret ≡ some (error failed exception_message)
  unfolding call
  call-throws fuel ins is us outs ps h vs m ret clean same enough throws =
      let (m', e) = arrived fuel ins is us vs m clean same enough in rw (e, call) (rw (throws) refl)

  -- The method has an argument, and the first one of the message has another type code, or there is
  -- none: whatever the handler is, the one reply is the error InvalidArgs.
  pub call-invalid :
      (fuel : ℕ) (t : Ty) (ts : List Ty) (us : AllUnpackable (t ∷ ts))
      → (outs : List Ty) (ps : AllPackable outs) → (h : Values (t ∷ ts) → Option (Values outs))
      → (m : r.Iter) (ret : w.Iter) → (head_code (rl.rest m) == arg_code t) ≡ false
      → call w r fuel (t ∷ ts) us outs ps h m ret ≡ some (error invalid_args [])
  unfolding call unpack_into_tuple unpack_args
  call-invalid fuel t ts us outs ps h m ret wrong =
      rw (unpack_rejects rl fuel t us.0 (defaults (t ∷ ts)).0 m wrong, call)

  -- What a call answers after the unpacker's answer: InvalidArgs after a failure; otherwise what the
  -- handler, applied to the values, and the packer lead to.
  abbrev pub Answered :
      (ok : Bool) (outs : List Ty) (ps : AllPackable outs) (handled : Option (Values outs))
      → (ret : w.Iter) → Option (Reply w)
      → Type 0
  Answered false outs ps handled ret answer = answer ≡ some (error invalid_args [])
  Answered true outs ps none ret answer = answer ≡ some (error failed exception_message)
  Answered true outs ps (some result) ret answer =
      ((ret' : w.Iter) × (answer ≡ some (returned ret'))
        × (wl.body ret' ≡ wl.body ret ⊕ encode_args outs ps result))
      ⊎ ((answer ≡ some (error failed packing_message))
          × ((pack_args w outs ps result ret).0 ≡ false))

  reply_with-Answered :
      (outs : List Ty) (ps : AllPackable outs) (result : Values outs) (ret : w.Iter)
      → AllSafe wl outs
      → Answered true outs ps (some result) ret (some (reply_with w outs ps result ret))
  unfolding reply_with
  reply_with-Answered outs ps result ret safe =
      let tuple = pack_tuple_into_msg-pack_args w outs ps result ret in
      elim (Bool-cases (pack_args w outs ps result ret).0) [
        | inl ok ↦ inl (
          (pack_args w outs ps result ret).1,
          rw (tuple, ok) refl,
          pack_args_sound wl outs ps result ret safe ok,
        )
        | inr wrong ↦ inr (rw (tuple, wrong) refl, wrong)
      ]

  call-Answered :
      (fuel : ℕ) (ins : List Ty) (us : AllUnpackable ins) (outs : List Ty) (ps : AllPackable outs)
      → (h : Values ins → Option (Values outs)) (m m' : r.Iter) (ret : w.Iter) (ok : Bool)
      → (vs : Values ins) → AllSafe wl outs
      → unpack_into_tuple r fuel ins us (defaults ins) m ≡ some (ok, vs, m')
      → Answered ok outs ps (h vs) ret (call w r fuel ins us outs ps h m ret)
  unfolding call
  call-Answered fuel ins us outs ps h m m' ret false vs safe e = rw (e, call) refl
  call-Answered fuel ins us outs ps h m m' ret true vs safe e = elim (Option-cases (h vs)) [
    | inl throws ↦ rw (throws) (rw (e, call) (rw (throws) refl))
    | inr (result, works) ↦ rw (works) (
        subst (Answered true outs ps (some result) ret) (sym (rw (e, call) (rw (works) refl)))
          (reply_with-Answered outs ps result ret safe))
  ]

  -- Whatever the message holds, as long as its arrays and dictionary entries are containers, with fuel
  -- above the number of its D-Bus values, and where no result type contains a `dbus_variant` or the
  -- writer never fails: the unpacker answers, and there is one reply. It is InvalidArgs where the
  -- unpacker answers false. Otherwise it is Failed with the message for exceptions where the handler
  -- throws on the unpacked values; and where the handler returns a result, it is a method return to
  -- whose contents exactly the whole result was appended, or, where packing the result answers false,
  -- Failed with the message for packing.
  pub call-answers :
      (fuel : ℕ) (ins : List Ty) (us : AllUnpackable ins) (outs : List Ty) (ps : AllPackable outs)
      → (h : Values ins → Option (Values outs)) (m : r.Iter) (ret : w.Iter) → IsProper (rl.rest m)
      → size (rl.rest m) < fuel
      → AllSafe wl outs
      → (ok : Bool) × (vs : Values ins) × (m' : r.Iter) × (unpack_args r fuel ins us
            (defaults ins)
            m
          ≡ some (ok, vs, m'))
        × Answered ok outs ps (h vs) ret (call w r fuel ins us outs ps h m ret)
  call-answers fuel ins us outs ps h m ret proper enough safe =
      let (ok, vs, m', e) = unpack_args-Answers rl fuel ins us (defaults ins) m proper enough in
      let e' = unpack_into_tuple-unpack_args r fuel ins us (defaults ins) m ∙ e in
      (ok, vs, m', e, call-Answered fuel ins us outs ps h m m' ret ok vs safe e')
