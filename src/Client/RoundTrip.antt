-- ===== src/Client/RoundTrip.antt =====
-- include/dbus/connection.hpp: what the handler of `async_method_call` is told.
use boost_dbus.Common.{
  ℕ, ◌<◌, ◌≡◌, ◌⊎◌, refl, sym, ap, ◌∙◌, true, false, List, ◌∷◌, Option, none, some, inl, inr, ◌==◌,
  Bool-cases, Option-cases,
}
use boost_dbus.Element.{Ty}
use boost_dbus.Wire.{
  end, ◌⊕◌, ⊕-end, size, head_code, Writer, WriterLaws, NeverFails, Reader, ReaderLaws,
}
use boost_dbus.Error.{DbusError, error_code, is_set, ErrorCode, dbus, invalid_argument}
use boost_dbus.Message.Packer.{Values, AllPackable}
use boost_dbus.Message.Tuples.{unpack_into_tuple, unpack_into_tuple-unpack_args}
use boost_dbus.Message.Unpacker.{AllUnpackable, unpack_args}
use boost_dbus.Message.Encoding.{encode_args}
use boost_dbus.Message.Clean.{AllClean, defaults, received_args-Clean}
use boost_dbus.Message.RoundTrip.{unpack_args-Reads}
use boost_dbus.Message.Total.{IsProper}
use boost_dbus.Message.Answering.{unpack_args-Answers}
use boost_dbus.Message.EndToEnd.{pack_args_complete, arg_code, unpack_rejects}
use boost_dbus.Message.Headers.{Messages, MessagesLaws, Endpoint, new_call, new_return, new_error}
use boost_dbus.Properties.MethodCall.{Reply, returned, error, failed, exception_message, call}
use boost_dbus.Properties.MethodCall.Replies.{call-returns, call-throws}
use boost_dbus.Client.{pack_call, reply_handler, complete_call, completion_code, reply_message}

abbrev pub dbus_failure : ErrorCode
dbus_failure = record { value = 1; category = dbus }

abbrev pub dbus_success : ErrorCode
dbus_success = record { value = 0; category = dbus }

is_set-some : (e : DbusError) → is_set (some e) ≡ true
unfolding is_set
is_set-some e = refl

is_set-none : is_set none ≡ false
unfolding is_set
is_set-none = refl

module _ {w : Writer} {r : Reader} {wl : WriterLaws w} {rl : ReaderLaws r} {ms : Messages w r}
    (ml : MessagesLaws wl rl ms) where
  open ms use {Message, init, init_append, set_error_from_message}

  -- With memory enough, the packed call holds the encoding of its arguments.
  pub pack_call-reads :
      (nf : NeverFails w) (e : Endpoint) (ts : List Ty) (ps : AllPackable ts) (vs : Values ts)
      → ((pack_call ms e ts ps vs).0 ≡ true)
        × (rl.rest (init (pack_call ms e ts ps vs).1) ≡ encode_args ts ps vs)
  unfolding pack_call new_call
  pack_call-reads nf e ts ps vs =
      let m = new_call ms e in
      let (ok, holds) = pack_args_complete wl nf ts ps vs (init_append m) in
      (ok, ml.reads m _ ∙ holds ∙ ap (λ b. b ⊕ encode_args ts ps vs) (ml.call_empty _ _ _ _))

  -- A reply without an error that holds the results.
  complete_call-success :
      (fuel : ℕ) (outs : List Ty) (ps : AllPackable outs) (us : AllUnpackable outs)
      → (result : Values outs) (m : Message) → AllClean outs result
      → set_error_from_message m ≡ none
      → rl.rest (init m) ≡ encode_args outs ps result
      → size (encode_args outs ps result) < fuel
      → complete_call ms fuel outs us m ≡ some (dbus_success, result)
  unfolding complete_call completion_code reply_handler
  complete_call-success fuel outs ps us result m clean clear same enough =
      let (it, e, h) =
        unpack_args-Reads rl fuel outs ps us (defaults outs) result enough (init m) end
          (same ∙ sym (⊕-end (encode_args outs ps result))) in
      ap (λ o. reply_handler ms fuel outs us (error_code o) m) clear
      ∙ rw
          (unpack_into_tuple-unpack_args r fuel outs us (defaults outs) (init m) ∙ e, reply_handler)
          (ap (λ v. some (dbus_success, v)) (received_args-Clean outs result clean))

  -- An error for a reply.
  complete_call-failure :
      (fuel : ℕ) (outs : List Ty) (us : AllUnpackable outs) (m : Message) (e : DbusError)
      → set_error_from_message m ≡ some e
      → complete_call ms fuel outs us m ≡ some (dbus_failure, defaults outs)
  unfolding complete_call completion_code reply_handler error_code is_set
  complete_call-failure fuel outs us m e h =
      ap (λ o. reply_handler ms fuel outs us (error_code o) m) h

  -- Whatever message comes for a reply, as long as its arrays and dictionary entries are containers, and
  -- with fuel above the number of its D-Bus values, the client's handler is called: where the message
  -- is an error, with a failure of D-Bus and default values; and otherwise either with no error or with
  -- `invalid_argument`.
  pub complete_call-answers :
      (fuel : ℕ) (ts : List Ty) (us : AllUnpackable ts) (m : Message)
      → IsProper (rl.rest (init m))
      → size (rl.rest (init m)) < fuel
      → (ec : ErrorCode) × (vs : Values ts) × (complete_call ms fuel ts us m ≡ some (ec, vs))
        × (((is_set (set_error_from_message m) ≡ true) × (ec ≡ dbus_failure) × (vs ≡ defaults ts))
            ⊎ ((is_set (set_error_from_message m) ≡ false)
                × ((ec ≡ dbus_success) ⊎ (ec ≡ invalid_argument))))
  unfolding complete_call completion_code reply_handler error_code
  complete_call-answers fuel ts us m proper enough =
      elim (Option-cases (set_error_from_message m)) [
        | inr (e, set) ↦ (
          dbus_failure,
          defaults ts,
          complete_call-failure fuel ts us m e set,
          inl (ap is_set set ∙ is_set-some e, refl, refl),
        )
        | inl clear ↦
            let (ok, vs, it, e') =
              unpack_args-Answers rl fuel ts us (defaults ts) (init m) proper enough in
            let e = unpack_into_tuple-unpack_args r fuel ts us (defaults ts) (init m) ∙ e' in
            let told = ap (λ o. reply_handler ms fuel ts us (error_code o) m) clear in
            let unset = ap is_set clear ∙ is_set-none in
            elim (Bool-cases ok) [
              | inl right ↦ (
                dbus_success,
                vs,
                told ∙ rw (e, reply_handler) (rw (right) refl),
                inr (unset, inl refl),
              )
              | inr wrong ↦ (
                invalid_argument,
                vs,
                told ∙ rw (e, reply_handler) (rw (wrong) refl),
                inr (unset, inr refl),
              )
            ]
      ]

  -- A reply that is no error, and whose first argument has another type than the first result, or that
  -- has no argument: the client's handler is told `invalid_argument`, and default values.
  pub complete_call-rejects :
      (fuel : ℕ) (t : Ty) (ts : List Ty) (us : AllUnpackable (t ∷ ts)) (m : Message)
      → set_error_from_message m ≡ none
      → (head_code (rl.rest (init m)) == arg_code t) ≡ false
      → complete_call ms fuel (t ∷ ts) us m ≡ some (invalid_argument, defaults (t ∷ ts))
  unfolding complete_call completion_code reply_handler error_code unpack_into_tuple unpack_args
  complete_call-rejects fuel t ts us m clear wrong =
      ap (λ o. reply_handler ms fuel (t ∷ ts) us (error_code o) m) clear
      ∙ rw (unpack_rejects rl fuel t us.0 (defaults (t ∷ ts)).0 (init m) wrong, reply_handler) refl

  -- A client calls a method with arguments that travel whole (strings without NUL, maps sorted, fuel
  -- above the number of D-Bus values on both sides), with memory enough. Where the method's handler
  -- returns a result that travels whole, the client's handler is told no error and that result.
  pub complete_call-returns :
      (nf : NeverFails w)
      → (fuel : ℕ) (ins : List Ty) (is : AllPackable ins) (us : AllUnpackable ins)
      → (outs : List Ty) (ps : AllPackable outs) (vs : AllUnpackable outs)
      → (h : Values ins → Option (Values outs)) (args : Values ins) (result : Values outs)
      → (e : Endpoint) → AllClean ins args
      → AllClean outs result
      → size (encode_args ins is args) < fuel
      → size (encode_args outs ps result) < fuel
      → h args ≡ some result
      → let m = (pack_call ms e ins is args).1 in
        (reply : Reply w) × (call w r fuel ins us outs ps h (init m) (init_append (new_return ms m))
          ≡ some reply)
        × (complete_call ms fuel outs vs (reply_message ms m reply) ≡ some (dbus_success, result))
  unfolding new_return reply_message
  complete_call-returns nf fuel ins is us outs ps vs h args result e clean clean' enough enough'
        works =
      let m = (pack_call ms e ins is args).1 in
      let ret = ms.new_method_return m in
      let (ret', replies, holds) =
        call-returns wl rl nf fuel ins is us outs ps h args result (init m) (init_append ret) clean
          (pack_call-reads nf e ins is args).1 enough works (ml.return_empty m) in
      (
        returned ret',
        replies,
        complete_call-success fuel outs ps vs result (ms.appended_to ret ret') clean'
            (ml.same_error ret ret' ∙ ml.return_clear m) (ml.reads ret ret' ∙ holds) enough',
      )

  -- A client calls a method with arguments that travel whole (strings without NUL, maps sorted, fuel
  -- above the number of D-Bus values), with memory enough, and the method's handler throws: the client's
  -- handler is told an error of D-Bus, and default values.
  pub complete_call-throws :
      (nf : NeverFails w)
      → (fuel : ℕ) (ins : List Ty) (is : AllPackable ins) (us : AllUnpackable ins)
      → (outs : List Ty) (ps : AllPackable outs) (vs : AllUnpackable outs)
      → (h : Values ins → Option (Values outs)) (args : Values ins) (e : Endpoint)
      → AllClean ins args
      → size (encode_args ins is args) < fuel
      → h args ≡ none
      → let m = (pack_call ms e ins is args).1 in
        (reply : Reply w) × (call w r fuel ins us outs ps h (init m) (init_append (new_return ms m))
          ≡ some reply)
        × (complete_call ms fuel outs vs (reply_message ms m reply)
            ≡ some (dbus_failure, defaults outs))
  unfolding reply_message new_error
  complete_call-throws nf fuel ins is us outs ps vs h args e clean enough throws =
      let m = (pack_call ms e ins is args).1 in
      (
        error failed exception_message,
        call-throws wl rl fuel ins is us outs ps h args (init m) (init_append (new_return ms m))
            clean (pack_call-reads nf e ins is args).1 enough throws,
        complete_call-failure fuel outs vs _ _ (ml.error_set m _ _),
      )
