-- ===== src/Client/Posted.antt =====
-- include/dbus/connection.hpp with include/dbus/detail/async_send_op.hpp: the handler of
-- `async_method_call` meets its reply.
use boost_dbus.Common.{
  ℕ, ◌+◌, ◌≡◌, refl, ap, ◌∙◌, true, false, not, List, [], ◌∷◌, ◌++◌, some, ◌==◌, ==_refl, All,
  bytes_eq, codes, if◌then◌else◌,
}
use boost_dbus.Element.{Ty}
use boost_dbus.Wire.{Writer, WriterLaws, NeverFails, Reader, ReaderLaws}
use boost_dbus.Connection.{start}
use boost_dbus.Message.Packer.{Values, AllPackable, pack_args}
use boost_dbus.Message.Headers.{Messages, MessagesLaws, Endpoint, new_call, sanitize, get_type}
use boost_dbus.AsyncSend.{Sender, plain, with_reply, take_op, async_send_op, async_send, callback}
use boost_dbus.Client.{pack_call, is_call, async_method_call}
use boost_dbus.Client.RoundTrip.{pack_call-reads}

module _ {H : Type 0} where
  -- No operation waits for the pending call.
  abbrev pub IsFresh : ℕ → List (ℕ × H) → Type 0
  IsFresh p ops = All (λ o. (o.0 == p) ≡ false) ops

  take_op-last :
      (p : ℕ) (h : H) (ops : List (ℕ × H))
      → IsFresh p ops
      → take_op p (ops ++ (p, h) ∷ []) ≡ some (h, ops)
  unfolding take_op
  take_op-last p h [] fresh = rw (==_refl p) refl
  take_op-last p h ((q, k) ∷ ops) fresh = rw (fresh.0, take_op-last p h ops fresh.1) refl

module _ {w : Writer} {r : Reader} {wl : WriterLaws w} {rl : ReaderLaws r} {ms : Messages w r}
    (ml : MessagesLaws wl rl ms) where
  is_call-pack_call :
      (e : Endpoint) (ts : List Ty) (ps : AllPackable ts) (vs : Values ts)
      → is_call ms (pack_call ms e ts ps vs).1 ≡ true
  unfolding pack_call new_call get_type sanitize bytes_eq
  is_call-pack_call e ts ps vs =
      let m = new_call ms e in
      let it = (pack_args w ts ps vs (ms.init_append m)).1 in
      ap (λ t. bytes_eq (sanitize t) (codes "method_call"))
        (ml.same_type m it ∙ ml.call_type _ _ _ _)

  async_method_call-sends :
      {H : Type 0} (nf : NeverFails w) (h : H) (e : Endpoint)
      → (ts : List Ty) (ps : AllPackable ts) (vs : Values ts) (s : Sender ms.Message H)
      → async_method_call ms h e ts ps vs s ≡ record {
        connection = start s.connection;
        sent = s.sent ++ with_reply (pack_call ms e ts ps vs).1 ∷ [];
        next_call = s.next_call + 1;
        ops = s.ops ++ (s.next_call, h) ∷ [];
        posted = s.posted;
      }
  unfolding async_method_call async_send async_send_op
  async_method_call-sends nf h e ts ps vs s =
      let m = (pack_call ms e ts ps vs).1 in
      ap (λ b. if not b then s else async_send (is_call ms) m h s)
        (pack_call-reads ml nf e ts ps vs).0
      ∙ ap
          (λ b.
            if not b
            then record s { connection = start s.connection; sent = s.sent ++ plain m ∷ [] }
            else record {
              connection = start s.connection;
              sent = s.sent ++ with_reply m ∷ [];
              next_call = s.next_call + 1;
              ops = s.ops ++ (s.next_call, h) ∷ [];
              posted = s.posted;
            })
          (is_call-pack_call e ts ps vs)

  -- With memory enough, and where no operation waits for the next pending call: `async_method_call` sends
  -- the packed call for a reply; when the reply has come, the handler is posted with it, and no
  -- operation more waits than before.
  pub async_method_call-posts :
      {H : Type 0} (nf : NeverFails w) (h : H) (e : Endpoint)
      → (ts : List Ty) (ps : AllPackable ts) (vs : Values ts) (s : Sender ms.Message H)
      → (reply : ms.Message) → IsFresh s.next_call s.ops
      → let s' = callback s.next_call reply (async_method_call ms h e ts ps vs s) in
        (s'.sent ≡ s.sent ++ with_reply (pack_call ms e ts ps vs).1 ∷ [])
        × (s'.posted ≡ s.posted ++ (h, reply) ∷ [])
        × (s'.ops ≡ s.ops)
  unfolding callback
  async_method_call-posts nf h e ts ps vs s reply fresh =
      let sent = ap (callback s.next_call reply) (async_method_call-sends nf h e ts ps vs s) in
      let taken = take_op-last s.next_call h s.ops fresh in
      (
        ap (λ x. x.sent) sent ∙ rw (taken, callback) refl,
        ap (λ x. x.posted) sent ∙ rw (taken, callback) refl,
        ap (λ x. x.ops) sent ∙ rw (taken, callback) refl,
      )
