-- ===== src/System/Answered.antt =====
-- include/dbus/detail/async_send_op.hpp on one connection with all that shares it: calls get their
-- replies.
use boost_dbus.Common.{
  Among, ℕ, ◌≤◌, ◌≡◌, sym, ap, ◌∙◌, Bool, true, false, List, ◌∷◌, ◌++◌, All, Option, length,
}
use mathlib.Core.Path.{subst}
use boost_dbus.Connection.{new_connection}
use boost_dbus.AsyncSend
use boost_dbus.AsyncSend.Answered.{NoReply, sent_calls, happen-answers}
use boost_dbus.System.{Link, LinkLaws, Event, connected, happen_all, run_all}
use boost_dbus.System.Settled.{IsSent}
use boost_dbus.System.Replied.{calls, IsCausal, happen_all-replied}

-- On a connection with filters, on which at first no reply waits, filters wait for messages, messages are
-- sent, come in and are dispatched, in any order, where a reply only comes to a call that was sent.
-- Among the sends and replies there is a method call with its handler, and behind it a first reply to
-- this call. If the connection is started by then, as many runs of dispatch handlers as messages wait
-- are enough for the handler to be posted with that reply.
pub happen_all-answered :
    {M H : Type 0} {l : Link M} (laws : LinkLaws l) (is_method_call : M → Bool)
    → (es : List (Event M H)) (conn : l.Conn) (ps : List (ℕ × (M → Option Bool))) (n : ℕ)
    → All (IsSent 0) (laws.waiting conn)
    → IsCausal is_method_call 0 es
    → (happen_all l is_method_call es (connected H l conn ps)).connection.is_paused ≡ false
    → length (laws.waiting (happen_all l is_method_call es (connected H l conn ps)).conn) ≤ n
    → (before ks behind : List (AsyncSend.Event M H)) (m r : M) (h : H)
    → calls es
      ≡ before
        ++ AsyncSend.sends m h
          ∷ (ks ++ AsyncSend.replies (sent_calls is_method_call before) r ∷ behind)
    → is_method_call m ≡ true
    → NoReply (sent_calls is_method_call before) ks
    → Among
        (h, r)
        (run_all l n (happen_all l is_method_call es (connected H l conn ps))).sender.posted
happen_all-answered laws c es conn ps n none_wait causal started enough before ks behind m r h same
      is_call quiet =
    let sent = happen_all-replied laws c es conn ps n none_wait causal started enough in
    subst (Among (h, r))
      (sym (
        ap (λ s. s.posted) sent
        ∙ ap (λ k. (AsyncSend.happen c k (AsyncSend.idle new_connection)).posted) same))
      (happen-answers c new_connection before ks behind m r h is_call quiet)
