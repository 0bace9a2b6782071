-- ===== src/AsyncSend.antt =====
-- include/dbus/detail/async_send_op.hpp, with `async_send` of include/dbus/connection_service.hpp:
-- messages that are sent, and the handlers that wait for a reply.
--
-- `is_method_call` asks for the type of a message. libdbus gives each message that waits for a reply a
-- pending call, a number here, and calls `callback` with it when the reply has come.
pub mod Completion
pub mod Pending
pub mod Answered
use boost_dbus.Common.{
  ℕ, ◌+◌, Bool, true, false, not, List, [], ◌∷◌, ◌++◌, Option, none, some, if◌then◌else◌, ◌==◌,
}
use boost_dbus.Connection.{Connection, start}

-- `impl::connection::send` and `send_with_reply`.
pub data Sent (M : Type 0) : Type 0 where
  plain with_reply : M → Sent M

-- `ops` holds the operations on the heap by their pending call, `posted` the handlers that have been
-- posted, each with its reply.
pub record Sender (M H : Type 0) : Type 0 where
  pub connection : Connection
  pub sent : List (Sent M)
  pub next_call : ℕ
  pub ops : List (ℕ × H)
  pub posted : List (H × M)

module _ {H : Type 0} where
  -- The operation of a pending call, and the others.
  unfoldable pub take_op : ℕ → List (ℕ × H) → Option (H × List (ℕ × H))
  take_op p [] = none
  take_op p ((q, h) ∷ ops) =
      let rest = take_op p ops in
      if q == p
      then some (h, ops)
      else (elim rest [ none ↦ none | some (k, others) ↦ some (k, (q, h) ∷ others) ])

module _ {M H : Type 0} where
  abbrev pub idle : Connection → Sender M H
  idle c = record { connection = c; sent = []; next_call = 0; ops = []; posted = [] }

  unfoldable pub async_send_op : (M → Bool) → M → H → Sender M H → Sender M H
  async_send_op is_method_call m h s =
      if not (is_method_call m) then record s { sent = s.sent ++ plain m ∷ [] } else record s {
        sent = s.sent ++ with_reply m ∷ [];
        next_call = s.next_call + 1;
        ops = s.ops ++ (s.next_call, h) ∷ [];
      }

  unfoldable pub async_send : (M → Bool) → M → H → Sender M H → Sender M H
  unfolding async_send_op
  async_send is_method_call m h s =
      async_send_op is_method_call m h (record s { connection = start s.connection })

  -- The operation is taken off the heap and posted with the reply. libdbus does not call this for a
  -- pending call that has no operation.
  unfoldable pub callback : ℕ → M → Sender M H → Sender M H
  unfolding take_op
  callback p reply s = elim (take_op p s.ops) [
    | none ↦ s
    | some (h, others) ↦ record s { ops = others; posted = s.posted ++ (h, reply) ∷ [] }
  ]

pub data Event (M H : Type 0) : Type 0 where
  sends : M → H → Event M H
  replies : ℕ → M → Event M H

module _ {M H : Type 0} where
  unfoldable pub happen : (M → Bool) → List (Event M H) → Sender M H → Sender M H
  unfolding async_send callback
  happen is_method_call [] s = s
  happen is_method_call (sends m h ∷ es) s =
      happen is_method_call es (async_send is_method_call m h s)
  happen is_method_call (replies p m ∷ es) s = happen is_method_call es (callback p m s)
