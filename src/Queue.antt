-- ===== src/Queue.antt =====
-- include/dbus/detail/queue.hpp: messages wait for handlers, or handlers for messages. Each
-- function is one critical section and the post after it. `posted` is what has been handed to
-- `io_service::post`, in order.
pub mod Fifo
pub mod Mutex
pub mod Linked
pub mod Advance
pub mod Holder
pub mod Threads
use boost_dbus.Common.{List, [], ◌∷◌, ◌++◌}

-- `queue::closure` with the default error code: a handler and the message that it gets.
pub record Closure (M H : Type 0) : Type 0 where
  pub handler : H
  pub message : M

pub record Queue (M H : Type 0) : Type 0 where
  pub messages : List M
  pub handlers : List H
  pub posted : List (Closure M H)

module _ {M H : Type 0} where
  abbrev pub empty : Queue M H
  empty = record { messages = []; handlers = []; posted = [] }

  unfoldable pub push : M → Queue M H → Queue M H
  push m q = elim q.handlers [
    | [] ↦ record q { messages = q.messages ++ m ∷ [] }
    | h ∷ rest ↦ record q {
      handlers = rest;
      posted = q.posted ++ record { handler = h; message = m } ∷ [];
    }
  ]

  unfoldable pub async_pop : H → Queue M H → Queue M H
  async_pop h q = elim q.messages [
    | [] ↦ record q { handlers = q.handlers ++ h ∷ [] }
    | m ∷ rest ↦ record q {
      messages = rest;
      posted = q.posted ++ record { handler = h; message = m } ∷ [];
    }
  ]

  -- The copy constructor: the same messages and handlers.
  unfoldable pub copy : Queue M H → Queue M H
  copy q = record { messages = q.messages; handlers = q.handlers; posted = [] }

pub data Op (M H : Type 0) : Type 0 where
  pushes : M → Op M H
  pops : H → Op M H

module _ {M H : Type 0} where
  unfoldable pub step : Op M H → Queue M H → Queue M H
  step (pushes m) q = push m q
  step (pops h) q = async_pop h q

  unfoldable pub run : List (Op M H) → Queue M H → Queue M H
  run [] q = q
  run (o ∷ os) q = run os (step o q)
