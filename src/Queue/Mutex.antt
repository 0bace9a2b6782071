-- ===== src/Queue/Mutex.antt =====
-- include/dbus/detail/queue.hpp: several threads on one queue, statement by statement. A call of
-- `push` or `async_pop` takes the mutex, asks whether the other deque is empty, changes one of the two,
-- gives the mutex back, and only then posts. Between any two of these steps other threads may run.
use boost_dbus.Common.{Bool, true, false, List, [], ◌∷◌, ◌++◌, map, Option, none, some, ◌≡◌}
use boost_dbus.Queue.{Closure, Op, pushes, pops}

-- Where a thread is in its call. The names say what it does next; `returned` has nothing to do.
pub data Thread (M H : Type 0) : Type 0 where
  locks tests : Op M H → Thread M H
  appends_message reads_handler : M → Thread M H
  appends_handler reads_message : H → Thread M H
  removes_handler removes_message posts : Closure M H → Thread M H
  unlocks : Option (Closure M H) → Thread M H
  returned : Thread M H

-- The members of the queue, what has been posted, and the calls that have taken the mutex, in the
-- order in which they took it.
pub record Shared (M H : Type 0) : Type 0 where
  pub locked : Bool
  pub messages : List M
  pub handlers : List H
  pub posted : List (Closure M H)
  pub acquired : List (Op M H)

pub record Running (M H : Type 0) : Type 0 where
  pub shared : Shared M H
  pub threads : List (Thread M H)

module _ {M H : Type 0} where
  -- The next step of a thread; `none` where it has to wait for the mutex, has returned, or takes the
  -- front of an empty deque, which is undefined.
  unfoldable pub advance : Thread M H → Shared M H → Option (Thread M H × Shared M H)
  advance (locks o) s = elim s.locked [
    | true ↦ none
    | false ↦ some (tests o, record s { locked = true; acquired = s.acquired ++ o ∷ [] })
  ]
  advance (tests (pushes m)) s = elim s.handlers [
    | [] ↦ some (appends_message m, s)
    | h ∷ hs ↦ some (reads_handler m, s)
  ]
  advance (tests (pops h)) s = elim s.messages [
    | [] ↦ some (appends_handler h, s)
    | m ∷ ms ↦ some (reads_message h, s)
  ]
  advance (appends_message m) s = some (unlocks none, record s { messages = s.messages ++ m ∷ [] })
  advance (appends_handler h) s = some (unlocks none, record s { handlers = s.handlers ++ h ∷ [] })
  advance (reads_handler m) s = elim s.handlers [
    | [] ↦ none
    | h ∷ hs ↦ some (removes_handler (record { handler = h; message = m }), s)
  ]
  advance (reads_message h) s = elim s.messages [
    | [] ↦ none
    | m ∷ ms ↦ some (removes_message (record { handler = h; message = m }), s)
  ]
  advance (removes_handler c) s = elim s.handlers [
    | [] ↦ none
    | h ∷ hs ↦ some (unlocks (some c), record s { handlers = hs })
  ]
  advance (removes_message c) s = elim s.messages [
    | [] ↦ none
    | m ∷ ms ↦ some (unlocks (some c), record s { messages = ms })
  ]
  advance (unlocks none) s = some (returned, record s { locked = false })
  advance (unlocks (some c)) s = some (posts c, record s { locked = false })
  advance (posts c) s = some (returned, record s { posted = s.posted ++ c ∷ [] })
  advance returned s = none

  -- A new queue, and threads that are about to make their calls.
  abbrev pub start : List (Op M H) → Running M H
  start os = record {
    shared = record { locked = false; messages = []; handlers = []; posted = []; acquired = [] };
    threads = map locks os;
  }

  -- Any thread takes its next step.
  pub data Step (s : Running M H) : Running M H → Type 0 where
    turn :
        (xs ys : List (Thread M H)) (t t' : Thread M H) (shared : Shared M H)
        → s.threads ≡ xs ++ t ∷ ys
        → advance t s.shared ≡ some (t', shared)
        → Step s (record { shared = shared; threads = xs ++ t' ∷ ys })

  pub data Reach (s : Running M H) : Running M H → Type 0 where
    here : Reach s s
    next : {t u : Running M H} → Reach s t → Step t u → Reach s u
