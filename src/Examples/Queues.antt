-- ===== src/Examples/Queues.antt =====
-- A queue of messages 1, 2, … and handlers 10, 20, ….
use mathlib.Core.List.{Perm}
use boost_dbus.Common.{◌⊎◌, ℕ, ◌≡◌, refl, Bool, true, false, List, [], ◌∷◌, ◌++◌, none, some}
use boost_dbus.Queue.{Closure, Op, pushes, pops}
use boost_dbus.Queue.Mutex.{
  Thread, locks, tests, appends_handler, reads_handler, removes_handler, unlocks, posts, returned,
  Shared, advance, Running, start, turn, Reach, here, next,
}
use boost_dbus.Queue.Linked.{each, flying, pending}
use boost_dbus.Queue.Threads.{Held, Quiet, Reach-sequential}

abbrev calls : List (Op ℕ ℕ)
calls = pops 10 ∷ pushes 1 ∷ []

abbrev met : Closure ℕ ℕ
met = record { handler = 10; message = 1 }

abbrev queue_of : Bool → List ℕ → List (Op ℕ ℕ) → Shared ℕ ℕ
queue_of locked handlers acquired = record {
  locked = locked;
  messages = [];
  handlers = handlers;
  posted = [];
  acquired = acquired;
}

abbrev both : Shared ℕ ℕ → Thread ℕ ℕ → Thread ℕ ℕ → Running ℕ ℕ
both s t u = record { shared = s; threads = t ∷ u ∷ [] }

-- A handler waits while the other thread asks for the mutex.
waits :
    Reach (start calls) (both (queue_of false (10 ∷ []) (pops 10 ∷ [])) returned (locks (pushes 1)))
unfolding advance
waits =
    let other = locks (pushes 1) ∷ [] in
    let s1 = queue_of true [] (pops 10 ∷ []) in
    let r1 = next here (turn [] other (locks (pops 10)) (tests (pops 10)) s1 refl refl) in
    let r2 = next r1 (turn [] other (tests (pops 10)) (appends_handler 10) s1 refl refl) in
    let s3 = queue_of true (10 ∷ []) (pops 10 ∷ []) in
    let r3 = next r2 (turn [] other (appends_handler 10) (unlocks none) s3 refl refl) in
    next r3
      (turn [] other (unlocks none) returned (queue_of false (10 ∷ []) (pops 10 ∷ [])) refl refl)

-- The closure is in flight: the mutex is free, and nothing is posted yet.
abbrev in_flight : Running ℕ ℕ
in_flight = both (queue_of false [] calls) returned (posts met)

flies : Reach (start calls) in_flight
unfolding advance
flies =
    let first = returned ∷ [] in
    let s1 = queue_of true (10 ∷ []) calls in
    let r1 = next waits (turn first [] (locks (pushes 1)) (tests (pushes 1)) s1 refl refl) in
    let r2 = next r1 (turn first [] (tests (pushes 1)) (reads_handler 1) s1 refl refl) in
    let r3 = next r2 (turn first [] (reads_handler 1) (removes_handler met) s1 refl refl) in
    let r4 = next r3 (
      turn first [] (removes_handler met) (unlocks (some met)) (queue_of true [] calls) refl
        refl) in
    next r4 (turn first [] (unlocks (some met)) (posts met) (queue_of false [] calls) refl refl)

Reach-sequential_example :
    Perm (calls ++ each pending in_flight.threads) calls
    × (((false ≡ true) × Held in_flight)
        ⊎ ((false ≡ false) × Quiet in_flight.shared (each flying in_flight.threads)))
Reach-sequential_example = Reach-sequential calls flies
