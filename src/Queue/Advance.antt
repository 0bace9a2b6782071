-- ===== src/Queue/Advance.antt =====
-- Several threads on one queue: what one step of a thread keeps.

use mathlib.Core.Path.{transport}
use boost_dbus.Common.{
  Bool, true, false, refl, sym, ap, ap₂, ◌∙◌, List, [], ◌∷◌, ◌++◌, Option, none, some,
}
use boost_dbus.Queue.{Closure, empty, push, async_pop, Op, pushes, pops, step}
use boost_dbus.Queue.Fifo.{queue}
use boost_dbus.Queue.Mutex.{
  Thread, locks, tests, appends_message, reads_handler, appends_handler, reads_message,
  removes_handler, removes_message, posts, unlocks, returned, Shared, advance,
}
use boost_dbus.Queue.Linked.{
  AllCan, nothing, sooner, also, flying, pending, inside, settle, Linked, run-last, settle-alone,
  Owner-inside, shared, within,
}

module _ {M H : Type 0} (os : List (Op M H)) (ls rs : List (Thread M H))
    (fs gs : List (Closure M H)) (ps qs : List (Op M H)) where
  abbrev pub After : Option (Thread M H × Shared M H) → Type 0
  After none = Unit {0}
  After (some (t, s)) =
      Linked os s (ls ++ (inside t ++ rs)) (fs ++ (flying t ++ gs)) (ps ++ (pending t ++ qs))

  locks-After :
      (o : Op M H) (l : Bool) (ms : List M) (hs : List H) (cs : List (Closure M H))
      → (acq : List (Op M H))
      → Linked os (shared l ms hs cs acq) (ls ++ rs) (fs ++ gs) (ps ++ o ∷ qs)
      → After (advance (locks o) (shared l ms hs cs acq))
  unfolding advance
  locks-After o true ms hs cs acq i = tt
  locks-After o false ms hs cs acq i =
      let (a, b) = nothing ls rs i.owner in
      let outside = ap₂ (λ x y. settle (x ++ y) (queue ms hs i.log)) a b in
      record {
        log = i.log;
        able = transport (sym (ap₂ (λ x y. AllCan (x ++ tests o ∷ y) ms hs) a b)) (tt, tt);
        owner = (tests o, ap₂ (λ x y. x ++ tests o ∷ y) a b);
        settled =
            settle-alone ls rs (tests o) (queue ms hs i.log) a b
            ∙ ap (step o) (sym outside ∙ i.settled)
            ∙ sym (run-last acq o empty);
        accounted = i.accounted;
        made = sooner acq ps qs os o i.made;
      }

  -- A closure that a critical section leaves behind is in flight.
  unlocks-After :
      (c : Option (Closure M H)) (l : Bool) (ms : List M) (hs : List H)
      → (cs : List (Closure M H)) (acq : List (Op M H))
      → Linked os (shared l ms hs cs acq) (ls ++ unlocks c ∷ rs) (fs ++ gs) (ps ++ qs)
      → After (advance (unlocks c) (shared l ms hs cs acq))
  unfolding advance
  unlocks-After none l ms hs cs acq i =
      let (on, a, b) = Owner-inside l ls rs (unlocks none) i.owner in
      record {
        log = i.log;
        able = transport (sym (ap₂ (λ x y. AllCan (x ++ y) ms hs) a b)) tt;
        owner = ap₂ (λ x y. x ++ y) a b;
        settled =
            ap₂ (λ x y. settle (x ++ y) (queue ms hs i.log)) a b
            ∙ sym (settle-alone ls rs (unlocks none) (queue ms hs i.log) a b)
            ∙ i.settled;
        accounted = i.accounted;
        made = i.made;
      }
  unlocks-After (some c) l ms hs cs acq i =
      let (on, a, b) = Owner-inside l ls rs (unlocks (some c)) i.owner in
      record {
        log = i.log ++ c ∷ [];
        able = transport (sym (ap₂ (λ x y. AllCan (x ++ y) ms hs) a b)) tt;
        owner = ap₂ (λ x y. x ++ y) a b;
        settled =
            ap₂ (λ x y. settle (x ++ y) (queue ms hs (i.log ++ c ∷ []))) a b
            ∙ sym (settle-alone ls rs (unlocks (some c)) (queue ms hs i.log) a b)
            ∙ i.settled;
        accounted = also cs fs gs i.log c i.accounted;
        made = i.made;
      }

  pub advance-After :
      (t : Thread M H) (l : Bool) (ms : List M) (hs : List H) (cs : List (Closure M H))
      → (acq : List (Op M H))
      → Linked os
          (shared l ms hs cs acq)
          (ls ++ (inside t ++ rs))
          (fs ++ (flying t ++ gs))
          (ps ++ (pending t ++ qs))
      → After (advance t (shared l ms hs cs acq))
  unfolding advance step push async_pop
  advance-After (locks o) l ms hs cs acq i = locks-After o l ms hs cs acq i
  advance-After (tests (pushes m)) l ms [] cs acq i =
      within os ls rs (tests (pushes m)) (appends_message m) l ms ms [] [] cs (fs ++ gs) acq
        (ps ++ qs) tt (λ log. refl) i
  advance-After (tests (pushes m)) l ms (h ∷ hs) cs acq i =
      within os ls rs (tests (pushes m)) (reads_handler m) l ms ms (h ∷ hs) (h ∷ hs) cs (fs ++ gs)
        acq (ps ++ qs) tt (λ log. refl) i
  advance-After (tests (pops h)) l [] hs cs acq i =
      within os ls rs (tests (pops h)) (appends_handler h) l [] [] hs hs cs (fs ++ gs) acq
        (ps ++ qs) tt (λ log. refl) i
  advance-After (tests (pops h)) l (m ∷ ms) hs cs acq i =
      within os ls rs (tests (pops h)) (reads_message h) l (m ∷ ms) (m ∷ ms) hs hs cs (fs ++ gs) acq
        (ps ++ qs) tt (λ log. refl) i
  advance-After (appends_message m) l ms hs cs acq i =
      within os ls rs (appends_message m) (unlocks none) l ms (ms ++ m ∷ []) hs hs cs (fs ++ gs) acq
        (ps ++ qs) tt (λ log. refl) i
  advance-After (appends_handler h) l ms hs cs acq i =
      within os ls rs (appends_handler h) (unlocks none) l ms ms hs (hs ++ h ∷ []) cs (fs ++ gs) acq
        (ps ++ qs) tt (λ log. refl) i
  advance-After (reads_handler m) l ms [] cs acq i = tt
  advance-After (reads_handler m) l ms (h ∷ hs) cs acq i =
      within os ls rs (reads_handler m) (removes_handler (record { handler = h; message = m })) l ms
        ms (h ∷ hs) (h ∷ hs) cs (fs ++ gs) acq (ps ++ qs) tt (λ log. refl) i
  advance-After (reads_message h) l [] hs cs acq i = tt
  advance-After (reads_message h) l (m ∷ ms) hs cs acq i =
      within os ls rs (reads_message h) (removes_message (record { handler = h; message = m })) l
        (m ∷ ms) (m ∷ ms) hs hs cs (fs ++ gs) acq (ps ++ qs) tt (λ log. refl) i
  advance-After (removes_handler c) l ms [] cs acq i = tt
  advance-After (removes_handler c) l ms (h ∷ hs) cs acq i =
      within os ls rs (removes_handler c) (unlocks (some c)) l ms ms (h ∷ hs) hs cs (fs ++ gs) acq
        (ps ++ qs) tt (λ log. refl) i
  advance-After (removes_message c) l [] hs cs acq i = tt
  advance-After (removes_message c) l (m ∷ ms) hs cs acq i =
      within os ls rs (removes_message c) (unlocks (some c)) l (m ∷ ms) ms hs hs cs (fs ++ gs) acq
        (ps ++ qs) tt (λ log. refl) i
  advance-After (unlocks c) l ms hs cs acq i = unlocks-After c l ms hs cs acq i
  advance-After (posts c) l ms hs cs acq i = record {
    log = i.log;
    owner = i.owner;
    able = i.able;
    settled = i.settled;
    accounted = sooner cs fs gs i.log c i.accounted;
    made = i.made;
  }
  advance-After returned l ms hs cs acq i = tt
