-- ===== src/Queue/Threads.antt =====
-- Several threads on one queue: what they do together, beside the calls made one after the other.
use mathlib.Core.List.{Perm}
use mathlib.Core.List.Perm
use mathlib.Core.Path.{subst, transport}
use boost_dbus.Common.{
  Bool-cases, true, some, ◌⊎◌, inl, inr, false, ◌≡◌, refl, sym, ap, ◌∙◌, List, [], ◌∷◌, ◌++◌, map,
}
use boost_dbus.Queue.{Closure, empty, Op, run}
use boost_dbus.Queue.Fifo.{queue, pushed, popped, all_messages, all_handlers, run_fifo}
use boost_dbus.Queue.Mutex.{
  advance, Thread, locks, Shared, Running, start, Step, turn, Reach, here, next,
}
use boost_dbus.Queue.Linked.{
  AllCan, each, each-append, flying, pending, inside, settle, Owner, Linked,
}
use boost_dbus.Queue.Holder.{each-inside, advance-Can}
use boost_dbus.Queue.Advance.{After, advance-After}

module _ {M H : Type 0} where
  abbrev Inv : List (Op M H) → Running M H → Type 0
  Inv os s =
      Linked os s.shared (each inside s.threads) (each flying s.threads) (each pending s.threads)

  map-inside : (os : List (Op M H)) → each inside (map locks os) ≡ []
  map-inside [] = refl
  map-inside (o ∷ os) = map-inside os

  map-flying : (os : List (Op M H)) → each flying (map locks os) ≡ []
  map-flying [] = refl
  map-flying (o ∷ os) = map-flying os

  map-pending : (os : List (Op M H)) → each pending (map locks os) ≡ os
  map-pending [] = refl
  map-pending (o ∷ os) = ap (◌∷◌ o) (map-pending os)

  start-Inv : (os : List (Op M H)) → Inv os (start os)
  unfolding run
  start-Inv os = record {
    log = [];
    owner = map-inside os;
    able = subst (λ ts. AllCan ts [] []) (sym (map-inside os)) tt;
    settled = ap (λ ts. settle ts (queue [] [] [])) (map-inside os);
    accounted = subst (λ cs. Perm cs []) (sym (map-flying os)) Perm.nil;
    made = subst (λ l. Perm l os) (sym (map-pending os)) (Perm.refl os);
  }

  -- The lists of a state in which one thread is singled out.
  abbrev Around :
      List (Op M H)
      → Shared M H
      → (xs : List (Thread M H)) → Thread M H
      → List (Thread M H)
      → Type 0
  Around os s xs t ys =
      Linked os s (each inside xs ++ (inside t ++ each inside ys))
        (each flying xs ++ (flying t ++ each flying ys))
        (each pending xs ++ (pending t ++ each pending ys))

  Inv-Around :
      (os : List (Op M H)) (s : Shared M H) (xs : List (Thread M H)) (t : Thread M H)
      → (ys : List (Thread M H))
      → Inv os (record { shared = s; threads = xs ++ t ∷ ys }) ≡ Around os s xs t ys
  Inv-Around os s xs t ys =
      rw (each-append inside xs t ys, each-append flying xs t ys, each-append pending xs t ys) refl

  Step-Inv : {s u : Running M H} → (os : List (Op M H)) → Step s u → Inv os s → Inv os u
  Step-Inv {s} os (turn xs ys t t' after e f) i =
      let around =
        transport (Inv-Around os s.shared xs t ys)
          (subst (λ ts. Inv os (record { shared = s.shared; threads = ts })) e i) in
      transport (sym (Inv-Around os after xs t' ys)) (
        subst
          (After os (each inside xs) (each inside ys) (each flying xs) (each flying ys)
            (each pending xs) (each pending ys))
          f
          (advance-After os (each inside xs) (each inside ys) (each flying xs) (each flying ys)
            (each pending xs) (each pending ys) t s.shared.locked s.shared.messages
            s.shared.handlers s.shared.posted s.shared.acquired around))

  Reach-Inv : (os : List (Op M H)) → {s : Running M H} → Reach (start os) s → Inv os s
  Reach-Inv os here = start-Inv os
  Reach-Inv os (next r st) = Step-Inv os st (Reach-Inv os r)

  -- What holds while the mutex is free.
  abbrev pub Quiet : Shared M H → List (Closure M H) → Type 0
  Quiet s flown =
      (log : List (Closure M H)) × (queue s.messages s.handlers log ≡ run s.acquired empty)
      × Perm (s.posted ++ flown) log
      × (map (λ c. c.message) log ++ s.messages ≡ pushed s.acquired)
      × (map (λ c. c.handler) log ++ s.handlers ≡ popped s.acquired)

  -- A thread is inside its critical section and can take its next step.
  abbrev pub Held : Running M H → Type 0
  Held s =
      (xs : List (Thread M H)) × (t : Thread M H) × (ys : List (Thread M H)) × (s.threads
        ≡ xs ++ t ∷ ys)
      × (inside t ≡ t ∷ [])
      × ((after : Thread M H × Shared M H) × (advance t s.shared ≡ some after))

  Inv-Quiet :
      (os : List (Op M H)) (s : Running M H)
      → Inv os s
      → each inside s.threads ≡ []
      → Quiet s.shared (each flying s.threads)
  Inv-Quiet os s i outside =
      let q = queue s.shared.messages s.shared.handlers i.log in
      let same : q ≡ run s.shared.acquired empty =
        ap (λ ts. settle ts q) (sym outside) ∙ i.settled in
      let (messages, handlers, matched) = run_fifo s.shared.acquired in
      (i.log, same, i.accounted, ap all_messages same ∙ messages, ap all_handlers same ∙ handlers)

  Inv-Held :
      (os : List (Op M H)) (s : Running M H)
      → Inv os s
      → (t : Thread M H) × (each inside s.threads ≡ t ∷ [])
      → Held s
  Inv-Held os s i (t, e) =
      let (xs, ys, f, g) = each-inside s.threads t e in
      let can = subst (λ ts. AllCan ts s.shared.messages s.shared.handlers) e i.able in
      (
        xs,
        t,
        ys,
        f,
        g,
        advance-Can t s.shared.locked s.shared.messages s.shared.handlers s.shared.posted
            s.shared.acquired g can.0,
      )

  -- Threads make the calls `os` on a new queue, each step of each thread at any time. At every time
  -- the calls that have taken the mutex, with those that have not yet, are `os` in some order. While
  -- the mutex is held, a thread is inside its critical section, and its next step is defined. While
  -- the mutex is free, the two deques are what the calls that have taken it leave when they are made
  -- one after the other in that order, and the closures that those calls post are, in some order, what
  -- has been posted and what threads are about to post: none is lost, made up or posted twice. In
  -- the order in which the mutex was taken, the messages of these closures and then the ones that wait
  -- are the messages pushed, and so for the handlers, so that the n-th handler gets the n-th message.
  pub Reach-sequential :
      (os : List (Op M H))
      → {s : Running M H} → Reach (start os) s
      → Perm (s.shared.acquired ++ each pending s.threads) os
        × (((s.shared.locked ≡ true) × Held s)
            ⊎ ((s.shared.locked ≡ false) × Quiet s.shared (each flying s.threads)))
  Reach-sequential os {s} r =
      let i = Reach-Inv os r in
      (
        i.made,
        elim (Bool-cases s.shared.locked) [
          | inl held ↦
              inl
                (held, Inv-Held os s i (subst (λ b. Owner b (each inside s.threads)) held i.owner))
          | inr free ↦
              inr
                (free, Inv-Quiet os s i (subst (λ b. Owner b (each inside s.threads)) free i.owner))
        ],
      )
