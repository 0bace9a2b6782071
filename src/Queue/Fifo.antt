-- ===== src/Queue/Fifo.antt =====
-- include/dbus/detail/queue.hpp: the order of messages and handlers.
use boost_dbus.Common.{
  ◌≡◌, refl, sym, ap, ◌∙◌, ◌⊎◌, inl, inr, List, [], ◌∷◌, ◌++◌, map, append-nil, append_assoc,
  map-append, arith,
}
use boost_dbus.Queue.{Closure, Queue, empty, push, async_pop, Op, pushes, pops, step, run}

module _ {M H : Type 0} where
  abbrev pub pushed : List (Op M H) → List M
  pushed [] = []
  pushed (pushes m ∷ os) = m ∷ pushed os
  pushed (pops h ∷ os) = pushed os

  abbrev pub popped : List (Op M H) → List H
  popped [] = []
  popped (pushes m ∷ os) = popped os
  popped (pops h ∷ os) = h ∷ popped os

  -- The messages and the handlers that the queue has seen, in order: those that have met, then
  -- those that wait.
  abbrev pub all_messages : Queue M H → List M
  all_messages q = map (λ c. c.message) q.posted ++ q.messages

  abbrev pub all_handlers : Queue M H → List H
  all_handlers q = map (λ c. c.handler) q.posted ++ q.handlers

  -- Nothing waits that could have been matched.
  abbrev pub IsMatched : Queue M H → Type 0
  IsMatched q = (q.messages ≡ []) ⊎ (q.handlers ≡ [])

  pub step-IsMatched : (o : Op M H) (q : Queue M H) → IsMatched q → IsMatched (step o q)
  unfolding step push async_pop
  step-IsMatched (pushes m) q h = ground arith
  step-IsMatched (pops h) q i = ground arith

  -- One step of either kind, on the three lists.
  abbrev pub queue : List M → List H → List (Closure M H) → Queue M H
  queue ms hs ps = record { messages = ms; handlers = hs; posted = ps }

  pub push_kept :
      (m : M) (ms : List M) (hs : List H) (ps : List (Closure M H))
      → IsMatched (queue ms hs ps)
      → (all_messages (push m (queue ms hs ps)) ≡ all_messages (queue ms hs ps) ++ m ∷ [])
        × (all_handlers (push m (queue ms hs ps)) ≡ all_handlers (queue ms hs ps))
  unfolding push
  push_kept m ms [] ps i = (sym (append_assoc (map (λ c. c.message) ps) ms (m ∷ [])), refl)
  push_kept m ms (h ∷ hs) ps (inr e) = absurd (cc)
  push_kept m ms (h ∷ hs) ps (inl e) =
      (simp (e, append-nil, map-append), simp (map-append, append_assoc))

  pub pop_kept :
      (h : H) (ms : List M) (hs : List H) (ps : List (Closure M H))
      → IsMatched (queue ms hs ps)
      → (all_messages (async_pop h (queue ms hs ps)) ≡ all_messages (queue ms hs ps))
        × (all_handlers (async_pop h (queue ms hs ps)) ≡ all_handlers (queue ms hs ps) ++ h ∷ [])
  unfolding async_pop
  pop_kept h [] hs ps i = (refl, sym (append_assoc (map (λ c. c.handler) ps) hs (h ∷ [])))
  pop_kept h (m ∷ ms) hs ps (inl e) = absurd (cc)
  pop_kept h (m ∷ ms) hs ps (inr e) =
      (simp (map-append, append_assoc), simp (e, append-nil, map-append))

  run-IsMatched : (os : List (Op M H)) (q : Queue M H) → IsMatched q → IsMatched (run os q)
  unfolding run
  run-IsMatched [] q i = i
  run-IsMatched (o ∷ os) q i = run-IsMatched os (step o q) (step-IsMatched o q i)

  run-all_messages :
      (os : List (Op M H)) (q : Queue M H)
      → IsMatched q
      → all_messages (run os q) ≡ all_messages q ++ pushed os
  unfolding run step
  run-all_messages [] q i = sym (append-nil (all_messages q))
  run-all_messages (pushes m ∷ os) q i =
      run-all_messages os (push m q) (step-IsMatched (pushes m) q i)
      ∙ ap (λ l. l ++ pushed os) (push_kept m q.messages q.handlers q.posted i).0
      ∙ append_assoc (all_messages q) (m ∷ []) (pushed os)
  run-all_messages (pops h ∷ os) q i =
      run-all_messages os (async_pop h q) (step-IsMatched (pops h) q i)
      ∙ ap (λ l. l ++ pushed os) (pop_kept h q.messages q.handlers q.posted i).0

  run-all_handlers :
      (os : List (Op M H)) (q : Queue M H)
      → IsMatched q
      → all_handlers (run os q) ≡ all_handlers q ++ popped os
  unfolding run step
  run-all_handlers [] q i = sym (append-nil (all_handlers q))
  run-all_handlers (pushes m ∷ os) q i =
      run-all_handlers os (push m q) (step-IsMatched (pushes m) q i)
      ∙ ap (λ l. l ++ popped os) (push_kept m q.messages q.handlers q.posted i).1
  run-all_handlers (pops h ∷ os) q i =
      run-all_handlers os (async_pop h q) (step-IsMatched (pops h) q i)
      ∙ ap (λ l. l ++ popped os) (pop_kept h q.messages q.handlers q.posted i).1
      ∙ append_assoc (all_handlers q) (h ∷ []) (popped os)

  -- After any calls on a new queue: the messages of the posted closures, then those that wait, are
  -- the messages pushed, in order; so too for the handlers; and messages and handlers never
  -- both wait. So the n-th handler gets the n-th message.
  pub run_fifo :
      (os : List (Op M H))
      → (all_messages (run os empty) ≡ pushed os)
        × (all_handlers (run os empty) ≡ popped os)
        × IsMatched (run os empty)
  run_fifo os = (
    run-all_messages os empty (inl refl),
    run-all_handlers os empty (inl refl),
    run-IsMatched os empty (inl refl),
  )
