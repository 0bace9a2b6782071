-- ===== src/Filter/Offered.antt =====
-- include/dbus/filter.hpp: which messages a filter hands on, and in which order.
use boost_dbus.Common.{
  ◌≡◌, refl, ap, ◌∙◌, inl, inr, Bool, false, List, [], ◌∷◌, Option, none, some, if◌then◌else◌,
  Option-cases, Bool-cases,
}
use boost_dbus.Connection.{Connection}
use boost_dbus.Queue.{Queue, Op, pushes, pops, empty, push, async_pop, step, run}
use boost_dbus.Queue.Fifo.{all_messages, all_handlers, pushed, popped, IsMatched, run_fifo}
use boost_dbus.Filter.{
  Filter, Event, offers, dispatches, offer, filter_callback, async_dispatch, take_event,
  take_events, new_filter, handled, not_yet_handled,
}

abbrev pub accepts : {M : Type 0} → (M → Option Bool) → M → Bool
accepts p m = elim (p m) [ none ↦ false | some b ↦ b ]

module _ {M H : Type 0} where
  -- The messages offered that the predicate accepts, in order.
  abbrev pub accepted : (M → Option Bool) → List (Event M H) → List M
  accepted p [] = []
  accepted p (offers m ∷ es) = if accepts p m then m ∷ accepted p es else accepted p es
  accepted p (dispatches h ∷ es) = accepted p es

  abbrev pub dispatched : List (Event M H) → List H
  dispatched [] = []
  dispatched (offers m ∷ es) = dispatched es
  dispatched (dispatches h ∷ es) = h ∷ dispatched es

  -- The calls on the queue that the events make.
  abbrev ops : (M → Option Bool) → List (Event M H) → List (Op M H)
  ops p [] = []
  ops p (offers m ∷ es) = if accepts p m then pushes m ∷ ops p es else ops p es
  ops p (dispatches h ∷ es) = pops h ∷ ops p es

  pushed-ops : (p : M → Option Bool) (es : List (Event M H)) → pushed (ops p es) ≡ accepted p es
  pushed-ops p [] = refl
  pushed-ops p (offers m ∷ es) = elim (Bool-cases (accepts p m)) [
    | inl takes ↦ rw (takes) (ap (◌∷◌ m) (pushed-ops p es))
    | inr leaves ↦ rw (leaves) (pushed-ops p es)
  ]
  pushed-ops p (dispatches h ∷ es) = pushed-ops p es

  popped-ops : (p : M → Option Bool) (es : List (Event M H)) → popped (ops p es) ≡ dispatched es
  popped-ops p [] = refl
  popped-ops p (offers m ∷ es) = elim (Bool-cases (accepts p m)) [
    | inl takes ↦ rw (takes) (popped-ops p es)
    | inr leaves ↦ rw (leaves) (popped-ops p es)
  ]
  popped-ops p (dispatches h ∷ es) = ap (◌∷◌ h) (popped-ops p es)

  -- A filter answers HANDLED and queues the message where its predicate accepts it, and otherwise, also
  -- where the predicate throws, answers NOT_YET_HANDLED and stays as it is.
  pub filter_callback-accepts :
      (m : M) (f : Filter M H)
      → filter_callback m f ≡ (
          if accepts f.predicate m
          then (handled, record f { queue = push m f.queue })
          else (not_yet_handled, f))
  unfolding filter_callback offer
  filter_callback-accepts m f = elim (Option-cases (f.predicate m)) [
    | inl throws ↦ rw (throws, filter_callback, accepts) refl
    | inr (b, e) ↦ elim (Bool-cases b) [
      | inl takes ↦ rw (e, filter_callback, accepts) (rw (takes) refl)
      | inr leaves ↦ rw (e, filter_callback, accepts) (rw (leaves) refl)
    ]
  ]

  take_events-run :
      (es : List (Event M H)) (c : Connection) (p : M → Option Bool) (q : Queue M H)
      → (take_events es (record { connection = c; predicate = p; queue = q })).queue
        ≡ run (ops p es) q
  unfolding take_events take_event async_dispatch run step
  take_events-run [] c p q = refl
  take_events-run (offers m ∷ es) c p q =
      let f : Filter M H = record { connection = c; predicate = p; queue = q } in
      elim (Bool-cases (accepts p m)) [
        | inl takes ↦
            ap (λ r. (take_events es r.1).queue) (filter_callback-accepts m f)
            ∙ rw (takes) (take_events-run es c p (push m q))
        | inr leaves ↦
            ap (λ r. (take_events es r.1).queue) (filter_callback-accepts m f)
            ∙ rw (leaves) (take_events-run es c p q)
      ]
  take_events-run (dispatches h ∷ es) c p q = take_events-run es _ p (async_pop h q)

  -- After any offers and dispatches on a new filter: the messages handed to handlers, then those that
  -- wait, are the messages offered that the predicate accepts, in order; so too for the handlers of the
  -- dispatches; and messages and handlers never both wait.
  pub take_events_fifo :
      (c : Connection) (p : M → Option Bool) (es : List (Event M H))
      → let q = (take_events es (new_filter c p)).queue in
        (all_messages q ≡ accepted p es) × (all_handlers q ≡ dispatched es) × IsMatched q
  take_events_fifo c p es =
      let e = take_events-run es c p empty in
      let (ms, hs, matched) = run_fifo (ops p es) in
      (
        ap all_messages e ∙ ms ∙ pushed-ops p es,
        ap all_handlers e ∙ hs ∙ popped-ops p es,
        rw (e) matched,
      )
