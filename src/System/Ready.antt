-- ===== src/System/Ready.antt =====
-- include/dbus/detail/watch_timeout.hpp, with include/dbus/impl/connection.ipp: the dispatch handlers of
-- a connection go on until no message waits.
use boost_dbus.Common.{
  ℕ, zero, suc, ◌≤◌, ◌≡◌, ap, ◌∙◌, ◌⊎◌, inl, inr, Bool, true, false, List, [], ◌∷◌, length, arith,
}
use boost_dbus.Connection.{Connection, start, dispatch_handler, dispatch_status}
use boost_dbus.AsyncSend.{async_send}
use boost_dbus.System.{
  Delivery, Link, LinkLaws, World, Event, waits, sends, arrives, runs, dispatch_at, reported, begun,
  dispatch, run_posted, run_all, happen, happen_all,
}
use boost_dbus.System.Owed.{List-cases}
use boost_dbus.System.Injected.{
  dispatch_at-connection, async_send-connection, run_posted-connection,
}

module _ {M H : Type 0} {l : Link M} (laws : LinkLaws l) where
  open laws use {waiting}

  -- Where messages wait on a connection that was started, a dispatch handler is posted.
  abbrev pub IsReady : World H l → Type 0
  IsReady w = (w.connection.is_paused ≡ true) ⊎ (waiting w.conn ≡ []) ⊎ (1 ≤ w.pending)

  begun-IsReady :
      (c : Connection) (w : World H l)
      → (c ≡ w.connection) ⊎ (c ≡ start w.connection)
      → IsReady w
      → IsReady (begun l c w)
  unfolding begun start
  begun-IsReady c w how ready = ground arith

  run_posted-IsReady : (w : World H l) → IsReady w → IsReady (run_posted l w)
  unfolding run_posted dispatch_handler dispatch
  run_posted-IsReady w ready =
      elim w.pending
          as (λ p.
            IsReady (record w { pending = p })
            → IsReady (run_posted l (record w { pending = p }))) [
              | zero ↦ λ r. r
              | suc p ↦ λ r. elim (List-cases (waiting (l.dispatch w.conn).conn)) [
                | inl nothing ↦ inr (inl nothing)
                | inr (d, ds, left) ↦ inr (inr (rw (laws.remains w.conn d ds left) (omega arith)))
              ]
            ]
        ready

  happen-IsReady :
      (c : M → Bool) (e : Event M H) (w : World H l) → IsReady w → IsReady (happen l c e w)
  unfolding happen reported dispatch_status
  happen-IsReady c (waits a h) w r =
      begun-IsReady _ (record w { filters = (dispatch_at a h w.connection w.filters).1 })
        (dispatch_at-connection a h w.connection w.filters) r
  happen-IsReady c (sends m h) w r =
      begun-IsReady _
        (record w { sender = async_send c m h (record w.sender { connection = w.connection }) })
        (inr (async_send-connection c m h _)) r
  happen-IsReady c (arrives d) w r = elim r [
    | inl paused ↦ inl paused
    | inr (inl nothing) ↦ inr (inr (rw (laws.reports d w.conn nothing) (omega arith)))
    | inr (inr posted) ↦ inr (inr (omega (arith, posted)))
  ]
  happen-IsReady c runs w r = run_posted-IsReady w r

  pub happen_all-IsReady :
      (c : M → Bool) (es : List (Event M H)) (w : World H l)
      → IsReady w
      → IsReady (happen_all l c es w)
  unfolding happen_all
  happen_all-IsReady c [] w r = r
  happen_all-IsReady c (e ∷ es) w r =
      happen_all-IsReady c es (happen l c e w) (happen-IsReady c e w r)

  run_posted-takes :
      (w : World H l) (d : Delivery M) (ds : List (Delivery M))
      → waiting w.conn ≡ d ∷ ds
      → 1 ≤ w.pending
      → waiting (run_posted l w).conn ≡ ds
  unfolding run_posted dispatch_handler dispatch
  run_posted-takes w d ds some_wait =
      elim w.pending as (λ p. 1 ≤ p → waiting (run_posted l (record w { pending = p })).conn ≡ ds) [
        | zero ↦ λ none_posted. absurd (omega (arith, none_posted))
        | suc p ↦ λ posted. (laws.takes w.conn d ds some_wait).1
      ]

  run_posted-rests : (w : World H l) → waiting w.conn ≡ [] → waiting (run_posted l w).conn ≡ []
  unfolding run_posted dispatch_handler dispatch
  run_posted-rests w nothing =
      elim w.pending as (λ p. waiting (run_posted l (record w { pending = p })).conn ≡ []) [
        | zero ↦ nothing
        | suc p ↦ (laws.takes_nothing w.conn nothing).1
      ]

  run_all-rests : (n : ℕ) (w : World H l) → waiting w.conn ≡ [] → waiting (run_all l n w).conn ≡ []
  unfolding run_all
  run_all-rests zero w nothing = nothing
  run_all-rests (suc n) w nothing = run_all-rests n (run_posted l w) (run_posted-rests w nothing)

  -- A connection that is started, and ready, comes to rest: as many dispatch handlers as messages wait
  -- are enough.
  pub run_all-empties :
      (n : ℕ) (w : World H l)
      → w.connection.is_paused ≡ false
      → IsReady w
      → length (waiting w.conn) ≤ n
      → waiting (run_all l n w).conn ≡ []
  unfolding run_all
  run_all-empties zero w started ready enough = elim (List-cases (waiting w.conn)) [
    | inl nothing ↦ nothing
    | inr (d, ds, e) ↦ absurd (omega (arith, ap length e, enough))
  ]
  run_all-empties (suc n) w started ready enough = elim ready [
    | inl paused ↦ absurd (cc)
    | inr (inl nothing) ↦ run_all-rests n (run_posted l w) (run_posted-rests w nothing)
    | inr (inr posted) ↦ elim (List-cases (waiting w.conn)) [
      | inl nothing ↦ run_all-rests n (run_posted l w) (run_posted-rests w nothing)
      | inr (d, ds, e) ↦
          let left = run_posted-takes w d ds e posted in
          run_all-empties n (run_posted l w)
            (ap (λ c. c.is_paused) (run_posted-connection w) ∙ started)
            (run_posted-IsReady w (inr (inr posted)))
            (omega (arith, ap length left, ap length e, enough))
    ]
  ]
