-- ===== src/System/Owed.antt =====
-- include/dbus/filter.hpp and include/dbus/detail/watch_timeout.hpp: every message that a connection
-- receives is in its mailbox, once it is dispatched.
use boost_dbus.Common.{
  ℕ, zero, suc, ◌≡◌, refl, sym, ap, ◌∙◌, ◌⊎◌, inl, inr, Bool, List, [], ◌∷◌, ◌++◌,
}
use boost_dbus.Connection.{dispatch_handler}
use boost_dbus.System.{
  Delivery, Link, LinkLaws, World, Event, waits, sends, arrives, runs, begun, dispatch, run_posted,
  run_all, happen, happen_all, offered,
}
use boost_dbus.System.Mailboxes.{
  Mailbox, mailboxes, deliver, hand, AllMatched, hand-deliver, mailboxes-offered,
  mailboxes-dispatch_at,
}

pub List-cases : {A : Type 0} (xs : List A) → (xs ≡ []) ⊎ ((y : A) × (ys : List A) × (xs ≡ y ∷ ys))
List-cases [] = inl refl
List-cases (y ∷ ys) = inr (y, ys, refl)

module _ {M H : Type 0} where
  abbrev pub delivers : List (Delivery M) → List (ℕ × Mailbox M H) → List (ℕ × Mailbox M H)
  delivers [] bs = bs
  delivers (d ∷ ds) bs = delivers ds (deliver d bs)

  delivers-append :
      (ds : List (Delivery M)) (d : Delivery M) (bs : List (ℕ × Mailbox M H))
      → delivers (ds ++ d ∷ []) bs ≡ deliver d (delivers ds bs)
  delivers-append [] d bs = refl
  delivers-append (e ∷ ds) d bs = delivers-append ds d (deliver e bs)

  hand-delivers :
      (a : ℕ) (h : H) (ds : List (Delivery M)) (bs : List (ℕ × Mailbox M H))
      → delivers ds (hand a h bs) ≡ hand a h (delivers ds bs)
  hand-delivers a h [] bs = refl
  hand-delivers a h (d ∷ ds) bs =
      ap (delivers ds) (sym (hand-deliver a h d bs)) ∙ hand-delivers a h ds (deliver d bs)

  -- What an event means for the mailboxes: a message is in its mailbox as soon as it arrives.
  abbrev pub meant : Event M H → List (ℕ × Mailbox M H) → List (ℕ × Mailbox M H)
  meant (waits a h) bs = hand a h bs
  meant (sends m h) bs = bs
  meant (arrives d) bs = deliver d bs
  meant runs bs = bs

  abbrev pub meant_all : List (Event M H) → List (ℕ × Mailbox M H) → List (ℕ × Mailbox M H)
  meant_all [] bs = bs
  meant_all (e ∷ es) bs = meant_all es (meant e bs)

module _ {M H : Type 0} {l : Link M} (laws : LinkLaws l) where
  open laws use {waiting}

  -- The mailboxes when all that waits is delivered.
  abbrev pub owed : World H l → List (ℕ × Mailbox M H)
  owed w = delivers (waiting w.conn) (mailboxes w.filters)

  pub run_posted-owed :
      (w : World H l)
      → AllMatched w.filters
      → (owed (run_posted l w) ≡ owed w) × AllMatched (run_posted l w).filters
  unfolding run_posted dispatch_handler dispatch offered
  run_posted-owed w i =
      elim w.pending
        as (λ p.
          (owed (run_posted l (record w { pending = p })) ≡ owed w)
          × AllMatched (run_posted l (record w { pending = p })).filters) [
            | zero ↦ (refl, i)
            | suc p ↦ elim (List-cases (waiting w.conn)) [
              | inl nothing ↦
                  let (e, f) = laws.takes_nothing w.conn nothing in rw (e, f, nothing) (refl, i)
              | inr (d, ds, some_wait) ↦
                  let (e, f) = laws.takes w.conn d ds some_wait in
                  let (same, j) = mailboxes-offered d w.filters i in
                  rw (e, f, some_wait) (ap (delivers ds) same, j)
            ]
          ]

  happen-owed :
      (c : M → Bool) (e : Event M H) (w : World H l)
      → AllMatched w.filters
      → (owed (happen l c e w) ≡ meant e (owed w)) × AllMatched (happen l c e w).filters
  unfolding happen begun
  happen-owed c (waits a h) w i =
      let (same, j) = mailboxes-dispatch_at a h w.connection w.filters i in
      (ap (delivers (waiting w.conn)) same ∙ hand-delivers a h (waiting w.conn) _, j)
  happen-owed c (sends m h) w i = (refl, i)
  happen-owed c (arrives d) w i = (
    ap (λ ds. delivers ds (mailboxes w.filters)) (laws.receives d w.conn)
        ∙ delivers-append (waiting w.conn) d (mailboxes w.filters),
    i,
  )
  happen-owed c runs w i = run_posted-owed w i

  pub happen_all-owed :
      (c : M → Bool) (es : List (Event M H)) (w : World H l)
      → AllMatched w.filters
      → (owed (happen_all l c es w) ≡ meant_all es (owed w))
        × AllMatched (happen_all l c es w).filters
  unfolding happen_all
  happen_all-owed c [] w i = (refl, i)
  happen_all-owed c (e ∷ es) w i =
      let (same, j) = happen-owed c e w i in
      let (rest, k) = happen_all-owed c es (happen l c e w) j in (rest ∙ ap (meant_all es) same, k)

  pub run_all-owed :
      (n : ℕ) (w : World H l)
      → AllMatched w.filters
      → (owed (run_all l n w) ≡ owed w) × AllMatched (run_all l n w).filters
  unfolding run_all
  run_all-owed zero w i = (refl, i)
  run_all-owed (suc n) w i =
      let (same, j) = run_posted-owed w i in
      let (rest, k) = run_all-owed n (run_posted l w) j in (rest ∙ same, k)
