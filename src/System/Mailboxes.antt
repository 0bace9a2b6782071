-- ===== src/System/Mailboxes.antt =====
-- include/dbus/filter.hpp: the filters of a connection, seen as mailboxes.
--
-- A mailbox forgets what a queue has matched already: it has the messages and the handlers that the
-- filter has seen, in order, of which the n-th belong together.
use boost_dbus.Common.{
  ℕ, ◌≡◌, refl, ap, ap₂, inl, inr, Bool, List, [], ◌∷◌, ◌++◌, All, some, ◌==◌, if◌then◌else◌,
  Bool-cases,
}
use boost_dbus.Connection.{Connection}
use boost_dbus.Queue.{push, pushes, pops, step}
use boost_dbus.Queue.Fifo.{
  all_messages, all_handlers, IsMatched, step-IsMatched, push_kept, pop_kept,
}
use boost_dbus.Filter.{Filter, async_dispatch}
use boost_dbus.Filter.Offered.{accepts}
use boost_dbus.Filter.Chain.{offer_all, passed_on, offer_all-first}
use boost_dbus.System.{Delivery, to_filters, to_call, offered, dispatch_at}

pub record Mailbox (M H : Type 0) : Type 0 where
  pub wants : M → Bool
  pub messages : List M
  pub handlers : List H

module _ {M H : Type 0} where
  abbrev pub mailbox : Filter M H → Mailbox M H
  mailbox f = record {
    wants = accepts f.predicate;
    messages = all_messages f.queue;
    handlers = all_handlers f.queue;
  }

  abbrev pub mailboxes : List (ℕ × Filter M H) → List (ℕ × Mailbox M H)
  mailboxes [] = []
  mailboxes ((a, f) ∷ fs) = (a, mailbox f) ∷ mailboxes fs

  -- A message goes to the first mailbox that wants it.
  abbrev pub put : M → List (ℕ × Mailbox M H) → List (ℕ × Mailbox M H)
  put m [] = []
  put m ((a, b) ∷ bs) =
      if b.wants m
      then (a, record b { messages = b.messages ++ m ∷ [] }) ∷ bs
      else (a, b) ∷ put m bs

  abbrev pub deliver : Delivery M → List (ℕ × Mailbox M H) → List (ℕ × Mailbox M H)
  deliver (to_filters m) bs = put m bs
  deliver (to_call p m) bs = bs

  -- A handler goes to the mailbox at an address.
  abbrev pub hand : ℕ → H → List (ℕ × Mailbox M H) → List (ℕ × Mailbox M H)
  hand a h [] = []
  hand a h ((c, b) ∷ bs) =
      if c == a
      then (c, record b { handlers = b.handlers ++ h ∷ [] }) ∷ bs
      else (c, b) ∷ hand a h bs

  abbrev pub AllMatched : List (ℕ × Filter M H) → Type 0
  AllMatched fs = All (λ e. IsMatched e.1.queue) fs

  hand-put :
      (a : ℕ) (h : H) (m : M) (bs : List (ℕ × Mailbox M H))
      → hand a h (put m bs) ≡ put m (hand a h bs)
  hand-put a h m [] = refl
  hand-put a h m ((c, b) ∷ bs) = elim (Bool-cases (b.wants m)) [
    | inl e ↦ elim (Bool-cases (c == a)) [
      | inl f ↦ rw (e, f) (rw (e) refl)
      | inr f ↦ rw (e, f) (rw (e) refl)
    ]
    | inr e ↦ elim (Bool-cases (c == a)) [
      | inl f ↦ rw (e, f) (rw (e) refl)
      | inr f ↦ rw (e, f) (rw (e) (ap (◌∷◌ (c, b)) (hand-put a h m bs)))
    ]
  ]

  -- Handlers and deliveries do not get in one another's way.
  pub hand-deliver :
      (a : ℕ) (h : H) (d : Delivery M) (bs : List (ℕ × Mailbox M H))
      → hand a h (deliver d bs) ≡ deliver d (hand a h bs)
  hand-deliver a h (to_filters m) bs = hand-put a h m bs
  hand-deliver a h (to_call p m) bs = refl

  mailbox-push :
      (m : M) (f : Filter M H)
      → IsMatched f.queue
      → mailbox (record f { queue = push m f.queue })
        ≡ record (mailbox f) { messages = all_messages f.queue ++ m ∷ [] }
  mailbox-push m f i =
      let (ms, hs) = push_kept m f.queue.messages f.queue.handlers f.queue.posted i in
      ap₂ (λ x y. record (mailbox f) { messages = x; handlers = y }) ms hs

  mailbox-pop :
      (h : H) (c : Connection) (f : Filter M H)
      → IsMatched f.queue
      → mailbox (async_dispatch h (record f { connection = c }))
        ≡ record (mailbox f) { handlers = all_handlers f.queue ++ h ∷ [] }
  unfolding async_dispatch
  mailbox-pop h c f i =
      let (ms, hs) = pop_kept h f.queue.messages f.queue.handlers f.queue.posted i in
      ap₂ (λ x y. record (mailbox f) { messages = x; handlers = y }) ms hs

  mailboxes-offer_all :
      (m : M) (fs : List (ℕ × Filter M H))
      → AllMatched fs
      → (mailboxes (offer_all m fs).1 ≡ put m (mailboxes fs)) × AllMatched (offer_all m fs).1
  unfolding offer_all step
  mailboxes-offer_all m [] i = (refl, i)
  mailboxes-offer_all m ((a, f) ∷ fs) i = elim (Bool-cases (accepts f.predicate m)) [
    | inl takes ↦
        rw (offer_all-first m [] a f fs _ takes, takes)
          (
            ap (λ b. (a, b) ∷ mailboxes fs) (mailbox-push m f i.0),
            (step-IsMatched (pushes m) f.queue i.0, i.1),
          )
    | inr leaves ↦
        let rest = mailboxes-offer_all m fs i.1 in
        rw (passed_on m a f fs leaves, leaves) (ap (◌∷◌ (a, mailbox f)) rest.0, (i.0, rest.1))
  ]

  -- libdbus's delivery to the filters is the delivery to their mailboxes.
  pub mailboxes-offered :
      (d : Delivery M) (fs : List (ℕ × Filter M H))
      → AllMatched fs
      → (mailboxes (offered (some d) fs) ≡ deliver d (mailboxes fs))
        × AllMatched (offered (some d) fs)
  unfolding offered
  mailboxes-offered (to_filters m) fs i = mailboxes-offer_all m fs i
  mailboxes-offered (to_call p m) fs i = (refl, i)

  pub mailboxes-dispatch_at :
      (a : ℕ) (h : H) (c : Connection) (fs : List (ℕ × Filter M H))
      → AllMatched fs
      → (mailboxes (dispatch_at a h c fs).1 ≡ hand a h (mailboxes fs))
        × AllMatched (dispatch_at a h c fs).1
  unfolding dispatch_at async_dispatch step
  mailboxes-dispatch_at a h c [] i = (refl, i)
  mailboxes-dispatch_at a h c ((b, f) ∷ fs) i = elim (Bool-cases (b == a)) [
    | inl found ↦ rw (found) (
      ap (λ x. (b, x) ∷ mailboxes fs) (mailbox-pop h c f i.0),
      (step-IsMatched (pops h) f.queue i.0, i.1),
    )
    | inr other ↦
        let rest = mailboxes-dispatch_at a h c fs i.1 in
        rw (other) (ap (◌∷◌ (b, mailbox f)) rest.0, (i.0, rest.1))
  ]
