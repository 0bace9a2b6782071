-- ===== src/Ownership.antt =====
-- include/dbus/message.hpp, with include/dbus/impl/connection.ipp, include/dbus/impl/filter.ipp,
-- include/dbus/detail/queue.hpp and include/dbus/detail/async_send_op.hpp: who holds a reference to a
-- message of libdbus.
--
-- A `message` is an intrusive pointer. Here it is the number of the `DBusMessage` that it points to; one
-- that is null holds nothing and is left out. `none` is a reference that is taken of, or given back
-- to, a message that is gone.
pub mod Walk
pub mod Balanced
use boost_dbus.Common.{
  ℕ, zero, suc, ◌+◌, ◌≡◌, Bool, true, false, List, [], ◌∷◌, ◌++◌, Option, none, some, ◌==◌,
  if◌then◌else◌, ◌≤◌,
}

-- What makes a message: `dbus_message_new_method_call`, `_method_return`, `_error` and `_signal`.
pub data Kind : Type 0 where
  method_call method_return error signal : Kind

-- libdbus: messages with their references. There is memory for every new message.
pub record Counting : Type 1 where
  pub Store : Type 0
  pub new : Kind → Store → ℕ × Store
  pub ref : ℕ → Store → Option Store
  pub unref : ℕ → Store → Option Store

abbrev pub one : ℕ → ℕ → ℕ
one p q = if p == q then 1 else 0

-- A new message has one reference and was not there before. References are taken of messages that have
-- one, and given back to them.
pub record CountingLaws (c : Counting) : Type 0 where
  pub count : c.Store → ℕ → ℕ
  pub news : (k : Kind) (s : c.Store) → count s (c.new k s).0 ≡ 0
  pub counts_new :
      (k : Kind) (s : c.Store) (q : ℕ) → count (c.new k s).1 q ≡ count s q + one (c.new k s).0 q
  pub refs :
      (p : ℕ) (s : c.Store)
      → 1 ≤ count s p
      → (s' : c.Store) × (c.ref p s ≡ some s') × ((q : ℕ) → count s' q ≡ count s q + one p q)
  pub unrefs :
      (p : ℕ) (s : c.Store)
      → 1 ≤ count s p
      → (s' : c.Store) × (c.unref p s ≡ some s') × ((q : ℕ) → count s' q + one p q ≡ count s q)

-- What the code does to a message: it constructs a `message` from a pointer or from another one, it
-- destroys one, and it calls `dbus_message_unref` itself.
pub data Touch : Type 0 where
  constructs destructs unrefs : Touch

module _ (c : Counting) where
  open c use {Store}

  -- `intrusive_ptr_add_ref` and `intrusive_ptr_release`.
  unfoldable pub touch : Touch → ℕ → Store → Option Store
  touch constructs p s = c.ref p s
  touch destructs p s = c.unref p s
  touch unrefs p s = c.unref p s

  unfoldable pub perform : List Touch → ℕ → Store → Option Store
  unfolding touch
  perform [] p s = some s
  perform (a ∷ ts) p s = elim (touch a p s) [ none ↦ none | some s' ↦ perform ts p s' ]

-- The `message` of `new_call`, `new_return`, `new_error`, `new_signal` and `new_method_return`, of a reply
-- that was waited for, and of the reply of a pending call: it is made of a reference that libdbus
-- hands over, which is then given back.
abbrev pub wrap : List Touch
wrap = constructs ∷ unrefs ∷ []

-- `queue::push`: its parameter; an element of the deque, or, where a handler waits, the parameter of the
-- closure and its member; and the ends of both parameters.
unfoldable pub push_steps : Bool → List Touch
push_steps false = constructs ∷ constructs ∷ destructs ∷ []
push_steps true = constructs ∷ constructs ∷ constructs ∷ destructs ∷ destructs ∷ []

-- `queue::async_pop` where a message waits: `m`, the end of the element of the deque, the parameter of the
-- closure and its member, and the ends of the parameter and of `m`.
unfoldable pub pop_steps : List Touch
pop_steps = constructs ∷ destructs ∷ constructs ∷ constructs ∷ destructs ∷ destructs ∷ []

-- `closure::operator()`, which hands a copy to the handler, and the end of the closure.
unfoldable pub closure_steps : List Touch
closure_steps = constructs ∷ destructs ∷ destructs ∷ []

-- `filter_callback` with its `m_`. The predicate's answer is `none` where it throws.
unfoldable pub callback_steps : Option Bool → Bool → List Touch
unfolding push_steps
callback_steps none handler_waits = constructs ∷ destructs ∷ []
callback_steps (some false) handler_waits = constructs ∷ destructs ∷ []
callback_steps (some true) handler_waits = constructs ∷ (push_steps handler_waits ++ destructs ∷ [])

-- `objects` are the `message`s there are; `held` the references that libdbus holds for itself or hands
-- over.
pub record References (c : Counting) : Type 0 where
  pub store : c.Store
  pub objects : List ℕ
  pub held : List ℕ

pub data Change : Type 0 where
  -- A message is made, for a `message`.
  creates : Kind → Change
  -- A `message` is copied, or destroyed.
  copies destroys : ℕ → Change
  -- libdbus receives a message, keeps one that is sent, and gives back a reference of its own.
  receives : Kind → Change
  keeps releases : ℕ → Change
  -- libdbus hands over a reply.
  replies : ℕ → Change
  -- libdbus offers a message to a filter: what the predicate answers, and whether a handler waits.
  offers : ℕ → Option Bool → Bool → Change
  -- A message that waits in a queue meets a handler; the closure of a message is run.
  pops runs : ℕ → Change

-- The entry at a position, and the others.
abbrev pub pick : ℕ → List ℕ → Option (ℕ × List ℕ)
pick i [] = none
pick zero (x ∷ xs) = some (x, xs)
pick (suc i) (x ∷ xs) = elim (pick i xs) [ none ↦ none | some (y, ys) ↦ some (y, x ∷ ys) ]

-- What the predicate's answer leaves of the message.
abbrev pub queued : Option Bool → ℕ → List ℕ
queued (some true) p = p ∷ []
queued _ p = []

module _ (c : Counting) where
  -- The steps are performed on a message; these are then the objects and libdbus's references.
  unfoldable pub after : List Touch → ℕ → (objects held : List ℕ) → c.Store → Option (References c)
  unfolding perform
  after ts p objects held s = elim (perform c ts p s) [
    | none ↦ none
    | some s' ↦ some (record { store = s'; objects = objects; held = held })
  ]

  -- Nothing is done where there is no such entry.
  unfoldable pub at_entry :
      ℕ → List ℕ → (ℕ → List ℕ → Option (References c)) → References c → Option (References c)
  at_entry i ps k r = elim (pick i ps) [ none ↦ some r | some (p, others) ↦ k p others ]

  unfoldable pub change : Change → References c → Option (References c)
  unfolding after at_entry callback_steps pop_steps closure_steps
  change (creates k) r = let (p, s) = c.new k r.store in after wrap p (p ∷ r.objects) r.held s
  change (copies i) r =
      at_entry i r.objects (λ p others. after (constructs ∷ []) p (p ∷ r.objects) r.held r.store) r
  change (destroys i) r =
      at_entry i r.objects (λ p others. after (destructs ∷ []) p others r.held r.store) r
  change (receives k) r =
      let (p, s) = c.new k r.store in some (record r { store = s; held = p ∷ r.held })
  change (keeps i) r =
      at_entry i r.objects (λ p others. after (constructs ∷ []) p r.objects (p ∷ r.held) r.store) r
  change (releases i) r =
      at_entry i r.held (λ p others. after (unrefs ∷ []) p r.objects others r.store) r
  change (replies i) r =
      at_entry i r.held (λ p others. after wrap p (p ∷ r.objects) others r.store) r
  change (offers i answer waits) r =
      at_entry i r.held
        (λ p others.
          after (callback_steps answer waits) p (queued answer p ++ r.objects) r.held r.store)
        r
  change (pops i) r =
      at_entry i r.objects (λ p others. after pop_steps p r.objects r.held r.store) r
  change (runs i) r =
      at_entry i r.objects (λ p others. after closure_steps p others r.held r.store) r

  unfoldable pub change_all : List Change → References c → Option (References c)
  unfolding change
  change_all [] r = some r
  change_all (o ∷ os) r = elim (change o r) [ none ↦ none | some r' ↦ change_all os r' ]
