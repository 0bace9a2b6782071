-- ===== src/Ownership/Balanced.antt =====
-- include/dbus/message.hpp: no message is used when it is gone, and none is kept for ever.
use boost_dbus.Common.{
  ℕ, zero, suc, ◌+◌, ◌≡◌, refl, ◌⊎◌, inl, inr, true, false, List, [], ◌∷◌, Option, none, some, ◌==◌,
  ==_refl, if◌then◌else◌, arith,
}
use boost_dbus.Ownership.{
  Counting, CountingLaws, one, Touch, constructs, destructs, unrefs, wrap, push_steps, pop_steps,
  closure_steps, callback_steps, References, Change, creates, copies, destroys, receives, keeps,
  releases, replies, offers, pops, runs, pick, after, at_entry, change, change_all,
}
use boost_dbus.Ownership.Walk.{walk, perform-walk}

-- How often a message is among these.
abbrev pub times : ℕ → List ℕ → ℕ
times q [] = 0
times q (p ∷ ps) = one p q + times q ps

==_one : (p : ℕ) → one p p ≡ 1
==_one p = rw (==_refl p) refl

pub pick-cases :
    (i : ℕ) (xs : List ℕ)
    → (pick i xs ≡ none)
      ⊎ ((x : ℕ) × (ys : List ℕ) × (pick i xs ≡ some (x, ys))
          × ((q : ℕ) → times q xs ≡ one x q + times q ys))
pick-cases i [] = inl refl
pick-cases zero (x ∷ xs) = inr (x, xs, refl, λ q. refl)
pick-cases (suc i) (x ∷ xs) = elim (pick-cases i xs) [
  | inl missing ↦ inl (rw (missing) refl)
  | inr (y, ys, found, sums) ↦ inr (y, x ∷ ys, rw (found) refl, λ q. omega (arith, sums q))
]

module _ {c : Counting} (laws : CountingLaws c) where
  open laws use {count}

  -- A message has as many references as there are `message`s that point to it, and as libdbus holds.
  abbrev pub IsBalanced : References c → Type 0
  IsBalanced r = (q : ℕ) → count r.store q ≡ times q r.objects + times q r.held

  after-IsBalanced :
      (ts : List Touch) (p n k : ℕ) (objects held : List ℕ) (s : c.Store)
      → count s p ≡ n
      → walk ts n ≡ some k
      → ((q : ℕ)
          → times q objects + times q held + (if p == q then n else 0)
            ≡ count s q + (if p == q then k else 0))
      → (r : References c) × (after c ts p objects held s ≡ some r) × IsBalanced r
  unfolding after
  after-IsBalanced ts p n k objects held s e w owed =
      let (s', done, sums) = perform-walk laws ts p s n k e w in
      (
        record { store = s'; objects = objects; held = held },
        rw (after, done) refl,
        λ q. omega (arith, sums q, owed q),
      )

  at_entry-IsBalanced :
      (i : ℕ) (ps : List ℕ) (k : ℕ → List ℕ → Option (References c)) (r : References c)
      → IsBalanced r
      → ((p : ℕ) (others : List ℕ)
          → ((q : ℕ) → times q ps ≡ one p q + times q others)
          → (r' : References c) × (k p others ≡ some r') × IsBalanced r')
      → (r' : References c) × (at_entry c i ps k r ≡ some r') × IsBalanced r'
  unfolding at_entry
  at_entry-IsBalanced i ps k r b go = elim (pick-cases i ps) [
    | inl e ↦ (r, rw (e, at_entry) refl, b)
    | inr (p, others, e, sums) ↦ rw (e, at_entry) (go p others sums)
  ]

  -- A message is touched that is in `ps`, beside which there are `qs`.
  touched-IsBalanced :
      (ts : List Touch) (p : ℕ) (others ps qs objects held : List ℕ) (k : ℕ → ℕ) (s : c.Store)
      → ((q : ℕ) → count s q ≡ times q ps + times q qs)
      → ((q : ℕ) → times q ps ≡ one p q + times q others)
      → ((m : ℕ) → walk ts (suc m) ≡ some (k m))
      → ((q m : ℕ)
          → times q objects + times q held + (if p == q then suc m else 0)
            ≡ times q ps + times q qs + (if p == q then k m else 0))
      → (r : References c) × (after c ts p objects held s ≡ some r) × IsBalanced r
  touched-IsBalanced ts p others ps qs objects held k s b sums w owed =
      let m = times p others + times p qs in
      after-IsBalanced ts p (suc m) (k m) objects held s (omega (arith, b p, sums p, ==_one p))
        (w m) (λ q. omega (arith, b q, owed q m))

  from_held :
      (r : References c)
      → IsBalanced r
      → (q : ℕ) → count r.store q ≡ times q r.held + times q r.objects
  from_held r b q = omega (arith, b q)

  -- An operation that touches an entry of `ps`.
  entry-IsBalanced :
      (i : ℕ) (ts : List Touch) (ps qs : List ℕ) (objects held : ℕ → List ℕ → List ℕ)
      → (k : ℕ → ℕ) (r : References c) → IsBalanced r
      → ((q : ℕ) → count r.store q ≡ times q ps + times q qs)
      → ((m : ℕ) → walk ts (suc m) ≡ some (k m))
      → ((p : ℕ) (others : List ℕ) (q m : ℕ)
          → times q ps ≡ one p q + times q others
          → times q (objects p others) + times q (held p others) + (if p == q then suc m else 0)
            ≡ times q ps + times q qs + (if p == q then k m else 0))
      → (r' : References c) × (at_entry c i ps
            (λ p others. after c ts p (objects p others) (held p others) r.store)
            r
          ≡ some r')
        × IsBalanced r'
  entry-IsBalanced i ts ps qs objects held k r b b' w owed =
      at_entry-IsBalanced i ps _ r b (λ p others sums.
        touched-IsBalanced ts p others ps qs (objects p others) (held p others) k r.store b' sums w
          (λ q m. owed p others q m (sums q)))

  -- Only a message that is there is touched, and the references stay balanced.
  change-IsBalanced :
      (o : Change) (r : References c)
      → IsBalanced r
      → (r' : References c) × (change c o r ≡ some r') × IsBalanced r'
  unfolding change callback_steps push_steps pop_steps closure_steps
  change-IsBalanced (creates k) r b =
      let (p, s) = c.new k r.store in
      let made = laws.counts_new k r.store in
      let fresh = laws.news k r.store in
      after-IsBalanced wrap p 1 1 (p ∷ r.objects) r.held s (omega (arith, made p, fresh, ==_one p))
        refl (λ q. ground (arith, made q, b q))
  change-IsBalanced (receives k) r b =
      let (p, s) = c.new k r.store in
      (
        record r { store = s; held = p ∷ r.held },
        refl,
        λ q. omega (arith, laws.counts_new k r.store q, b q),
      )
  change-IsBalanced (copies i) r b =
      entry-IsBalanced i (constructs ∷ []) r.objects r.held (λ p o. p ∷ r.objects) (λ p o. r.held)
        (λ m. suc (suc m)) r b b (λ m. refl) (λ p o q m e. ground arith)
  change-IsBalanced (destroys i) r b =
      entry-IsBalanced i (destructs ∷ []) r.objects r.held (λ p o. o) (λ p o. r.held) (λ m. m) r b b
        (λ m. refl) (λ p o q m e. ground arith)
  change-IsBalanced (keeps i) r b =
      entry-IsBalanced i (constructs ∷ []) r.objects r.held (λ p o. r.objects) (λ p o. p ∷ r.held)
        (λ m. suc (suc m)) r b b (λ m. refl) (λ p o q m e. ground arith)
  change-IsBalanced (pops i) r b =
      entry-IsBalanced i pop_steps r.objects r.held (λ p o. r.objects) (λ p o. r.held) (λ m. suc m)
        r b b (λ m. refl) (λ p o q m e. refl)
  change-IsBalanced (runs i) r b =
      entry-IsBalanced i closure_steps r.objects r.held (λ p o. o) (λ p o. r.held) (λ m. m) r b b
        (λ m. refl) (λ p o q m e. ground arith)
  change-IsBalanced (releases i) r b =
      entry-IsBalanced i (unrefs ∷ []) r.held r.objects (λ p o. r.objects) (λ p o. o) (λ m. m) r b
        (from_held r b) (λ m. refl) (λ p o q m e. ground arith)
  change-IsBalanced (replies i) r b =
      entry-IsBalanced i wrap r.held r.objects (λ p o. p ∷ r.objects) (λ p o. o) (λ m. suc m) r b
        (from_held r b) (λ m. refl) (λ p o q m e. ground arith)
  change-IsBalanced (offers i none waits) r b =
      entry-IsBalanced i (constructs ∷ destructs ∷ []) r.held r.objects (λ p o. r.objects)
        (λ p o. r.held) (λ m. suc m) r b (from_held r b) (λ m. refl) (λ p o q m e. ground arith)
  change-IsBalanced (offers i (some false) waits) r b =
      entry-IsBalanced i (constructs ∷ destructs ∷ []) r.held r.objects (λ p o. r.objects)
        (λ p o. r.held) (λ m. suc m) r b (from_held r b) (λ m. refl) (λ p o q m e. ground arith)
  change-IsBalanced (offers i (some true) false) r b =
      entry-IsBalanced i (callback_steps (some true) false) r.held r.objects (λ p o. p ∷ r.objects)
        (λ p o. r.held) (λ m. suc (suc m)) r b (from_held r b) (λ m. refl)
        (λ p o q m e. ground arith)
  change-IsBalanced (offers i (some true) true) r b =
      entry-IsBalanced i (callback_steps (some true) true) r.held r.objects (λ p o. p ∷ r.objects)
        (λ p o. r.held) (λ m. suc (suc m)) r b (from_held r b) (λ m. refl)
        (λ p o q m e. ground arith)

  change_all-IsBalanced :
      (os : List Change) (r : References c)
      → IsBalanced r
      → (r' : References c) × (change_all c os r ≡ some r') × IsBalanced r'
  unfolding change_all
  change_all-IsBalanced [] r b = (r, refl, b)
  change_all-IsBalanced (o ∷ os) r b =
      let (r', e, b') = change-IsBalanced o r b in
      rw (e, change_all) (change_all-IsBalanced os r' b')

  -- Where at first there is no message: whatever is created, copied and destroyed, sent and received,
  -- offered to filters, queued, handed to handlers and taken as a reply, no step touches a message that
  -- is gone, and in the end each message has exactly as many references as there are `message`s that
  -- point to it and as libdbus holds itself. So it is there while one of these is left, and no
  -- longer.
  pub change_all-counts :
      (os : List Change) (s : c.Store)
      → ((q : ℕ) → count s q ≡ 0)
      → (r : References c) × (change_all c os (record { store = s; objects = []; held = [] })
          ≡ some r)
        × ((q : ℕ) → count r.store q ≡ times q r.objects + times q r.held)
  change_all-counts os s b =
      change_all-IsBalanced os (record { store = s; objects = []; held = [] }) b
