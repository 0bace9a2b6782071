-- ===== src/Examples/Owners.antt =====
-- Messages with their references, as a list of counts.
use boost_dbus.Common.{
  ℕ, zero, suc, ◌+◌, ◌≤◌, ◌≡◌, refl, sym, true, List, [], ◌∷◌, ◌++◌, Option, none, some, length,
  get_or, arith,
}
use boost_dbus.Ownership.{
  method_call, method_return, signal, Counting, CountingLaws, one, References, Change, creates,
  destroys, receives, keeps, releases, replies, offers, runs, change_all, change, at_entry, after,
  perform, touch, callback_steps, push_steps, closure_steps,
}
use boost_dbus.Ownership.Balanced.{times, change_all-counts}

abbrev cons : ℕ → Option (List ℕ) → Option (List ℕ)
cons n none = none
cons n (some ns) = some (n ∷ ns)

abbrev take_one : ℕ → List ℕ → Option (List ℕ)
take_one p [] = none
take_one zero (zero ∷ ns) = none
take_one zero (suc n ∷ ns) = some (suc (suc n) ∷ ns)
take_one (suc p) (n ∷ ns) = cons n (take_one p ns)

abbrev give_one : ℕ → List ℕ → Option (List ℕ)
give_one p [] = none
give_one zero (zero ∷ ns) = none
give_one zero (suc n ∷ ns) = some (n ∷ ns)
give_one (suc p) (n ∷ ns) = cons n (give_one p ns)

abbrev heap : Counting
heap = record {
  Store = List ℕ;
  new = λ k ns. (length ns, ns ++ 1 ∷ []);
  ref = take_one;
  unref = give_one;
}

abbrev count : List ℕ → ℕ → ℕ
count ns q = get_or ns q 0

count-length : (ns : List ℕ) → count ns (length ns) ≡ 0
count-length [] = refl
count-length (n ∷ ns) = count-length ns

count-none : (q : ℕ) → count [] q ≡ 0
count-none zero = refl
count-none (suc q) = refl

one-suc : (p q : ℕ) → one (suc p) (suc q) ≡ one p q
one-suc p q = ground arith

count-new : (ns : List ℕ) (q : ℕ) → count (ns ++ 1 ∷ []) q ≡ count ns q + one (length ns) q
count-new [] zero = refl
count-new [] (suc q) = ground arith
count-new (n ∷ ns) zero = grind arith
count-new (n ∷ ns) (suc q) = rw (one-suc (length ns) q) (count-new ns q)

more-here : (n : ℕ) (ns : List ℕ) (q : ℕ) → count (suc n ∷ ns) q ≡ count (n ∷ ns) q + one 0 q
more-here n ns zero = ground arith
more-here n ns (suc q) = ground arith

more-behind :
    (n p : ℕ) (ms ns : List ℕ)
    → ((q : ℕ) → count ms q ≡ count ns q + one p q)
    → (q : ℕ) → count (n ∷ ms) q ≡ count (n ∷ ns) q + one (suc p) q
more-behind n p ms ns sums zero = ground arith
more-behind n p ms ns sums (suc q) = rw (one-suc p q) (sums q)

count-take_one :
    (p : ℕ) (ns : List ℕ)
    → 1 ≤ count ns p
    → (ms : List ℕ) × (take_one p ns ≡ some ms) × ((q : ℕ) → count ms q ≡ count ns q + one p q)
count-take_one p [] h = absurd (omega (arith, h))
count-take_one zero (zero ∷ ns) h = absurd (omega (arith, h))
count-take_one zero (suc n ∷ ns) h = (suc (suc n) ∷ ns, refl, more-here (suc n) ns)
count-take_one (suc p) (n ∷ ns) h =
    let (ms, e, sums) = count-take_one p ns h in (n ∷ ms, rw (e) refl, more-behind n p ms ns sums)

count-give_one :
    (p : ℕ) (ns : List ℕ)
    → 1 ≤ count ns p
    → (ms : List ℕ) × (give_one p ns ≡ some ms) × ((q : ℕ) → count ms q + one p q ≡ count ns q)
count-give_one p [] h = absurd (omega (arith, h))
count-give_one zero (zero ∷ ns) h = absurd (omega (arith, h))
count-give_one zero (suc n ∷ ns) h = (n ∷ ns, refl, λ q. sym (more-here n ns q))
count-give_one (suc p) (n ∷ ns) h =
    let (ms, e, sums) = count-give_one p ns h in
    (n ∷ ms, rw (e) refl, λ q. sym (more-behind n p ns ms (λ q'. sym (sums q')) q))

abbrev heap_laws : CountingLaws heap
heap_laws = record {
  count = count;
  news = λ k ns. count-length ns;
  counts_new = λ k ns q. count-new ns q;
  refs = count-take_one;
  unrefs = count-give_one;
}

-- A call is made, sent and dropped; its reply comes and is taken; a signal is offered to a filter, where
-- a handler waits, and its closure is run.
abbrev changes : List Change
changes =
    creates method_call
    ∷ keeps 0
    ∷ destroys 0
    ∷ receives method_return
    ∷ replies 0
    ∷ receives signal
    ∷ offers 0 (some true) true
    ∷ releases 0
    ∷ runs 0
    ∷ []

change_all-counts_example :
    (r : References heap) × (change_all heap changes
        (record { store = []; objects = []; held = [] })
      ≡ some r)
    × ((q : ℕ) → count r.store q ≡ times q r.objects + times q r.held)
change_all-counts_example = change_all-counts heap_laws changes [] (λ q. count-none q)

-- The call is still held by libdbus, the reply by a `message`, and the signal is gone.
changes_end :
    change_all heap changes (record { store = []; objects = []; held = [] })
    ≡ some (record { store = 1 ∷ 1 ∷ 0 ∷ []; objects = 1 ∷ []; held = 0 ∷ [] })
unfolding change_all change at_entry after perform touch callback_steps push_steps closure_steps
changes_end = refl
