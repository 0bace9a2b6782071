-- ===== src/Ownership/Walk.antt =====
-- include/dbus/message.hpp: the count of a message while the code constructs and destroys `message`s.
use boost_dbus.Common.{
  ℕ, zero, suc, ◌+◌, ◌≡◌, refl, Bool, true, List, [], ◌∷◌, Option, none, some, ◌==◌, ==_refl,
  if◌then◌else◌, arith,
}
use mathlib.Core.Option.{some_inj}
use boost_dbus.Ownership.{
  Counting, CountingLaws, Touch, constructs, destructs, unrefs, touch, perform,
}

-- The count of a message after steps, where none of them meets a message that is gone.
abbrev pub walk : List Touch → ℕ → Option ℕ
walk [] n = some n
walk (a ∷ ts) zero = none
walk (constructs ∷ ts) (suc n) = walk ts (suc (suc n))
walk (destructs ∷ ts) (suc n) = walk ts n
walk (unrefs ∷ ts) (suc n) = walk ts n

one-up : {x' x n : ℕ} (b : Bool) → b ≡ true → x' ≡ x + (if b then 1 else 0) → x ≡ n → x' ≡ suc n
one-up b h e f = ground arith

one-down : {x' x n : ℕ} (b : Bool) → b ≡ true → x' + (if b then 1 else 0) ≡ x → x ≡ suc n → x' ≡ n
one-down b h e f = ground arith

add_up :
    (y x' x n k : ℕ) (b : Bool)
    → y + (if b then suc (suc n) else 0) ≡ x' + (if b then k else 0)
    → x' ≡ x + (if b then 1 else 0)
    → y + (if b then suc n else 0) ≡ x + (if b then k else 0)
add_up y x' x n k b e f = ground arith

add_down :
    (y x' x n k : ℕ) (b : Bool)
    → y + (if b then n else 0) ≡ x' + (if b then k else 0)
    → x' + (if b then 1 else 0) ≡ x
    → y + (if b then suc n else 0) ≡ x + (if b then k else 0)
add_down y x' x n k b e f = ground arith

module _ {c : Counting} (laws : CountingLaws c) where
  open laws use {count}

  -- The steps go through where the count stays above zero, and leave all other messages as they are.
  pub perform-walk :
      (ts : List Touch) (p : ℕ) (s : c.Store) (n k : ℕ)
      → count s p ≡ n
      → walk ts n ≡ some k
      → (s' : c.Store) × (perform c ts p s ≡ some s')
        × ((q : ℕ) → count s' q + (if p == q then n else 0) ≡ count s q + (if p == q then k else 0))
  unfolding perform touch
  perform-walk [] p s n k e w = (s, refl, λ q. ground (arith, some_inj.0 w))
  perform-walk (a ∷ ts) p s zero k e w = absurd (cc)
  perform-walk (constructs ∷ ts) p s (suc n) k e w =
      let (s', done, counts) = laws.refs p s (omega (arith, e)) in
      let more : count s' p ≡ suc (suc n) = one-up (p == p) (==_refl p) (counts p) e in
      let (s'', rest, sums) = perform-walk ts p s' (suc (suc n)) k more w in
      (
        s'',
        rw (perform, done) rest,
        λ q. add_up (count s'' q) (count s' q) (count s q) n k (p == q) (sums q) (counts q),
      )
  perform-walk (destructs ∷ ts) p s (suc n) k e w =
      let (s', done, counts) = laws.unrefs p s (omega (arith, e)) in
      let less : count s' p ≡ n = one-down (p == p) (==_refl p) (counts p) e in
      let (s'', rest, sums) = perform-walk ts p s' n k less w in
      (
        s'',
        rw (perform, done) rest,
        λ q. add_down (count s'' q) (count s' q) (count s q) n k (p == q) (sums q) (counts q),
      )
  perform-walk (unrefs ∷ ts) p s (suc n) k e w =
      let (s', done, counts) = laws.unrefs p s (omega (arith, e)) in
      let less : count s' p ≡ n = one-down (p == p) (==_refl p) (counts p) e in
      let (s'', rest, sums) = perform-walk ts p s' n k less w in
      (
        s'',
        rw (perform, done) rest,
        λ q. add_down (count s'' q) (count s' q) (count s q) n k (p == q) (sums q) (counts q),
      )
