-- ===== src/AsyncSend/Pending.antt =====
-- include/dbus/detail/async_send_op.hpp: the operations that wait for a reply, by their pending
-- call.
use boost_dbus.Common.{
  ℕ, ◌+◌, ◌<◌, ◌≡◌, refl, ap, ◌∙◌, false, List, [], ◌∷◌, ◌++◌, All, Option, none, some,
  if◌then◌else◌, ◌==◌, ==_refl, ==_iff, Bool-cases, Option-cases, inl, inr, arith,
}
use mathlib.Core.Path.{subst}
use boost_dbus.AsyncSend.{take_op}

module _ {H : Type 0} where
  -- The handler of a pending call, and the operations without it.
  abbrev pub find_op : ℕ → List (ℕ × H) → Option H
  find_op p [] = none
  find_op p ((q, h) ∷ ops) = if q == p then some h else find_op p ops

  abbrev pub without : ℕ → List (ℕ × H) → List (ℕ × H)
  without p [] = []
  without p ((q, h) ∷ ops) = if q == p then ops else (q, h) ∷ without p ops

  abbrev pub and_rest : List (ℕ × H) → Option H → Option (H × List (ℕ × H))
  and_rest others none = none
  and_rest others (some h) = some (h, others)

  pub take_op-find :
      (p : ℕ) (ops : List (ℕ × H)) → take_op p ops ≡ and_rest (without p ops) (find_op p ops)
  unfolding take_op
  take_op-find p [] = refl
  take_op-find p ((q, k) ∷ ops) = elim (Bool-cases (q == p)) [
    | inl found ↦ rw (found) refl
    | inr other ↦ elim (Option-cases (find_op p ops)) [
      | inl missing ↦ rw (other, take_op-find p ops, missing) refl
      | inr (h, there) ↦ rw (other, take_op-find p ops, there) refl
    ]
  ]

  pub find_op-without :
      (p n : ℕ) (ops : List (ℕ × H)) → (p == n) ≡ false → find_op n (without p ops) ≡ find_op n ops
  find_op-without p n [] h = refl
  find_op-without p n ((q, k) ∷ ops) h = elim (Bool-cases (q == p)) [
    | inl found ↦
        let other : (q == n) ≡ false = ap (λ x. x == n) ((==_iff q p).0 found) ∙ h in
        rw (found, other) refl
    | inr e ↦ elim (Bool-cases (q == n)) [
      | inl there ↦ rw (e, there) refl
      | inr f ↦ rw (e, f) (find_op-without p n ops h)
    ]
  ]

  pub find_op-more :
      (n : ℕ) (h : H) (ops : List (ℕ × H)) (o : ℕ × H)
      → find_op n ops ≡ some h
      → find_op n (ops ++ o ∷ []) ≡ some h
  find_op-more n h [] o e = absurd (cc)
  find_op-more n h ((q, k) ∷ ops) o e = elim (Bool-cases (q == n)) [
    | inl found ↦ rw (found) (subst (λ b. (if b then some k else find_op n ops) ≡ some h) found e)
    | inr other ↦ rw (other) (
        find_op-more n h ops o
          (subst (λ b. (if b then some k else find_op n ops) ≡ some h) other e))
  ]

  abbrev pub AllBelow : ℕ → List (ℕ × H) → Type 0
  AllBelow n ops = All (λ o. o.0 < n) ops

  pub find_op-last :
      (n : ℕ) (h : H) (ops : List (ℕ × H))
      → AllBelow n ops
      → find_op n (ops ++ (n, h) ∷ []) ≡ some h
  find_op-last n h [] below = rw (==_refl n) refl
  find_op-last n h ((q, k) ∷ ops) below =
      let other : (q == n) ≡ false = ground (arith, below.0) in
      rw (other) (find_op-last n h ops below.1)

  pub AllBelow-without :
      (n p : ℕ) (ops : List (ℕ × H)) → AllBelow n ops → AllBelow n (without p ops)
  AllBelow-without n p [] below = tt
  AllBelow-without n p ((q, k) ∷ ops) below = elim (Bool-cases (q == p)) [
    | inl found ↦ rw (found) below.1
    | inr other ↦ rw (other) (below.0, AllBelow-without n p ops below.1)
  ]

  pub AllBelow-last :
      (n : ℕ) (h : H) (ops : List (ℕ × H)) → AllBelow n ops → AllBelow (n + 1) (ops ++ (n, h) ∷ [])
  AllBelow-last n h [] below = (omega arith, tt)
  AllBelow-last n h ((q, k) ∷ ops) below = (omega (arith, below.0), AllBelow-last n h ops below.1)
