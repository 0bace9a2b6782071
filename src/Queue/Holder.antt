-- ===== src/Queue/Holder.antt =====
-- Several threads on one queue: the thread that holds the mutex can go on.
use mathlib.Core.Path.{subst}
use boost_dbus.Common.{
  Bool, ◌≡◌, refl, sym, ap, ◌∙◌, ◌⊎◌, inl, inr, List, [], ◌∷◌, ◌++◌, none, some,
}
use boost_dbus.Queue.{Closure, Op, pushes, pops}
use boost_dbus.Queue.Mutex.{
  Thread, locks, tests, appends_message, reads_handler, appends_handler, reads_message,
  removes_handler, removes_message, posts, unlocks, returned, Shared, advance,
}
use boost_dbus.Queue.Linked.{each, inside, Can, shared}

module _ {M H : Type 0} where
  inside-cases : (t : Thread M H) → (inside t ≡ []) ⊎ (inside t ≡ t ∷ [])
  inside-cases (locks o) = inl refl
  inside-cases (posts c) = inl refl
  inside-cases returned = inl refl
  inside-cases (tests o) = inr refl
  inside-cases (appends_message m) = inr refl
  inside-cases (appends_handler h) = inr refl
  inside-cases (reads_handler m) = inr refl
  inside-cases (reads_message h) = inr refl
  inside-cases (removes_handler c) = inr refl
  inside-cases (removes_message c) = inr refl
  inside-cases (unlocks c) = inr refl

  -- A thread that is inside stands in the list of the threads.
  pub each-inside :
      (ts : List (Thread M H)) (t : Thread M H)
      → each inside ts ≡ t ∷ []
      → (xs : List (Thread M H)) × (ys : List (Thread M H)) × (ts ≡ xs ++ t ∷ ys)
        × (inside t ≡ t ∷ [])
  each-inside [] t e = absurd (cc)
  each-inside (c ∷ ts) t e = elim (inside-cases c) [
    | inl out ↦
        let (xs, ys, f, g) = each-inside ts t (sym (ap (λ l. l ++ each inside ts) out) ∙ e) in
        (c ∷ xs, ys, ap (◌∷◌ c) f, g)
    | inr held ↦
        let together : c ∷ each inside ts ≡ t ∷ [] = sym (ap (λ l. l ++ each inside ts) held) ∙ e in
        let same : c ≡ t = cc in
        ([], ts, ap (λ x. x ∷ ts) same, subst (λ x. inside x ≡ x ∷ []) same held)
  ]

  pub advance-Can :
      (t : Thread M H) (l : Bool) (ms : List M) (hs : List H) (cs : List (Closure M H))
      → (acq : List (Op M H)) → inside t ≡ t ∷ []
      → Can t ms hs
      → (next : Thread M H × Shared M H) × (advance t (shared l ms hs cs acq) ≡ some next)
  unfolding advance
  advance-Can (locks o) l ms hs cs acq e c = absurd (cc)
  advance-Can (posts x) l ms hs cs acq e c = absurd (cc)
  advance-Can returned l ms hs cs acq e c = absurd (cc)
  advance-Can (tests (pushes m)) l ms [] cs acq e c = (_, refl)
  advance-Can (tests (pushes m)) l ms (h ∷ hs) cs acq e c = (_, refl)
  advance-Can (tests (pops h)) l [] hs cs acq e c = (_, refl)
  advance-Can (tests (pops h)) l (m ∷ ms) hs cs acq e c = (_, refl)
  advance-Can (appends_message m) l ms hs cs acq e c = (_, refl)
  advance-Can (appends_handler h) l ms hs cs acq e c = (_, refl)
  advance-Can (reads_handler m) l ms [] cs acq e c = absurd c
  advance-Can (reads_handler m) l ms (h ∷ hs) cs acq e c = (_, refl)
  advance-Can (reads_message h) l [] hs cs acq e c = absurd c
  advance-Can (reads_message h) l (m ∷ ms) hs cs acq e c = (_, refl)
  advance-Can (removes_handler x) l ms [] cs acq e c = absurd c
  advance-Can (removes_handler x) l ms (h ∷ hs) cs acq e c = (_, refl)
  advance-Can (removes_message x) l [] hs cs acq e c = absurd c
  advance-Can (removes_message x) l (m ∷ ms) hs cs acq e c = (_, refl)
  advance-Can (unlocks none) l ms hs cs acq e c = (_, refl)
  advance-Can (unlocks (some x)) l ms hs cs acq e c = (_, refl)
