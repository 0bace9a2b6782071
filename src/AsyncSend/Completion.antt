-- ===== src/AsyncSend/Completion.antt =====
-- include/dbus/detail/async_send_op.hpp: which handlers run, and how often.
use mathlib.Core.List.{Perm, perm_middle}
use mathlib.Core.List.Perm
use mathlib.Core.Path.{subst}
use boost_dbus.Common.{
  ℕ, ◌≡◌, refl, sym, ap, ap₂, ◌∙◌, ◌⊎◌, inl, inr, Bool, true, false, List, [], ◌∷◌, ◌++◌, map, none,
  some, if◌then◌else◌, ◌==◌, append-nil, append_assoc, map-append, Bool-cases,
}
use boost_dbus.Connection.{Connection}
use boost_dbus.AsyncSend.{
  Sender, idle, async_send_op, async_send, take_op, callback, Event, sends, replies, happen,
}

module _ {H : Type 0} where
  take_op-cases :
      (p : ℕ) (ops : List (ℕ × H))
      → (take_op p ops ≡ none)
        ⊎ ((h : H) × (xs ys : List (ℕ × H)) × (q : ℕ) × (take_op p ops ≡ some (h, xs ++ ys))
            × (ops ≡ xs ++ (q, h) ∷ ys))
  unfolding take_op
  take_op-cases p [] = inl refl
  take_op-cases p ((q, k) ∷ ops) = elim (Bool-cases (q == p)) [
    | inl found ↦ inr (k, [], ops, q, rw (found, take_op) refl, refl)
    | inr other ↦ elim (take_op-cases p ops) [
      | inl missing ↦ inl (rw (other, take_op) (rw (missing) refl))
      | inr (h, xs, ys, r, e, f) ↦
          inr (h, (q, k) ∷ xs, ys, r, rw (other, take_op) (rw (e) refl), ap (◌∷◌ (q, k)) f)
    ]
  ]

module _ {M H : Type 0} where
  -- The handlers that were sent with a method call.
  abbrev pub callers : (M → Bool) → List (Event M H) → List H
  callers c [] = []
  callers c (sends m h ∷ es) = if c m then h ∷ callers c es else callers c es
  callers c (replies p m ∷ es) = callers c es

  abbrev pub completed : Sender M H → List H
  completed s = map (λ x. x.0) s.posted

  abbrev pub waiting : Sender M H → List H
  waiting s = map (λ x. x.1) s.ops

  -- The handlers that have been posted or still wait.
  abbrev known : Sender M H → List H
  known s = completed s ++ waiting s

  send-known :
      (c : M → Bool) (m : M) (h : H) (s : Sender M H)
      → known (async_send c m h s) ≡ known s ++ (if c m then h ∷ [] else [])
  unfolding async_send async_send_op
  send-known c m h s = elim (Bool-cases (c m)) [
    | inl is_call ↦ rw (is_call) (
        ap (λ l. completed s ++ l) (map-append (λ x. x.1) s.ops ((s.next_call, h) ∷ []))
        ∙ sym (append_assoc (completed s) (waiting s) (h ∷ [])))
    | inr other ↦ rw (other) (sym (append-nil (known s)))
  ]

  reply-known : (p : ℕ) (m : M) (s : Sender M H) → Perm (known (callback p m s)) (known s)
  unfolding callback
  reply-known p m s = elim (take_op-cases p s.ops) [
    | inl missing ↦ rw (missing, callback) (Perm.refl (known s))
    | inr (h, xs, ys, q, e, f) ↦
        let done : callback p m s ≡ record s { ops = xs ++ ys; posted = s.posted ++ (h, m) ∷ [] } =
          rw (e, callback) refl in
        let moved : known (callback p m s)
            ≡ completed s ++ h ∷ (map (λ x. x.1) xs ++ map (λ x. x.1) ys) =
          ap known done
          ∙ ap₂ ◌++◌ (map-append (λ x. x.0) s.posted ((h, m) ∷ [])) (map-append (λ x. x.1) xs ys)
          ∙ append_assoc (completed s) (h ∷ []) _ in
        let stood : known s ≡ completed s ++ (map (λ x. x.1) xs ++ h ∷ map (λ x. x.1) ys) =
          ap (λ l. completed s ++ l)
            (ap (map (λ x. x.1)) f ∙ map-append (λ x. x.1) xs ((q, h) ∷ ys)) in
        rw (moved, stood)
          (Perm.append_left (completed s)
            (Perm.symm (perm_middle (map (λ x. x.1) xs) (map (λ x. x.1) ys))))
  ]

  happen-known :
      (c : M → Bool) (es : List (Event M H)) (s : Sender M H)
      → Perm (known (happen c es s)) (known s ++ callers c es)
  unfolding happen
  happen-known c [] s = rw (append-nil (known s)) (Perm.refl (known s))
  happen-known c (sends m h ∷ es) s =
      subst (Perm (known (happen c es (async_send c m h s)))) (regroup (c m)) (
        subst (λ l. Perm (known (happen c es (async_send c m h s))) (l ++ callers c es))
          (send-known c m h s) (happen-known c es (async_send c m h s)))
    where
      regroup :
          (b : Bool)
          → (known s ++ (if b then h ∷ [] else [])) ++ callers c es
            ≡ known s ++ (if b then h ∷ callers c es else callers c es)
      regroup true = append_assoc (known s) (h ∷ []) (callers c es)
      regroup false = ap (λ l. l ++ callers c es) (append-nil (known s))
  happen-known c (replies p m ∷ es) s =
      Perm.trans (happen-known c es (callback p m s))
        (Perm.append_right (callers c es) (reply-known p m s))

  -- After any sends and replies: the handlers that have been posted, with those that still wait, are, in
  -- some order, the handlers that were sent with a method call. So each of these runs once at
  -- most, and a handler that was sent with another message never does.
  pub async_send-once :
      (c : M → Bool) (connection : Connection) (es : List (Event M H))
      → let s = happen c es (idle connection) in Perm (completed s ++ waiting s) (callers c es)
  async_send-once c connection es = happen-known c es (idle connection)
