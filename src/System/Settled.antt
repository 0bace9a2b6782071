-- ===== src/System/Settled.antt =====
-- include/dbus/detail/async_send_op.hpp: the order of sends and of the replies that wait to be dispatched.
use boost_dbus.Common.{
  ℕ, ◌+◌, ◌<◌, ◌≤◌, ◌≡◌, refl, sym, ap, ◌∙◌, inl, inr, Bool, false, List, [], ◌∷◌, ◌++◌, All,
  Option, none, some, if◌then◌else◌, ◌==◌, Bool-cases, Option-cases, arith,
}
use boost_dbus.Connection.{Connection, new_connection}
use boost_dbus.AsyncSend.{Sender, idle, take_op, callback, async_send, async_send_op}
use boost_dbus.AsyncSend
use boost_dbus.System.{Delivery, to_filters, to_call}

-- A reply that is delivered is to a call that was sent.
abbrev pub IsSent : {M : Type 0} → ℕ → Delivery M → Type 0
IsSent n (to_filters m) = Unit {0}
IsSent n (to_call p m) = p < n

pub AllSent-more :
    {M : Type 0} (n k : ℕ) (ds : List (Delivery M)) → n ≤ k → All (IsSent n) ds → All (IsSent k) ds
AllSent-more n k [] le h = tt
AllSent-more n k (to_filters m ∷ ds) le h = (tt, AllSent-more n k ds le h.1)
AllSent-more n k (to_call p m ∷ ds) le h = (omega (arith, h.0, le), AllSent-more n k ds le h.1)

==-less : (a b : ℕ) → b < a → (a == b) ≡ false
==-less a b h = ground arith

module _ {H : Type 0} where
  abbrev pub and_last : ℕ × H → Option (H × List (ℕ × H)) → Option (H × List (ℕ × H))
  and_last o none = none
  and_last o (some (h, ops)) = some (h, ops ++ o ∷ [])

  take_op-append :
      (p n : ℕ) (h : H) (ops : List (ℕ × H))
      → (n == p) ≡ false
      → take_op p (ops ++ (n, h) ∷ []) ≡ and_last (n, h) (take_op p ops)
  unfolding take_op
  take_op-append p n h [] other = rw (other) refl
  take_op-append p n h ((q, k) ∷ ops) other = elim (Bool-cases (q == p)) [
    | inl found ↦ rw (found) refl
    | inr e ↦ elim (Option-cases (take_op p ops)) [
      | inl missing ↦ rw (e, take_op-append p n h ops other, missing) refl
      | inr ((g, rest), f) ↦ rw (e, take_op-append p n h ops other, f) refl
    ]
  ]

module _ {M H : Type 0} where
  -- The sends, whatever their connection is.
  abbrev pub paused : Sender M H → Sender M H
  paused s = record s { connection = new_connection }

  -- The replies among what is delivered.
  abbrev pub settle : List (Delivery M) → Sender M H → Sender M H
  settle [] s = s
  settle (to_filters m ∷ ds) s = settle ds s
  settle (to_call p m ∷ ds) s = settle ds (callback p m s)

  callback-async_send :
      (c : M → Bool) (m : M) (h : H) (p : ℕ) (r : M) (s : Sender M H)
      → p < s.next_call
      → callback p r (async_send c m h s) ≡ async_send c m h (callback p r s)
  unfolding callback async_send async_send_op
  callback-async_send c m h p r s sent = elim (Bool-cases (c m)) [
    | inr other ↦ elim (Option-cases (take_op p s.ops)) [
      | inl missing ↦ rw (other, missing, callback) (rw (other) refl)
      | inr ((g, rest), found) ↦ rw (other, found, callback) (rw (other) refl)
    ]
    | inl is_call ↦
        let last = take_op-append p s.next_call h s.ops (==-less s.next_call p sent) in
        elim (Option-cases (take_op p s.ops)) [
          | inl missing ↦ rw (is_call, last, missing, callback) (rw (is_call) refl)
          | inr ((g, rest), found) ↦ rw (is_call, last, found, callback) (rw (is_call) refl)
        ]
  ]

  pub callback-next_call :
      (p : ℕ) (r : M) (s : Sender M H) → (callback p r s).next_call ≡ s.next_call
  unfolding callback
  callback-next_call p r s = elim (Option-cases (take_op p s.ops)) [
    | inl missing ↦ rw (missing, callback) refl
    | inr (g, found) ↦ rw (found, callback) refl
  ]

  pub paused-callback :
      (p : ℕ) (r : M) (s : Sender M H) → paused (callback p r s) ≡ callback p r (paused s)
  unfolding callback
  paused-callback p r s = elim (Option-cases (take_op p s.ops)) [
    | inl missing ↦ rw (missing, callback) refl
    | inr (g, found) ↦ rw (found, callback) refl
  ]

  paused-async_send :
      (c : M → Bool) (m : M) (h : H) (s : Sender M H)
      → paused (async_send c m h s) ≡ paused (async_send c m h (paused s))
  unfolding async_send async_send_op
  paused-async_send c m h s = elim (Bool-cases (c m)) [ inl e ↦ rw (e) refl | inr e ↦ rw (e) refl ]

  pub async_send-next_call :
      (c : M → Bool) (m : M) (h : H) (s : Sender M H)
      → (async_send c m h s).next_call ≡ (if c m then s.next_call + 1 else s.next_call)
  unfolding async_send async_send_op
  async_send-next_call c m h s = elim (Bool-cases (c m)) [
    | inl e ↦ rw (e) refl
    | inr e ↦ rw (e) refl
  ]

  pub async_send-more :
      (c : M → Bool) (m : M) (h : H) (s : Sender M H) → s.next_call ≤ (async_send c m h s).next_call
  async_send-more c m h s = elim (Bool-cases (c m)) [
    | inl e ↦ rw (async_send-next_call c m h s, e) (omega arith)
    | inr e ↦ rw (async_send-next_call c m h s, e) (omega arith)
  ]

  paused-settle :
      (ds : List (Delivery M)) (s : Sender M H) → paused (settle ds s) ≡ settle ds (paused s)
  paused-settle [] s = refl
  paused-settle (to_filters m ∷ ds) s = paused-settle ds s
  paused-settle (to_call p r ∷ ds) s =
      paused-settle ds (callback p r s) ∙ ap (settle ds) (paused-callback p r s)

  pub settle-append :
      (ds : List (Delivery M)) (d : Delivery M) (s : Sender M H)
      → settle (ds ++ d ∷ []) s ≡ settle (d ∷ []) (settle ds s)
  settle-append [] d s = refl
  settle-append (to_filters m ∷ ds) d s = settle-append ds d s
  settle-append (to_call p r ∷ ds) d s = settle-append ds d (callback p r s)

  settle-async_send :
      (c : M → Bool) (m : M) (h : H) (ds : List (Delivery M)) (s : Sender M H)
      → All (IsSent s.next_call) ds
      → settle ds (async_send c m h s) ≡ async_send c m h (settle ds s)
  settle-async_send c m h [] s i = refl
  settle-async_send c m h (to_filters k ∷ ds) s i = settle-async_send c m h ds s i.1
  settle-async_send c m h (to_call p r ∷ ds) s i =
      ap (settle ds) (callback-async_send c m h p r s i.0)
      ∙ settle-async_send c m h ds (callback p r s) (rw (callback-next_call p r s) i.1)

  pub paused-happen :
      (c : M → Bool) (ks : List (AsyncSend.Event M H)) (s t : Sender M H)
      → paused s ≡ paused t
      → paused (AsyncSend.happen c ks s) ≡ paused (AsyncSend.happen c ks t)
  unfolding AsyncSend.happen
  paused-happen c [] s t e = e
  paused-happen c (AsyncSend.sends m h ∷ ks) s t e =
      paused-happen c ks (async_send c m h s) (async_send c m h t) (
        paused-async_send c m h s
        ∙ ap (λ x. paused (async_send c m h x)) e
        ∙ sym (paused-async_send c m h t))
  paused-happen c (AsyncSend.replies p r ∷ ks) s t e =
      paused-happen c ks (callback p r s) (callback p r t)
        (paused-callback p r s ∙ ap (callback p r) e ∙ sym (paused-callback p r t))

  pub paused-sent :
      (c : M → Bool) (m : M) (h : H) (ds : List (Delivery M)) (x : Connection) (s : Sender M H)
      → All (IsSent s.next_call) ds
      → paused (settle ds (async_send c m h (record s { connection = x })))
        ≡ paused (async_send c m h (settle ds s))
  paused-sent c m h ds x s i =
      let s' : Sender M H = record s { connection = x } in
      ap paused (settle-async_send c m h ds s' i)
      ∙ paused-async_send c m h (settle ds s')
      ∙ ap (λ y. paused (async_send c m h y)) (paused-settle ds s' ∙ sym (paused-settle ds s))
      ∙ sym (paused-async_send c m h (settle ds s))
