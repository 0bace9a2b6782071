-- ===== src/System/Replied.antt =====
-- include/dbus/detail/async_send_op.hpp, with include/dbus/detail/watch_timeout.hpp: the handlers of
-- sends get their replies, whatever else a connection does.
use boost_dbus.Common.{
  ℕ, zero, suc, ◌+◌, ◌≤◌, ◌≡◌, refl, sym, ap, ◌∙◌, inl, inr, Bool, false, List, [], ◌∷◌, ◌++◌, All,
  Option, none, some, length, if◌then◌else◌, arith,
}
use mathlib.Core.Path.{subst}
use boost_dbus.Connection.{new_connection, dispatch_handler}
use boost_dbus.AsyncSend.{Sender, idle, callback, async_send}
use boost_dbus.AsyncSend
use boost_dbus.System.{
  Delivery, to_filters, to_call, Link, LinkLaws, World, Event, waits, sends, arrives, runs, begun,
  dispatch, run_posted, run_all, happen, happen_all, completed, connected,
}
use boost_dbus.System.Owed.{List-cases}
use boost_dbus.System.Ready.{happen_all-IsReady, run_all-empties}
use boost_dbus.System.Settled.{
  IsSent, AllSent-more, paused, settle, async_send-next_call, async_send-more, callback-next_call,
  settle-append, paused-happen, paused-sent,
}

module _ {M H : Type 0} where
  -- The sends and the replies among the events.
  abbrev pub calls : List (Event M H) → List (AsyncSend.Event M H)
  calls [] = []
  calls (waits a h ∷ es) = calls es
  calls (sends m h ∷ es) = AsyncSend.sends m h ∷ calls es
  calls (arrives (to_filters m) ∷ es) = calls es
  calls (arrives (to_call p m) ∷ es) = AsyncSend.replies p m ∷ calls es
  calls (runs ∷ es) = calls es

  -- Every reply that arrives is to a call that was sent before; `n` calls were sent so far.
  abbrev pub IsCausal : (M → Bool) → ℕ → List (Event M H) → Type 0
  IsCausal c n [] = Unit
  IsCausal c n (waits a h ∷ es) = IsCausal c n es
  IsCausal c n (sends m h ∷ es) = IsCausal c (if c m then n + 1 else n) es
  IsCausal c n (arrives d ∷ es) = IsSent n d × IsCausal c n es
  IsCausal c n (runs ∷ es) = IsCausal c n es

  completed-next_call :
      (d : Option (Delivery M)) (s : Sender M H) → (completed d s).next_call ≡ s.next_call
  unfolding completed
  completed-next_call none s = refl
  completed-next_call (some (to_filters m)) s = refl
  completed-next_call (some (to_call p r)) s = callback-next_call p r s

All-last :
    {A : Type 0} (P : A → Type 0) (xs : List A) (x : A) → All P xs → P x → All P (xs ++ x ∷ [])
All-last P [] x i j = (j, tt)
All-last P (y ∷ xs) x i j = (i.0, All-last P xs x i.1 j)

module _ {M H : Type 0} {l : Link M} (laws : LinkLaws l) where
  open laws use {waiting}

  -- The sends when all that waits is delivered.
  abbrev settled : World H l → Sender M H
  settled w = settle (waiting w.conn) w.sender

  -- The replies that wait are to calls that were sent.
  abbrev AllSent : World H l → Type 0
  AllSent w = All (IsSent w.sender.next_call) (waiting w.conn)

  settle-completed :
      (d : Delivery M) (ds : List (Delivery M)) (s : Sender M H)
      → All (IsSent s.next_call) (d ∷ ds)
      → (settle ds (completed (some d) s) ≡ settle (d ∷ ds) s)
        × All (IsSent (completed (some d) s).next_call) ds
  unfolding completed
  settle-completed (to_filters m) ds s i = (refl, i.1)
  settle-completed (to_call p r) ds s i = (refl, rw (callback-next_call p r s) i.1)

  run_posted-settled :
      (w : World H l)
      → AllSent w
      → (settled (run_posted l w) ≡ settled w) × AllSent (run_posted l w)
  unfolding run_posted dispatch_handler dispatch completed
  run_posted-settled w i =
      elim w.pending
        as (λ p.
          (settled (run_posted l (record w { pending = p })) ≡ settled w)
          × AllSent (run_posted l (record w { pending = p }))) [
            | zero ↦ (refl, i)
            | suc p ↦ elim (List-cases (waiting w.conn)) [
              | inl nothing ↦
                  let (e, f) = laws.takes_nothing w.conn nothing in rw (e, f, nothing) (refl, tt)
              | inr (d, ds, some_wait) ↦
                  let (e, f) = laws.takes w.conn d ds some_wait in
                  rw (e, f, some_wait)
                    (settle-completed d ds w.sender
                      (subst (All (IsSent w.sender.next_call)) some_wait i))
            ]
          ]

  run_posted-next_call : (w : World H l) → (run_posted l w).sender.next_call ≡ w.sender.next_call
  unfolding run_posted dispatch_handler dispatch
  run_posted-next_call w =
      elim w.pending
        as (λ p. (run_posted l (record w { pending = p })).sender.next_call ≡ w.sender.next_call) [
          | zero ↦ refl
          | suc p ↦ completed-next_call (l.dispatch w.conn).delivery w.sender
        ]

  arrives-settled :
      (c : M → Bool) (d : Delivery M) (w : World H l)
      → AllSent w
      → IsSent w.sender.next_call d
      → (settled (happen l c (arrives d) w) ≡ settle (d ∷ []) (settled w))
        × AllSent (happen l c (arrives d) w)
  unfolding happen
  arrives-settled c d w i sent =
      rw (laws.receives d w.conn)
        (settle-append (waiting w.conn) d w.sender, All-last _ (waiting w.conn) d i sent)

  happen_all-settled :
      (c : M → Bool) (es : List (Event M H)) (w : World H l)
      → AllSent w
      → IsCausal c w.sender.next_call es
      → (paused (settled (happen_all l c es w))
          ≡ paused (AsyncSend.happen c (calls es) (settled w)))
        × AllSent (happen_all l c es w)
  unfolding happen_all happen begun AsyncSend.happen
  happen_all-settled c [] w i k = (refl, i)
  happen_all-settled c (waits a h ∷ es) w i k =
      happen_all-settled c es (happen l c (waits a h) w) i k
  happen_all-settled c (sends m h ∷ es) w i k =
      let s : Sender M H = record w.sender { connection = w.connection } in
      let n = async_send-next_call c m h s in
      let (same, j) =
        happen_all-settled c es (happen l c (sends m h) w)
          (AllSent-more w.sender.next_call _ (waiting w.conn) (async_send-more c m h s) i)
          (rw (n) k) in
      (
        same
            ∙ paused-happen c (calls es) _ _
                (paused-sent c m h (waiting w.conn) w.connection w.sender i),
        j,
      )
  happen_all-settled c (arrives (to_filters m) ∷ es) w i k =
      let (one, j) = arrives-settled c (to_filters m) w i k.0 in
      let (rest, all) = happen_all-settled c es (happen l c (arrives (to_filters m)) w) j k.1 in
      (rest ∙ ap (λ s. paused (AsyncSend.happen c (calls es) s)) one, all)
  happen_all-settled c (arrives (to_call p r) ∷ es) w i k =
      let (one, j) = arrives-settled c (to_call p r) w i k.0 in
      let (rest, all) = happen_all-settled c es (happen l c (arrives (to_call p r)) w) j k.1 in
      (rest ∙ ap (λ s. paused (AsyncSend.happen c (calls es) s)) one, all)
  happen_all-settled c (runs ∷ es) w i k =
      let (same, j) = run_posted-settled w i in
      let (rest, m) = happen_all-settled c es (run_posted l w) j (rw (run_posted-next_call w) k) in
      (rest ∙ ap (λ s. paused (AsyncSend.happen c (calls es) s)) same, m)

  run_all-settled : (n : ℕ) (w : World H l) → AllSent w → settled (run_all l n w) ≡ settled w
  unfolding run_all
  run_all-settled zero w i = refl
  run_all-settled (suc n) w i =
      let (same, j) = run_posted-settled w i in run_all-settled n (run_posted l w) j ∙ same

-- No reply waits before a call was sent.
settle-none :
    {M H : Type 0} (ds : List (Delivery M)) (s : Sender M H) → All (IsSent 0) ds → settle ds s ≡ s
settle-none [] s i = refl
settle-none (to_filters m ∷ ds) s i = settle-none ds s i.1
settle-none (to_call p r ∷ ds) s i = absurd (omega (arith, i.0))

-- A connection with filters, on which at first no reply waits; then filters wait for messages, messages
-- are sent, come in and are dispatched, in any order, where a reply only comes to a call that was
-- sent. If the connection is started by then, as many runs of dispatch handlers as messages wait are
-- enough: what was sent, which handlers still wait, and which were posted with which reply, is as if
-- there were nothing but the sends, and each reply were taken when it arrived.
pub happen_all-replied :
    {M H : Type 0} {l : Link M} (laws : LinkLaws l) (is_method_call : M → Bool)
    → (es : List (Event M H)) (conn : l.Conn) (ps : List (ℕ × (M → Option Bool))) (n : ℕ)
    → All (IsSent 0) (laws.waiting conn)
    → IsCausal is_method_call 0 es
    → (happen_all l is_method_call es (connected H l conn ps)).connection.is_paused ≡ false
    → length (laws.waiting (happen_all l is_method_call es (connected H l conn ps)).conn) ≤ n
    → paused (run_all l n (happen_all l is_method_call es (connected H l conn ps))).sender
      ≡ paused (AsyncSend.happen is_method_call (calls es) (idle new_connection))
unfolding connected
happen_all-replied {M} {H} {l} laws c es conn ps n no_replies causal started enough =
    let first = connected H l conn ps in
    let s = happen_all l c es first in
    let (same, i) = happen_all-settled laws c es first no_replies causal in
    let t = run_all l n s in
    let rest =
      run_all-empties laws n s started (happen_all-IsReady laws c es first (inl refl)) enough in
    ap paused (sym (ap (λ ds. settle ds t.sender) rest) ∙ run_all-settled laws n s i)
    ∙ same
    ∙ ap (λ x. paused (AsyncSend.happen c (calls es) x))
        (settle-none (laws.waiting conn) (idle new_connection) no_replies)
