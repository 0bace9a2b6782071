-- ===== src/Timeout/Timers.antt =====
-- include/dbus/detail/watch_timeout.hpp: a timeout keeps its timer, with few waits outstanding.
use boost_dbus.Common.{
  if-not, ℕ, suc, ◌+◌, ◌≤◌, true, List, [], ◌∷◌, Option, none, some, if◌then◌else◌, ◌≡◌, refl, ap,
  ◌∙◌, arith,
}
use boost_dbus.Timeout.{
  Timer, null, deleted, live, Timeout, expires_from_now, cancel_wait, async_wait, timeout_toggled,
  add_timeout, Toggle, set_timeout, set_timeout_all,
}

-- How often libdbus toggles the timeout.
abbrev pub count : List Toggle → ℕ
count [] = 0
count (g ∷ gs) = suc (count gs)

-- The timeout has its timer, with at most `n` waits outstanding, and never more than one.
pub record HasTimer (n : ℕ) (t : Timeout) : Type 0 where
  pub timer : Timer
  pub is_live : t.timeout_data ≡ live timer
  pub few : timer.waits ≤ n
  pub single : timer.waits ≤ 1

set_timer : Timeout → Timer → Timer
unfolding expires_from_now cancel_wait async_wait
set_timer t timer =
    if t.enabled
    then async_wait (cancel_wait (expires_from_now t.interval timer))
    else cancel_wait timer

set_timer-once : (t : Timeout) (timer : Timer) → (set_timer t timer).waits ≤ 1
unfolding set_timer
set_timer-once t timer = ground arith

timeout_toggled-live :
    (t : Timeout) (timer : Timer)
    → t.timeout_data ≡ live timer
    → timeout_toggled t ≡ some (record t { timeout_data = live (set_timer t timer) })
unfolding timeout_toggled set_timer
timeout_toggled-live t timer h =
    ap
      (λ p. elim p as (λ _. Option Timeout) [
        | null ↦ none
        | deleted ↦ none
        | live timer' ↦ some (record t { timeout_data = live (set_timer t timer') })
      ])
      h

pub timeout_toggled-null : (t : Timeout) → t.timeout_data ≡ null → timeout_toggled t ≡ none
unfolding timeout_toggled set_timer
timeout_toggled-null t h =
    ap
      (λ p. elim p as (λ _. Option Timeout) [
        | null ↦ none
        | deleted ↦ none
        | live timer ↦ some (record t { timeout_data = live (set_timer t timer) })
      ])
      h

pub set_timeout-HasTimer :
    (g : Toggle) (n : ℕ) (t : Timeout)
    → HasTimer n t
    → (t' : Timeout) × (set_timeout g t ≡ some t') × HasTimer 1 t'
unfolding set_timeout
set_timeout-HasTimer g n t i =
    let t₁ : Timeout = record t { enabled = g.enabled; interval = g.interval } in
    let timer : Timer = set_timer t₁ i.timer in
    (
      record t₁ { timeout_data = live timer },
      timeout_toggled-live t₁ i.timer i.is_live,
      record {
        timer = timer;
        is_live = refl;
        few = set_timer-once t₁ i.timer;
        single = set_timer-once t₁ i.timer;
      },
    )

pub HasTimer-more : (m n : ℕ) (t : Timeout) → m ≤ n → HasTimer m t → HasTimer n t
HasTimer-more m n t h i = record {
  timer = i.timer;
  is_live = i.is_live;
  few = let few = i.few in omega arith;
  single = i.single;
}

pub set_timeout_all-HasTimer :
    (gs : List Toggle) (n : ℕ) (t : Timeout)
    → HasTimer n t
    → (t' : Timeout) × (set_timeout_all gs t ≡ some t') × HasTimer (n + count gs) t'
unfolding set_timeout_all
set_timeout_all-HasTimer [] n t i = (t, refl, HasTimer-more n (n + 0) t (omega arith) i)
set_timeout_all-HasTimer (g ∷ gs) n t i =
    let (t', e, i') = set_timeout-HasTimer g n t i in
    let (t'', f, i'') = set_timeout_all-HasTimer gs 1 t' i' in
    (
      t'',
      rw (e, set_timeout_all) f,
      HasTimer-more (1 + count gs) (n + suc (count gs)) t'' (omega arith) i'',
    )

pub add_timeout-HasTimer :
    (t : Timeout) → t.enabled ≡ true → (t' : Timeout) × (add_timeout t ≡ some t') × HasTimer 1 t'
unfolding add_timeout
add_timeout-HasTimer t h =
    let timer : Timer = record { interval = 0; waits = 0 } in
    let t₁ : Timeout = record t { timeout_data = live timer } in
    (
      record t { timeout_data = live (set_timer t₁ timer) },
      if-not t.enabled _ _ h ∙ timeout_toggled-live t₁ timer refl,
      record {
        timer = set_timer t₁ timer;
        is_live = refl;
        few = set_timer-once t₁ timer;
        single = set_timer-once t₁ timer;
      },
    )
