-- ===== src/Timeout/Handled.antt =====
-- include/dbus/detail/watch_timeout.hpp: how often a timeout is handled.
use boost_dbus.Common.{
  ℕ, zero, suc, ◌+◌, ◌≤◌, true, List, [], ◌∷◌, Option, some, ◌≡◌, refl, ap, arith,
}
use boost_dbus.Timeout.{
  Timer, null, deleted, live, Timeout, add_timeout, Toggle, set_timeout, set_timeout_all,
  timeout_handler, TimeoutLoop, TimeoutEvent, toggles, expires, runs, expire, with_timeout,
  take_event, take_events, added,
}
use boost_dbus.Timeout.Timers.{
  count, HasTimer, set_timeout-HasTimer, set_timeout_all-HasTimer, add_timeout-HasTimer,
}

abbrev pub toggles_of : TimeoutEvent → ℕ
toggles_of (toggles g) = 1
toggles_of expires = 0
toggles_of (runs gs) = count gs

abbrev pub toggles_in : List TimeoutEvent → ℕ
toggles_in [] = 0
toggles_in (e ∷ es) = toggles_of e + toggles_in es

-- What the timeout has been handled, and what it may still be without a toggle.
record InBudget (budget : ℕ) (l : TimeoutLoop) : Type 0 where
  waiting : ℕ
  has_timer : HasTimer waiting l.timeout
  in_budget : waiting + (l.ready + l.handled) ≤ budget

InBudget-more : (b c : ℕ) (l : TimeoutLoop) → b ≤ c → InBudget b l → InBudget c l
InBudget-more b c l h i =
    let in_budget = i.in_budget in
    record { waiting = i.waiting; has_timer = i.has_timer; in_budget = omega arith }

abbrev Steps : (budget : ℕ) → Option TimeoutLoop → Type 0
Steps budget o = (l : TimeoutLoop) × (o ≡ some l) × InBudget budget l

with_timeout-Steps :
    (o : Option Timeout) (n ready handled budget : ℕ)
    → ((t : Timeout) × (o ≡ some t) × HasTimer n t)
    → n + (ready + handled) ≤ budget
    → Steps budget (with_timeout o ready handled)
unfolding with_timeout
with_timeout-Steps o n ready handled budget (t, e, i) h = (
  record { timeout = t; ready = ready; handled = handled },
  rw (e, with_timeout) refl,
  record { waiting = n; has_timer = i; in_budget = h },
)

expire-live :
    (l : TimeoutLoop) (timer : Timer)
    → l.timeout.timeout_data ≡ live timer
    → expire l ≡ record l {
      timeout = record (l.timeout) { timeout_data = live (record timer { waits = 0 }) };
      ready = l.ready + timer.waits;
    }
unfolding expire
expire-live l timer h =
    ap
      (λ p. elim p as (λ _. TimeoutLoop) [
        | null ↦ l
        | deleted ↦ l
        | live timer' ↦ record l {
          timeout = record (l.timeout) { timeout_data = live (record timer' { waits = 0 }) };
          ready = l.ready + timer'.waits;
        }
      ])
      h

expire-Steps : (l : TimeoutLoop) (budget : ℕ) → InBudget budget l → Steps budget (some (expire l))
expire-Steps l budget i =
    let timer = i.has_timer.timer in
    let few = i.has_timer.few in
    let in_budget = i.in_budget in
    (
      record l {
        timeout = record (l.timeout) { timeout_data = live (record timer { waits = 0 }) };
        ready = l.ready + timer.waits;
      },
      ap some (expire-live l timer i.has_timer.is_live),
      record {
        waiting = 0;
        has_timer = record {
          timer = record timer { waits = 0 };
          is_live = refl;
          few = omega arith;
          single = omega arith;
        };
        in_budget = omega arith;
      },
    )

-- A run of a handler, by how many are ready.
runs-ready :
    (gs : List Toggle) (l : TimeoutLoop) (r : ℕ)
    → l.ready ≡ r
    → take_event (runs gs) l ≡ elim r as (λ _. Option TimeoutLoop) [
      | zero ↦ some l
      | suc n ↦ with_timeout (set_timeout_all gs l.timeout) n (l.handled + 1)
    ]
unfolding take_event timeout_handler
runs-ready gs l r h =
    ap
      (λ r'. elim r' as (λ _. Option TimeoutLoop) [
        | zero ↦ some l
        | suc n ↦ with_timeout (set_timeout_all gs l.timeout) n (l.handled + 1)
      ])
      h

runs-Steps :
    (gs : List Toggle) (l : TimeoutLoop) (budget r : ℕ)
    → l.ready ≡ r
    → InBudget budget l
    → Steps (count gs + budget) (take_event (runs gs) l)
runs-Steps gs l budget zero e i =
    let in_budget = i.in_budget in
    (
      l,
      runs-ready gs l zero e,
      record { waiting = i.waiting; has_timer = i.has_timer; in_budget = omega arith },
    )
runs-Steps gs l budget (suc n) e i =
    let in_budget = i.in_budget in
    rw (runs-ready gs l (suc n) e) (
      with_timeout-Steps (set_timeout_all gs l.timeout) (i.waiting + count gs) n (l.handled + 1)
        (count gs + budget) (set_timeout_all-HasTimer gs i.waiting l.timeout i.has_timer)
        (omega arith))

take_event-Steps :
    (e : TimeoutEvent) (l : TimeoutLoop) (budget : ℕ)
    → InBudget budget l
    → Steps (toggles_of e + budget) (take_event e l)
unfolding take_event timeout_handler
take_event-Steps (toggles g) l budget i =
    let in_budget = i.in_budget in
    with_timeout-Steps (set_timeout g l.timeout) 1 l.ready l.handled (1 + budget)
      (set_timeout-HasTimer g i.waiting l.timeout i.has_timer) (omega arith)
take_event-Steps expires l budget i =
    expire-Steps l (0 + budget) (InBudget-more budget (0 + budget) l (omega arith) i)
take_event-Steps (runs gs) l budget i = runs-Steps gs l budget l.ready refl i

take_events-Steps :
    (es : List TimeoutEvent) (l : TimeoutLoop) (budget : ℕ)
    → InBudget budget l
    → Steps (toggles_in es + budget) (take_events es l)
unfolding take_events
take_events-Steps [] l budget i = (l, refl, InBudget-more budget (0 + budget) l (omega arith) i)
take_events-Steps (e ∷ es) l budget i =
    let (l', f, i') = take_event-Steps e l budget i in
    let (l'', f', i'') = take_events-Steps es l' (toggles_of e + budget) i' in
    let in_budget = i''.in_budget in
    (
      l'',
      rw (f, take_events) f',
      record { waiting = i''.waiting; has_timer = i''.has_timer; in_budget = omega arith },
    )

-- A timeout that is enabled when libdbus adds it: whatever toggles, expiries and runs of handlers
-- follow, with toggles in them, the behaviour is defined, and it has been handled at most once more
-- than libdbus has toggled it, and its timer has one wait outstanding or none.
pub take_events-handled :
    (t : Timeout) (es : List TimeoutEvent)
    → t.enabled ≡ true
    → (t' : Timeout) × (l : TimeoutLoop) × (add_timeout t ≡ some t')
      × (take_events es (added t') ≡ some l)
      × (l.handled ≤ 1 + toggles_in es)
      × ((timer : Timer) × (l.timeout.timeout_data ≡ live timer) × (timer.waits ≤ 1))
take_events-handled t es h =
    let (t', e, i) = add_timeout-HasTimer t h in
    let (l, f, i') =
      take_events-Steps es (added t') 1
        (record { waiting = 1; has_timer = i; in_budget = omega arith }) in
    let in_budget = i'.in_budget in
    let has = i'.has_timer in (t', l, e, f, omega arith, (has.timer, has.is_live, has.single))
