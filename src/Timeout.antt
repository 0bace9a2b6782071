-- ===== src/Timeout.antt =====
-- include/dbus/detail/watch_timeout.hpp: the timeouts of libdbus on timers of boost::asio.
--
-- libdbus keeps `enabled` and the interval of a timeout, in milliseconds; the code keeps a pointer to a
-- timer with it. Of a timer we keep the interval that it was last set to and how many waits are
-- outstanding. A function answers `none` where its behaviour is undefined: where it follows a null
-- pointer, or one to a timer that is deleted.
pub mod Timers
pub mod Handled
pub mod Disabled
use boost_dbus.Common.{
  ℕ, zero, suc, ◌+◌, Bool, true, false, not, List, [], ◌∷◌, Option, none, some, if◌then◌else◌,
}

pub record Timer : Type 0 where
  pub interval : ℕ
  pub waits : ℕ

pub data TimerPointer : Type 0 where
  null deleted : TimerPointer
  live : Timer → TimerPointer

pub record Timeout : Type 0 where
  pub enabled : Bool
  pub interval : ℕ
  pub timeout_data : TimerPointer

-- boost::asio: setting the expiry cancels the waits; a wait that is cancelled calls its handler with an
-- error, which does nothing.
unfoldable pub expires_from_now : ℕ → Timer → Timer
expires_from_now interval timer = record { interval = interval; waits = 0 }

unfoldable pub cancel_wait : Timer → Timer
cancel_wait timer = record timer { waits = 0 }

unfoldable pub async_wait : Timer → Timer
async_wait timer = record timer { waits = timer.waits + 1 }

unfoldable pub timeout_toggled : Timeout → Option Timeout
unfolding expires_from_now cancel_wait async_wait
timeout_toggled t = elim t.timeout_data [
  | null ↦ none
  | deleted ↦ none
  | live timer ↦ some (record t {
    timeout_data = live (
        if t.enabled
        then async_wait (cancel_wait (expires_from_now t.interval timer))
        else cancel_wait timer);
  })
]

-- It always answers TRUE to libdbus. A new timer expires when it is made.
unfoldable pub add_timeout : Timeout → Option Timeout
unfolding timeout_toggled
add_timeout t =
    if not t.enabled
    then some t
    else timeout_toggled (record t { timeout_data = live (record { interval = 0; waits = 0 }) })

-- `delete` of the timer; the pointer stays with the timeout.
unfoldable pub remove_timeout : Timeout → Option Timeout
remove_timeout t = elim t.timeout_data [
  | null ↦ some t
  | deleted ↦ none
  | live timer ↦ some (record t { timeout_data = deleted })
]

-- libdbus enables or disables the timeout, or changes its interval, and calls `timeout_toggled`.
pub record Toggle : Type 0 where
  pub enabled : Bool
  pub interval : ℕ

unfoldable pub set_timeout : Toggle → Timeout → Option Timeout
unfolding timeout_toggled
set_timeout g t = timeout_toggled (record t { enabled = g.enabled; interval = g.interval })

unfoldable pub set_timeout_all : List Toggle → Timeout → Option Timeout
unfolding set_timeout
set_timeout_all [] t = some t
set_timeout_all (g ∷ gs) t = elim (set_timeout g t) [
  | none ↦ none
  | some t' ↦ set_timeout_all gs t'
]

-- `timeout_handler::operator()` without an error, which only calls `dbus_timeout_handle`: `gs` are the
-- toggles that libdbus makes in it.
unfoldable pub timeout_handler : List Toggle → Timeout → Option Timeout
unfolding set_timeout_all
timeout_handler gs t = set_timeout_all gs t

-- A timeout and the io_service: `ready` counts the handlers that wait to run without an error, `handled`
-- how often the timeout has been passed to libdbus.
pub record TimeoutLoop : Type 0 where
  pub timeout : Timeout
  pub ready : ℕ
  pub handled : ℕ

-- libdbus toggles the timeout, the timer expires, or a handler runs.
pub data TimeoutEvent : Type 0 where
  toggles : Toggle → TimeoutEvent
  expires : TimeoutEvent
  runs : List Toggle → TimeoutEvent

-- The timer expires: its waits end.
unfoldable pub expire : TimeoutLoop → TimeoutLoop
expire l = elim l.timeout.timeout_data as (λ _. TimeoutLoop) [
  | null ↦ l
  | deleted ↦ l
  | live timer ↦ record l {
    timeout = record (l.timeout) { timeout_data = live (record timer { waits = 0 }) };
    ready = l.ready + timer.waits;
  }
]

unfoldable pub with_timeout : Option Timeout → (ready handled : ℕ) → Option TimeoutLoop
with_timeout none ready handled = none
with_timeout (some t) ready handled =
    some (record { timeout = t; ready = ready; handled = handled })

unfoldable pub take_event : TimeoutEvent → TimeoutLoop → Option TimeoutLoop
unfolding set_timeout expire timeout_handler with_timeout
take_event (toggles g) l = with_timeout (set_timeout g l.timeout) l.ready l.handled
take_event expires l = some (expire l)
take_event (runs gs) l = elim l.ready [
  | zero ↦ some l
  | suc n ↦ with_timeout (timeout_handler gs l.timeout) n (l.handled + 1)
]

unfoldable pub take_events : List TimeoutEvent → TimeoutLoop → Option TimeoutLoop
unfolding take_event
take_events [] l = some l
take_events (e ∷ es) l = elim (take_event e l) [ none ↦ none | some l' ↦ take_events es l' ]

-- The loop right after libdbus has added a timeout.
abbrev pub added : Timeout → TimeoutLoop
added t = record { timeout = t; ready = 0; handled = 0 }
