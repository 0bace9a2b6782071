-- ===== src/Timeout/Disabled.antt =====
-- include/dbus/detail/watch_timeout.hpp: a timeout that is disabled when it is added.
use boost_dbus.Common.{
  if◌then◌else◌, Bool, ◌∙◌, ◌+◌, true, false, List, [], ◌∷◌, none, some, ◌≡◌, refl, ap,
}
use boost_dbus.Timeout.{
  null, deleted, live, Timeout, add_timeout, Toggle, set_timeout, TimeoutLoop, TimeoutEvent,
  toggles, expires, runs, expire, with_timeout, take_event, take_events, added,
}
use boost_dbus.Timeout.Timers.{timeout_toggled-null}

abbrev pub has_toggle : List TimeoutEvent → Bool
has_toggle [] = false
has_toggle (toggles g ∷ es) = true
has_toggle (_ ∷ es) = has_toggle es

-- A loop whose timeout has no timer.
toggle-null :
    (g : Toggle) (t : Timeout) → t.timeout_data ≡ null → take_event (toggles g) (added t) ≡ none
unfolding take_event set_timeout with_timeout
toggle-null g t empty =
    ap (λ o. with_timeout o 0 0)
      (timeout_toggled-null (record t { enabled = g.enabled; interval = g.interval }) empty)

expires-null : (t : Timeout) → t.timeout_data ≡ null → take_event expires (added t) ≡ some (added t)
unfolding take_event expire
expires-null t empty =
    ap
      (λ p. some (elim p as (λ _. TimeoutLoop) [
        | null ↦ added t
        | deleted ↦ added t
        | live timer ↦ record (added t) {
          timeout = record t { timeout_data = live (record timer { waits = 0 }) };
          ready = 0 + timer.waits;
        }
      ]))
      empty

take_events-null :
    (es : List TimeoutEvent) (t : Timeout)
    → t.timeout_data ≡ null
    → take_events es (added t) ≡ (if has_toggle es then none else some (added t))
unfolding take_events take_event
take_events-null [] t empty = refl
take_events-null (toggles g ∷ es) t empty = rw (toggle-null g t empty, take_events) refl
take_events-null (expires ∷ es) t empty =
    ap (λ o. elim o [ none ↦ none | some l ↦ take_events es l ]) (expires-null t empty)
    ∙ take_events-null es t empty
take_events-null (runs gs ∷ es) t empty = take_events-null es t empty

-- A timeout that is disabled when libdbus adds it, with no timer yet, gets none: it is never handled, and
-- the first toggle of it, also one that enables it, follows a null pointer.
pub add_timeout-disabled :
    (t : Timeout) (es : List TimeoutEvent)
    → t.enabled ≡ false
    → t.timeout_data ≡ null
    → (add_timeout t ≡ some t)
      × (take_events es (added t) ≡ (if has_toggle es then none else some (added t)))
unfolding add_timeout
add_timeout-disabled t es h empty = (rw (h, add_timeout) refl, take_events-null es t empty)
