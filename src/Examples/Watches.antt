-- ===== src/Examples/Watches.antt =====
-- Watches and timeouts.
use boost_dbus.Common.{◌+◌, ◌≤◌, ◌≡◌, ◌⊎◌, refl, Bool, true, false, List, [], ◌∷◌, none, some}
use boost_dbus.Watch
use boost_dbus.Watch.{
  Watch, Socket, WatchFlag, WatchLoop, readable, writable, add_watch, set_enabled_all,
  watch_handler, WatchReach, toggles, fires, runs, here, next,
}
use boost_dbus.Watch.Armed.{Has}
use boost_dbus.Watch.Monitoring.{WatchReach-Waits}
use boost_dbus.Watch.Disabled.{add_watch-disabled}
use boost_dbus.Watch.Growth.{reads, two_way, resting, add_watch-accumulates}
use boost_dbus.Timeout
use boost_dbus.Timeout.{Timeout, TimeoutLoop, Toggle, add_timeout, set_timeout, take_events}
use boost_dbus.Timeout.Handled.{toggles_in, take_events-handled}
use boost_dbus.Timeout.Disabled.{add_timeout-disabled}

abbrev watch : Bool → Watch
watch b = record {
  enabled = b;
  is_readable = true;
  is_writable = false;
  unix_fd = some 5;
  socket = none;
  watch_data = Watch.null;
}

abbrev socket : List WatchFlag → Socket
socket waits = record { fd = some 5; waits = waits }

abbrev with_socket : Watch → List WatchFlag → Watch
with_socket w waits = record w { watch_data = Watch.live (socket waits) }

abbrev start : Watch
start = with_socket (watch true) (readable ∷ [])

-- The watch is added, and its socket becomes readable.
abbrev fired : WatchLoop
fired = record { watch = with_socket (watch true) []; ready = readable ∷ []; handled = [] }

-- The handler runs, and libdbus toggles nothing in it.
abbrev handled_once : WatchLoop
handled_once = record { watch = start; ready = []; handled = readable ∷ [] }

first : WatchReach (Watch.added start) fired
first = next here (fires (socket (readable ∷ [])) [] [] readable refl refl)

run : WatchReach (Watch.added start) handled_once
unfolding watch_handler
run = next first (runs readable [] [] start refl refl)

WatchReach-Waits_example :
    (⊥ ⊎ Has readable (readable ∷ []))
    × ((w : Watch) × (watch_handler (false ∷ true ∷ []) start ≡ some w))
unfolding add_watch
WatchReach-Waits_example =
    WatchReach-Waits (watch true) start handled_once readable (false ∷ true ∷ []) refl refl run refl
      refl

add_watch-disabled_example :
    (add_watch (watch false) ≡ some (watch false))
    × ((w : Watch) × (set_enabled_all (false ∷ true ∷ []) (watch false) ≡ some w)
        × (w.enabled ≡ true)
        × (w.watch_data ≡ Watch.null))
add_watch-disabled_example = add_watch-disabled (false ∷ []) (watch false) refl refl

abbrev timeout : Bool → Timeout
timeout b = record { enabled = b; interval = 25000; timeout_data = Timeout.null }

abbrev again : Toggle
again = record { enabled = true; interval = 100 }

abbrev happening : List Timeout.TimeoutEvent
happening = Timeout.expires ∷ Timeout.runs (again ∷ []) ∷ Timeout.expires ∷ Timeout.runs [] ∷ []

take_events-handled_example :
    (t : Timeout) × (l : TimeoutLoop) × (add_timeout (timeout true) ≡ some t)
    × (take_events happening (Timeout.added t) ≡ some l)
    × (l.handled ≤ 1 + toggles_in happening)
    × ((timer : Timeout.Timer) × (l.timeout.timeout_data ≡ Timeout.live timer) × (timer.waits ≤ 1))
take_events-handled_example = take_events-handled (timeout true) happening refl

abbrev enabling : List Timeout.TimeoutEvent
enabling = Timeout.expires ∷ Timeout.runs [] ∷ Timeout.toggles again ∷ []

add_timeout-disabled_example :
    (add_timeout (timeout false) ≡ some (timeout false))
    × (take_events enabling (Timeout.added (timeout false)) ≡ none)
add_timeout-disabled_example = add_timeout-disabled (timeout false) enabling refl refl

add_watch-accumulates_example :
    (w : Watch) × (add_watch (two_way (some 3) none) ≡ some w)
    × (reads 2 (Watch.added w)
        ≡ some (
            resting
              (some 3)
              none
              (writable ∷ writable ∷ readable ∷ writable ∷ [])
              (readable ∷ readable ∷ [])))
add_watch-accumulates_example = add_watch-accumulates (some 3) none 2
