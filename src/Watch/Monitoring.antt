-- ===== src/Watch/Monitoring.antt =====
-- include/dbus/detail/watch_timeout.hpp: whether the events of a watch are waited for.
use boost_dbus.Common.{Bool, true, List, [], ◌∷◌, ◌++◌, some, ◌≡◌, refl, ◌⊎◌, inl, inr}
use boost_dbus.Watch.{
  WatchFlag, Socket, live, Watch, add_watch, set_enabled, watch_handler, WatchLoop, WatchStep,
  toggles, fires, runs, WatchReach, here, next, added,
}
use boost_dbus.Watch.Armed.{
  Waits, is_flagged, IsArmed, IsArmed-answer, set_enabled-live, watch_handler-live,
  add_watch-IsArmed,
}

abbrev pub IsPending : List WatchFlag → Type 0
IsPending [] = ⊥
IsPending (f ∷ fs) = Unit {0}

IsPending-last : (fs : List WatchFlag) (f : WatchFlag) → IsPending (fs ++ f ∷ [])
IsPending-last [] f = tt
IsPending-last (g ∷ gs) f = tt

-- The watch has its socket and, where it is enabled, a handler is about to run or the flags are waited
-- for.
record IsMonitored (l : WatchLoop) : Type 0 where
  socket : Socket
  is_live : l.watch.watch_data ≡ live socket
  waits :
      (f : WatchFlag)
      → l.watch.enabled ≡ true
      → is_flagged f l.watch ≡ true
      → IsPending l.ready ⊎ Waits f l.watch.watch_data

IsArmed-IsMonitored : (l : WatchLoop) → IsArmed l.watch → IsMonitored l
IsArmed-IsMonitored l a = record {
  socket = a.socket;
  is_live = a.is_live;
  waits = λ f h k. inr (a.waits f h k);
}

WatchStep-IsMonitored : {l m : WatchLoop} → WatchStep l m → IsMonitored l → IsMonitored m
WatchStep-IsMonitored {l} {m} (toggles b w e) i =
    IsArmed-IsMonitored m
      (IsArmed-answer (set_enabled b l.watch) w (set_enabled-live b l.watch i.socket i.is_live) e)
WatchStep-IsMonitored {l} {m} (fires s xs ys f e e') i = record {
  socket = record s { waits = xs ++ ys };
  is_live = refl;
  waits = λ g h k. inl (IsPending-last l.ready f);
}
WatchStep-IsMonitored {l} {m} (runs f rest bs w e e') i = IsArmed-IsMonitored m (
    IsArmed-answer (watch_handler bs l.watch) w (watch_handler-live bs l.watch i.socket i.is_live)
      e')

WatchReach-IsMonitored : {l m : WatchLoop} → WatchReach l m → IsMonitored l → IsMonitored m
WatchReach-IsMonitored here i = i
WatchReach-IsMonitored (next r st) i = WatchStep-IsMonitored st (WatchReach-IsMonitored r i)

-- A watch that is enabled when libdbus adds it, after any toggles, events on the file descriptor and
-- runs of handlers, with the toggles that libdbus makes in them: while it is enabled, each of its
-- flags is waited for, unless a handler is about to run; and a handler that runs, whatever it
-- toggles, has defined behaviour.
pub WatchReach-Waits :
    (w w' : Watch) (l : WatchLoop) (f : WatchFlag) (bs : List Bool)
    → w.enabled ≡ true
    → add_watch w ≡ some w'
    → WatchReach (added w') l
    → l.watch.enabled ≡ true
    → is_flagged f l.watch ≡ true
    → (IsPending l.ready ⊎ Waits f l.watch.watch_data)
      × ((w'' : Watch) × (watch_handler bs l.watch ≡ some w''))
WatchReach-Waits w w' l f bs h e r on flagged =
    let armed = IsArmed-answer (add_watch w) w' (add_watch-IsArmed w h) e in
    let i = WatchReach-IsMonitored r (IsArmed-IsMonitored (added w') armed) in
    let (w'', defined, a) = watch_handler-live bs l.watch i.socket i.is_live in
    (i.waits f on flagged, (w'', defined))
