-- ===== src/Watch/Disabled.antt =====
-- include/dbus/detail/watch_timeout.hpp: a watch that is disabled when it is added.
use boost_dbus.Common.{Bool, true, false, List, [], ◌∷◌, ◌++◌, Option, none, some, ◌≡◌, refl, ap}
use boost_dbus.Watch.{
  null, deleted, live, Watch, watch_toggled, add_watch, set_enabled, set_enabled_all,
}
use boost_dbus.Watch.Armed.{toggled}

watch_toggled-null : (w : Watch) → w.watch_data ≡ null → watch_toggled w ≡ some w
unfolding watch_toggled toggled
watch_toggled-null w h =
    ap
      (λ p. elim p as (λ _. Option Watch) [
        | null ↦ some w
        | deleted ↦ none
        | live s ↦ some (toggled w s)
      ])
      h

set_enabled_all-null :
    (bs : List Bool) (w : Watch)
    → w.watch_data ≡ null
    → (w' : Watch) × (set_enabled_all (bs ++ true ∷ []) w ≡ some w')
      × (w'.enabled ≡ true)
      × (w'.watch_data ≡ null)
unfolding set_enabled_all set_enabled
set_enabled_all-null [] w h =
    let w' : Watch = record w { enabled = true } in
    (w', rw (watch_toggled-null w' h, set_enabled_all) refl, refl, h)
set_enabled_all-null (b ∷ bs) w h =
    let (w', e, on, empty) = set_enabled_all-null bs (record w { enabled = b }) h in
    (w', rw (watch_toggled-null (record w { enabled = b }) h, set_enabled_all) e, on, empty)

-- A watch that is disabled when libdbus adds it, with no socket yet, gets none: after any toggles, the
-- last of which enables it, it is enabled and has no socket, so that nothing is waited for.
pub add_watch-disabled :
    (bs : List Bool) (w : Watch)
    → w.enabled ≡ false
    → w.watch_data ≡ null
    → (add_watch w ≡ some w)
      × ((w' : Watch) × (set_enabled_all (bs ++ true ∷ []) w ≡ some w')
          × (w'.enabled ≡ true)
          × (w'.watch_data ≡ null))
unfolding add_watch
add_watch-disabled bs w h empty = (rw (h, add_watch) refl, set_enabled_all-null bs w empty)
