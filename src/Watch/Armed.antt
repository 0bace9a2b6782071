-- ===== src/Watch/Armed.antt =====
-- include/dbus/detail/watch_timeout.hpp: a watch that waits for its flags, and what keeps it so.
use boost_dbus.Common.{
  if-not, ℕ, Bool, true, List, [], ◌∷◌, ◌++◌, Option, none, some, if◌then◌else◌, ◌≡◌, refl, sym,
  ◌∙◌, ◌⊎◌, inl, inr,
}
use mathlib.Core.Path.{subst}
use mathlib.Core.Option.{some_inj}
use boost_dbus.Watch.{
  WatchFlag, readable, writable, Socket, SocketPointer, null, deleted, live, Watch, start_waits,
  cancel_waits, watch_toggled, add_watch, set_enabled, set_enabled_all, watch_handler,
}

abbrev pub Has : WatchFlag → List WatchFlag → Type 0
Has f [] = ⊥
Has f (g ∷ gs) = (g ≡ f) ⊎ Has f gs

-- A wait with the flag is outstanding.
abbrev pub Waits : WatchFlag → SocketPointer → Type 0
Waits f null = ⊥
Waits f deleted = ⊥
Waits f (live s) = Has f s.waits

-- The watch is to be told of the flag.
abbrev pub is_flagged : WatchFlag → Watch → Bool
is_flagged readable w = w.is_readable
is_flagged writable w = w.is_writable

Has-append : (f : WatchFlag) (xs ys : List WatchFlag) → Has f ys → Has f (xs ++ ys)
Has-append f [] ys h = h
Has-append f (x ∷ xs) ys h = inr (Has-append f xs ys h)

start_waits-Has :
    (f : WatchFlag) (w : Watch) (s : Socket) → is_flagged f w ≡ true → Has f (start_waits w s).waits
unfolding start_waits
start_waits-Has readable w s h = Has-append readable s.waits _ (rw (h) (inl refl))
start_waits-Has writable w s h =
    Has-append writable s.waits _
      (Has-append writable (if w.is_readable then readable ∷ [] else []) _ (rw (h) (inl refl)))

-- The watch has its socket and, where it is enabled, waits for its flags.
pub record IsArmed (w : Watch) : Type 0 where
  pub socket : Socket
  pub is_live : w.watch_data ≡ live socket
  pub waits : (f : WatchFlag) → w.enabled ≡ true → is_flagged f w ≡ true → Waits f w.watch_data

unfoldable pub toggled : Watch → Socket → Watch
toggled w s = record w { watch_data = live (if w.enabled then start_waits w s else cancel_waits s) }

toggled-Waits :
    (f : WatchFlag) (w : Watch) (s : Socket)
    → w.enabled ≡ true
    → is_flagged f (toggled w s) ≡ true
    → Waits f (toggled w s).watch_data
unfolding toggled start_waits
toggled-Waits readable w s h k = rw (h) (start_waits-Has readable w s k)
toggled-Waits writable w s h k = rw (h) (start_waits-Has writable w s k)

pub toggled-IsArmed : (w : Watch) (s : Socket) → IsArmed (toggled w s)
toggled-IsArmed w s = record {
  socket = if w.enabled then start_waits w s else cancel_waits s;
  is_live = unfold toggled in refl;
  waits = λ f h k. toggled-Waits f w s (unfold toggled in h) k;
}

watch_toggled-live :
    (w : Watch) (s : Socket) → w.watch_data ≡ live s → watch_toggled w ≡ some (toggled w s)
unfolding watch_toggled toggled
watch_toggled-live w s h = rw (h, watch_toggled) refl

set_enabled-IsArmed :
    (b : Bool) (w : Watch) → IsArmed w → (w' : Watch) × (set_enabled b w ≡ some w') × IsArmed w'
unfolding set_enabled
set_enabled-IsArmed b w a = (
  toggled (record w { enabled = b }) a.socket,
  watch_toggled-live (record w { enabled = b }) a.socket a.is_live,
  toggled-IsArmed (record w { enabled = b }) a.socket,
)

set_enabled_all-IsArmed :
    (bs : List Bool) (w : Watch)
    → IsArmed w
    → (w' : Watch) × (set_enabled_all bs w ≡ some w') × IsArmed w'
unfolding set_enabled_all
set_enabled_all-IsArmed [] w a = (w, refl, a)
set_enabled_all-IsArmed (b ∷ bs) w a =
    let (w', e, a') = set_enabled-IsArmed b w a in
    let (w'', f, a'') = set_enabled_all-IsArmed bs w' a' in (w'', rw (e, set_enabled_all) f, a'')

-- The handler has defined behaviour on a watch with a socket.
watch_handler-IsArmed :
    (bs : List Bool) (w : Watch)
    → IsArmed w
    → (w' : Watch) × (watch_handler bs w ≡ some w') × IsArmed w'
unfolding watch_handler
watch_handler-IsArmed bs w a =
    let (w', e, a') = set_enabled_all-IsArmed bs w a in
    (
      toggled w' a'.socket,
      rw (e, watch_handler) (rw (a'.is_live) (watch_toggled-live w' a'.socket a'.is_live)),
      toggled-IsArmed w' a'.socket,
    )

pub IsArmed-answer :
    (m : Option Watch) (w : Watch)
    → ((w' : Watch) × (m ≡ some w') × IsArmed w')
    → m ≡ some w
    → IsArmed w
IsArmed-answer m w (w', e, a) f = subst IsArmed (some_inj.0 (sym e ∙ f)) a

-- Toggling and the handler arm a watch whose socket is live.
pub set_enabled-live :
    (b : Bool) (w : Watch) (s : Socket)
    → w.watch_data ≡ live s
    → (w' : Watch) × (set_enabled b w ≡ some w') × IsArmed w'
unfolding set_enabled
set_enabled-live b w s h = (
  toggled (record w { enabled = b }) s,
  watch_toggled-live (record w { enabled = b }) s h,
  toggled-IsArmed (record w { enabled = b }) s,
)

pub watch_handler-live :
    (bs : List Bool) (w : Watch) (s : Socket)
    → w.watch_data ≡ live s
    → (w' : Watch) × (watch_handler bs w ≡ some w') × IsArmed w'
unfolding watch_handler set_enabled_all toggled
watch_handler-live [] w s h =
    (toggled w s, rw (h, watch_handler) (watch_toggled-live w s h), toggled-IsArmed w s)
watch_handler-live (b ∷ bs) w s h =
    let (w', e, a) = set_enabled-live b w s h in
    let (w'', f, a'') = watch_handler-IsArmed bs w' a in
    (w'', rw (e, watch_handler, set_enabled_all) f, a'')

pub add_watch-IsArmed :
    (w : Watch) → w.enabled ≡ true → (w' : Watch) × (add_watch w ≡ some w') × IsArmed w'
unfolding add_watch
add_watch-IsArmed w h =
    let fd : Option ℕ = elim w.unix_fd [ none ↦ w.socket | some f ↦ some f ] in
    let s : Socket = record { fd = fd; waits = [] } in
    let w' : Watch = record w { watch_data = live s } in
    (toggled w' s, if-not w.enabled _ _ h ∙ watch_toggled-live w' s refl, toggled-IsArmed w' s)
