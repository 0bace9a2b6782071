-- ===== src/Watch/Growth.antt =====
-- include/dbus/detail/watch_timeout.hpp: what becomes of the waits of a watch with both flags.
use boost_dbus.Common.{
  Bool, true, false, ℕ, zero, suc, List, [], ◌∷◌, ◌++◌, Option, none, some, if◌then◌else◌, ◌≡◌,
  refl, ap,
}
use boost_dbus.Watch.{
  WatchFlag, readable, writable, null, deleted, live, Watch, add_watch, watch_toggled, start_waits,
  set_enabled_all, watch_handler, WatchLoop, added,
}

abbrev same_flag : WatchFlag → WatchFlag → Bool
same_flag readable readable = true
same_flag writable writable = true
same_flag _ _ = false

-- The waits without the oldest one for the flag.
unfoldable pub take_wait : WatchFlag → List WatchFlag → Option (List WatchFlag)
take_wait f [] = none
take_wait f (g ∷ gs) =
    let rest : Option (List WatchFlag) = elim (take_wait f gs) [
      | none ↦ none
      | some hs ↦ some (g ∷ hs)
    ] in
    if same_flag f g then some gs else rest

-- The socket is ready for the flag: the oldest wait for it is over, and its handler is ready.
unfoldable pub fire : WatchFlag → WatchLoop → Option WatchLoop
unfolding take_wait
fire f l = elim l.watch.watch_data [
  | null ↦ none
  | deleted ↦ none
  | live s ↦ elim (take_wait f s.waits) [
    | none ↦ none
    | some ws ↦ some (record l {
      watch = record (l.watch) { watch_data = live (record s { waits = ws }) };
      ready = l.ready ++ f ∷ [];
    })
  ]
]

-- The handlers that are ready run, one after the other; libdbus toggles nothing in them.
unfoldable pub run_handlers : List WatchFlag → Watch → List WatchFlag → Option WatchLoop
unfolding watch_handler
run_handlers [] w handled = some (record { watch = w; ready = []; handled = handled })
run_handlers (f ∷ fs) w handled = elim (watch_handler [] w) [
  | none ↦ none
  | some w' ↦ run_handlers fs w' (handled ++ f ∷ [])
]

-- The file descriptor becomes readable, and what is ready then runs.
unfoldable pub read_once : WatchLoop → Option WatchLoop
unfolding fire run_handlers
read_once l = elim (fire readable l) [
  | none ↦ none
  | some m ↦ run_handlers m.ready m.watch m.handled
]

unfoldable pub reads : ℕ → WatchLoop → Option WatchLoop
unfolding read_once
reads zero l = some l
reads (suc n) l = elim (reads n l) [ none ↦ none | some m ↦ read_once m ]

abbrev pub replicate : {A : Type 0} → ℕ → A → List A
replicate zero x = []
replicate (suc n) x = x ∷ replicate n x

replicate-last : {A : Type 0} (n : ℕ) (x : A) → replicate n x ++ x ∷ [] ≡ replicate (suc n) x
replicate-last zero x = refl
replicate-last (suc n) x = ap (◌∷◌ x) (replicate-last n x)

-- A watch for reading and for writing, as libdbus adds it.
abbrev pub two_way : (unix_fd socket : Option ℕ) → Watch
two_way unix_fd socket = record {
  enabled = true;
  is_readable = true;
  is_writable = true;
  unix_fd = unix_fd;
  socket = socket;
  watch_data = null;
}

take_wait_lem :
    (n : ℕ)
    → take_wait readable (replicate n writable ++ readable ∷ writable ∷ [])
      ≡ some (replicate (suc n) writable)
unfolding take_wait
take_wait_lem zero = refl
take_wait_lem (suc n) = rw (take_wait_lem n)

module _ (unix_fd socket : Option ℕ) where
  -- The same with its socket.
  abbrev pub waiting : List WatchFlag → Watch
  waiting waits = record (two_way unix_fd socket) {
    watch_data =
        live (record { fd = elim unix_fd [ none ↦ socket | some f ↦ some f ]; waits = waits });
  }

  abbrev pub resting : (waits handled : List WatchFlag) → WatchLoop
  resting waits handled = record { watch = waiting waits; ready = []; handled = handled }

  abbrev after_reads : ℕ → WatchLoop
  after_reads n = resting (replicate n writable ++ readable ∷ writable ∷ []) (replicate n readable)

  fire_lem :
      (n : ℕ)
      → fire readable (after_reads n)
        ≡ some (record {
          watch = waiting (replicate (suc n) writable);
          ready = readable ∷ [];
          handled = replicate n readable;
        })
  unfolding fire
  fire_lem n = rw (take_wait_lem n, fire) refl

  read_once_lem : (n : ℕ) → read_once (after_reads n) ≡ some (after_reads (suc n))
  unfolding read_once run_handlers watch_handler set_enabled_all watch_toggled start_waits
  read_once_lem n = rw (fire_lem n, read_once, replicate-last n readable)

  reads_lem : (n : ℕ) → reads n (after_reads 0) ≡ some (after_reads n)
  unfolding reads
  reads_lem zero = refl
  reads_lem (suc n) = rw (reads_lem n, read_once_lem n)

  -- A watch with both flags that is enabled when libdbus adds it: after its file descriptor has become
  -- readable `n` times and its handler has run each time, where libdbus toggles nothing and the socket
  -- does not become writable, `n` + 1 waits for writing are outstanding on its socket, and one for
  -- reading; and libdbus has been told `n` times that it is readable.
  pub add_watch-accumulates :
      (n : ℕ)
      → (w : Watch) × (add_watch (two_way unix_fd socket) ≡ some w)
        × (reads n (added w)
            ≡ some
                (resting (replicate n writable ++ readable ∷ writable ∷ []) (replicate n readable)))
  unfolding add_watch watch_toggled start_waits
  add_watch-accumulates n = (waiting (readable ∷ writable ∷ []), refl, reads_lem n)
