-- ===== src/Watch.antt =====
-- include/dbus/detail/watch_timeout.hpp: the watches of libdbus on sockets of boost::asio.
--
-- libdbus keeps `enabled` and the flags of a watch; the code keeps a pointer to a socket with it. A
-- socket holds the waits that are outstanding on it, each with the flag that its handler was made
-- with. -1 for a file descriptor is `none`. A function answers `none` where its behaviour is undefined:
-- where it follows a pointer to a socket that is deleted.
pub mod Armed
pub mod Monitoring
pub mod Disabled
pub mod Growth
use boost_dbus.Common.{
  Bool, true, false, not, ℕ, List, [], ◌∷◌, ◌++◌, Option, none, some, if◌then◌else◌, ◌≡◌,
}

pub data WatchFlag : Type 0 where
  readable writable : WatchFlag

pub record Socket : Type 0 where
  pub fd : Option ℕ
  pub waits : List WatchFlag

pub data SocketPointer : Type 0 where
  null deleted : SocketPointer
  live : Socket → SocketPointer

pub record Watch : Type 0 where
  pub enabled : Bool
  pub is_readable : Bool
  pub is_writable : Bool
  pub unix_fd : Option ℕ
  pub socket : Option ℕ
  pub watch_data : SocketPointer

-- `socket->async_read_some` and `socket->async_write_some` for the flags of the watch.
unfoldable pub start_waits : Watch → Socket → Socket
start_waits w s =
    let reading = if w.is_readable then readable ∷ [] else [] in
    let writing = if w.is_writable then writable ∷ [] else [] in
    record s { waits = s.waits ++ (reading ++ writing) }

-- `socket->cancel()`: the handlers of the waits run with an error, and do nothing.
unfoldable pub cancel_waits : Socket → Socket
cancel_waits s = record s { waits = [] }

unfoldable pub watch_toggled : Watch → Option Watch
unfolding start_waits cancel_waits
watch_toggled w = elim w.watch_data [
  | null ↦ some w
  | deleted ↦ none
  | live s ↦
      some (record w { watch_data = live (if w.enabled then start_waits w s else cancel_waits s) })
]

-- It always answers TRUE to libdbus.
unfoldable pub add_watch : Watch → Option Watch
unfolding watch_toggled
add_watch w =
    let fd : Option ℕ = elim w.unix_fd [ none ↦ w.socket | some f ↦ some f ] in
    if not w.enabled
    then some w
    else watch_toggled (record w { watch_data = live (record { fd = fd; waits = [] }) })

-- `delete` of the socket; the pointer stays with the watch.
unfoldable pub remove_watch : Watch → Option Watch
remove_watch w = elim w.watch_data [
  | null ↦ some w
  | deleted ↦ none
  | live s ↦ some (record w { watch_data = deleted })
]

-- libdbus enables or disables the watch and calls `watch_toggled`.
unfoldable pub set_enabled : Bool → Watch → Option Watch
unfolding watch_toggled
set_enabled b w = watch_toggled (record w { enabled = b })

unfoldable pub set_enabled_all : List Bool → Watch → Option Watch
unfolding set_enabled
set_enabled_all [] w = some w
set_enabled_all (b ∷ bs) w = elim (set_enabled b w) [
  | none ↦ none
  | some w' ↦ set_enabled_all bs w'
]

-- `watch_handler::operator()` without an error. `bs` are the toggles that libdbus makes in
-- `dbus_watch_handle`.
unfoldable pub watch_handler : List Bool → Watch → Option Watch
unfolding set_enabled_all watch_toggled
watch_handler bs w = elim (set_enabled_all bs w) [
  | none ↦ none
  | some w' ↦ elim w'.watch_data [ null ↦ some w' | _ ↦ watch_toggled w' ]
]

-- A watch and the io_service: `ready` are the handlers that wait to run without an error, `handled`
-- the flags that have been passed to libdbus.
pub record WatchLoop : Type 0 where
  pub watch : Watch
  pub ready : List WatchFlag
  pub handled : List WatchFlag

pub data WatchStep (l : WatchLoop) : WatchLoop → Type 0 where
  toggles :
      (b : Bool) (w : Watch) → set_enabled b l.watch ≡ some w → WatchStep l (record l { watch = w })
  fires :
      (s : Socket) (xs ys : List WatchFlag) (f : WatchFlag)
      → l.watch.watch_data ≡ live s
      → s.waits ≡ xs ++ f ∷ ys
      → WatchStep l (record l {
        watch = record (l.watch) { watch_data = live (record s { waits = xs ++ ys }) };
        ready = l.ready ++ f ∷ [];
      })
  runs :
      (f : WatchFlag) (rest : List WatchFlag) (bs : List Bool) (w : Watch)
      → l.ready ≡ f ∷ rest
      → watch_handler bs l.watch ≡ some w
      → WatchStep l (record { watch = w; ready = rest; handled = l.handled ++ f ∷ [] })

pub data WatchReach (l : WatchLoop) : WatchLoop → Type 0 where
  here : WatchReach l l
  next : {m n : WatchLoop} → WatchReach l m → WatchStep m n → WatchReach l n

-- The loop right after libdbus has added a watch.
abbrev pub added : Watch → WatchLoop
added w = record { watch = w; ready = []; handled = [] }
