-- ===== src/Connection.antt =====
-- include/dbus/impl/connection.ipp and include/dbus/detail/watch_timeout.hpp: how a connection starts to
-- dispatch incoming messages, and the handler that goes on doing so.
--
-- `injected` counts the dispatch handlers that `start` has posted to the io_service. Each function is
-- one compare-and-exchange and what follows it.
pub mod Starting
pub mod Dispatching
pub mod Opening
pub mod Lifetime
use boost_dbus.Common.{ℕ, zero, suc, ◌+◌, ◌≡◌, Bool, true, false, List, [], ◌∷◌, if◌then◌else◌}

pub record Connection : Type 0 where
  pub is_paused : Bool
  pub injected : ℕ

abbrev pub new_connection : Connection
new_connection = record { is_paused = true; injected = 0 }

unfoldable pub start : Connection → Connection
start c = if c.is_paused then record { is_paused = false; injected = c.injected + 1 } else c

unfoldable pub cancel : Connection → Connection
cancel c = if c.is_paused then c else record c { is_paused = true }

-- The calls of all threads, in the order of their compare-and-exchange.
pub data Call : Type 0 where
  starts cancels : Call

unfoldable pub make : Call → Connection → Connection
unfolding start cancel
make starts c = start c
make cancels c = cancel c

unfoldable pub make_all : List Call → Connection → Connection
unfolding make
make_all [] c = c
make_all (k ∷ ks) c = make_all ks (make k c)

-- What `dbus_connection_dispatch` answers.
pub data DispatchStatus : Type 0 where
  data_remains complete need_memory : DispatchStatus

-- libdbus: dispatching takes one message from those that wait.
pub record Dispatcher : Type 1 where
  pub Conn : Type 0
  pub dispatch : Conn → DispatchStatus × Conn

-- `waiting` is how many messages wait. With memory enough, data remain after a dispatch where some
-- still wait, and it is complete where none does.
pub record DispatcherLaws (d : Dispatcher) : Type 0 where
  pub waiting : d.Conn → ℕ
  pub takes : (c : d.Conn) (n : ℕ) → waiting c ≡ suc n → waiting (d.dispatch c).1 ≡ n
  pub remains :
      (c : d.Conn) (n : ℕ) → waiting (d.dispatch c).1 ≡ suc n → (d.dispatch c).0 ≡ data_remains
  pub completes : (c : d.Conn) → waiting (d.dispatch c).1 ≡ zero → (d.dispatch c).0 ≡ complete

abbrev pub posts : DispatchStatus → ℕ
posts data_remains = 1
posts _ = 0

module _ (d : Dispatcher) where
  -- A run of `dispatch_handler`: how many handlers it posts, and the connection.
  unfoldable pub dispatch_handler : d.Conn → ℕ × d.Conn
  dispatch_handler c = (posts (d.dispatch c).0, (d.dispatch c).1)

  -- The io_service runs the dispatch handlers that are posted, `pending` of them, at most `fuel` of
  -- them: what is then pending, and the connection.
  unfoldable pub run_handlers : (fuel pending : ℕ) → d.Conn → ℕ × d.Conn
  unfolding dispatch_handler
  run_handlers zero pending c = (pending, c)
  run_handlers (suc fuel) zero c = (zero, c)
  run_handlers (suc fuel) (suc pending) c =
      let (more, c') = dispatch_handler c in run_handlers fuel (pending + more) c'

-- The callback that libdbus makes when the status changes: how many handlers it posts.
unfoldable pub dispatch_status : DispatchStatus → ℕ
dispatch_status new_status = posts new_status
