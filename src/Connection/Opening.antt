-- ===== src/Connection/Opening.antt =====
-- include/dbus/impl/connection.ipp: opening a connection, asking for a name, and closing it.
--
-- `log` is what the code tells libdbus about its connection; a null pointer is `none`. An answer is
-- the exception that is thrown, or `none`.
pub mod Released
use boost_dbus.Common.{ℕ, Bool, true, false, List, [], ◌∷◌, ◌++◌, Bytes, Option, none, some, c_str}
use boost_dbus.Error.{DbusError, SystemError, throw_if_set}

-- libdbus: each call answers what it makes, and the error that it sets.
pub record Opener : Type 1 where
  pub Handle : Type 0
  pub bus_get_private : ℕ → Option Handle × Option DbusError
  pub open_private : Bytes → Option Handle × Option DbusError
  pub register : Option Handle → Option DbusError
  pub request_name : Option Handle → Bytes → Option DbusError
  pub get_unique_name : Option Handle → Option Bytes

pub data Target : Type 0 where
  at_address : Bytes → Target
  at_bus : ℕ → Target

module _ (op : Opener) where
  open op use {Handle}

  pub data Action : Type 0 where
    exits_on_disconnect : Bool → Option Handle → Action
    sets_watch_functions sets_timeout_functions : Option Handle → Action
    sets_dispatch_status_function : Option Handle → Action
    flushes : Option Handle → Action
    closes : Handle → Action
    unrefs : Handle → Action

  pub record Impl : Type 0 where
    pub conn : Option Handle
    pub log : List Action

  abbrev pub unopened : Impl
  unopened = record { conn = none; log = [] }

  -- What follows where nothing was thrown.
  abbrev pub unless_thrown :
      Option SystemError → Impl → (Impl → Option SystemError × Impl) → Option SystemError × Impl
  unless_thrown none i k = k i
  unless_thrown (some x) i k = (some x, i)

  unfoldable pub set_watch_timeout_dispatch_functions : Option Handle → List Action
  set_watch_timeout_dispatch_functions conn =
      sets_watch_functions conn
      ∷ sets_timeout_functions conn
      ∷ sets_dispatch_status_function conn
      ∷ []

  unfoldable pub set_up : Impl → Option SystemError × Impl
  unfolding set_watch_timeout_dispatch_functions
  set_up i = (
    none,
    record i {
      log = i.log ++ exits_on_disconnect false i.conn ∷ set_watch_timeout_dispatch_functions i.conn;
    },
  )

  unfoldable pub open_bus : ℕ → Impl → Option SystemError × Impl
  unfolding set_up
  open_bus bus i =
      let (conn, e) = op.bus_get_private bus in
      unless_thrown (throw_if_set e) (record i { conn = conn }) set_up

  unfoldable pub open_address : Bytes → Impl → Option SystemError × Impl
  unfolding set_up
  open_address address i =
      let (conn, e) = op.open_private (c_str address) in
      unless_thrown (throw_if_set e) (record i { conn = conn })
        (λ j. unless_thrown (throw_if_set (op.register j.conn)) j set_up)

  unfoldable pub request_name : Bytes → Impl → Option SystemError
  request_name name i = throw_if_set (op.request_name i.conn (c_str name))

  -- The error is never set; `none` where a `std::string` is made of a null pointer.
  unfoldable pub get_unique_name : Impl → Option Bytes
  get_unique_name i = op.get_unique_name i.conn

  -- It blocks until what waits to be sent is written.
  unfoldable pub flush : Impl → Impl
  flush i = record i { log = i.log ++ flushes i.conn ∷ [] }

  -- The destructor.
  unfoldable pub destroy : Impl → Impl
  destroy i = elim i.conn [
    | none ↦ i
    | some h ↦ record i { log = i.log ++ closes h ∷ unrefs h ∷ [] }
  ]

  -- `connection_service::open`, for an address or a well-known bus.
  unfoldable pub open_target : Target → Impl → Option SystemError × Impl
  unfolding open_address open_bus
  open_target (at_address a) i = open_address a i
  open_target (at_bus b) i = open_bus b i

  -- Where the body of a constructor throws, the implementation is destroyed.
  abbrev pub unwound : Option SystemError × Impl → Option SystemError × Impl
  unwound (none, i) = (none, i)
  unwound (some x, i) = (some x, destroy i)

  -- The constructors of `connection`.
  unfoldable pub connect : Target → Option SystemError × Impl
  unfolding open_target destroy
  connect t = unwound (open_target t unopened)
