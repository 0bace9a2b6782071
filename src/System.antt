-- ===== src/System.antt =====
-- One connection with all that share it: include/dbus/impl/connection.ipp, its filters
-- (include/dbus/filter.hpp, include/dbus/impl/filter.ipp), its asynchronous sends
-- (include/dbus/detail/async_send_op.hpp) and its dispatch handlers
-- (include/dbus/detail/watch_timeout.hpp), which the io_service runs.
--
-- Filters and sends hold the connection by pointer: it is put into their record before a call, and read
-- back after it.
pub mod Mailboxes
pub mod Owed
pub mod Ready
pub mod Injected
pub mod Settled
pub mod Replied
pub mod Answered
pub mod Served
use boost_dbus.Common.{
  ℕ, zero, suc, ◌+◌, ◌-◌, ◌≡◌, Bool, List, [], ◌∷◌, ◌++◌, Option, none, some, ◌==◌, if◌then◌else◌,
}
use boost_dbus.Connection.{
  Connection, new_connection, DispatchStatus, data_remains, Dispatcher, dispatch_handler,
  dispatch_status,
}
use boost_dbus.Filter.{Filter, new_filter, async_dispatch}
use boost_dbus.Filter.Chain.{offer_all, add_filter}
use boost_dbus.AsyncSend.{Sender, idle, async_send, callback}

-- What libdbus does with a message that it dispatches: it offers it to the filters, or it completes a
-- pending call, a number here, whose reply it is.
pub data Delivery (M : Type 0) : Type 0 where
  to_filters : M → Delivery M
  to_call : ℕ → M → Delivery M

-- What `dbus_connection_dispatch` takes, what it answers, and the status that it tells the status
-- function where that has changed.
pub record Taken (M C : Type 0) : Type 0 where
  pub delivery : Option (Delivery M)
  pub status : DispatchStatus
  pub change : Option DispatchStatus
  pub conn : C

-- libdbus: a message is received, which may change the status; a message is dispatched.
pub record Link (M : Type 0) : Type 1 where
  pub Conn : Type 0
  pub receive : Delivery M → Conn → Option DispatchStatus × Conn
  pub dispatch : Conn → Taken M Conn

-- `waiting` is the messages that are received and not dispatched, in order. With memory enough, the
-- status changes to DATA_REMAINS where a message comes and none waits.
pub record LinkLaws {M : Type 0} (l : Link M) : Type 0 where
  pub waiting : l.Conn → List (Delivery M)
  pub receives : (d : Delivery M) (c : l.Conn) → waiting (l.receive d c).1 ≡ waiting c ++ d ∷ []
  pub reports :
      (d : Delivery M) (c : l.Conn) → waiting c ≡ [] → (l.receive d c).0 ≡ some data_remains
  pub takes :
      (c : l.Conn) (d : Delivery M) (ds : List (Delivery M))
      → waiting c ≡ d ∷ ds
      → ((l.dispatch c).delivery ≡ some d) × (waiting (l.dispatch c).conn ≡ ds)
  pub takes_nothing :
      (c : l.Conn)
      → waiting c ≡ []
      → ((l.dispatch c).delivery ≡ none) × (waiting (l.dispatch c).conn ≡ [])
  pub remains :
      (c : l.Conn) (d : Delivery M) (ds : List (Delivery M))
      → waiting (l.dispatch c).conn ≡ d ∷ ds
      → (l.dispatch c).status ≡ data_remains

-- `pending` counts the dispatch handlers that are posted and have not run.
pub record World {M : Type 0} (H : Type 0) (l : Link M) : Type 0 where
  pub conn : l.Conn
  pub connection : Connection
  pub pending : ℕ
  pub filters : List (ℕ × Filter M H)
  pub sender : Sender M H

-- What the program does, what comes in, and a run of a dispatch handler.
pub data Event (M H : Type 0) : Type 0 where
  waits : ℕ → H → Event M H
  sends : M → H → Event M H
  arrives : Delivery M → Event M H
  runs : Event M H

module _ {M H : Type 0} where
  unfoldable pub offered : Option (Delivery M) → List (ℕ × Filter M H) → List (ℕ × Filter M H)
  unfolding offer_all
  offered none fs = fs
  offered (some (to_filters m)) fs = (offer_all m fs).1
  offered (some (to_call p m)) fs = fs

  unfoldable pub completed : Option (Delivery M) → Sender M H → Sender M H
  unfolding callback
  completed none s = s
  completed (some (to_filters m)) s = s
  completed (some (to_call p m)) s = callback p m s

  -- `async_dispatch` of the filter at an address.
  unfoldable pub dispatch_at :
      ℕ → H → Connection → List (ℕ × Filter M H) → Connection × List (ℕ × Filter M H)
  unfolding async_dispatch
  dispatch_at a h c [] = (c, [])
  dispatch_at a h c ((b, f) ∷ fs) =
      let rest = dispatch_at a h c fs in
      let f' = async_dispatch h (record f { connection = c }) in
      if b == a then (f'.connection, (b, f') ∷ fs) else (rest.0, (b, f) ∷ rest.1)

module _ {M H : Type 0} where
  -- Filters are made, each at its address and with its predicate.
  unfoldable pub add_all :
      List (ℕ × (M → Option Bool)) → List (ℕ × Filter M H) → List (ℕ × Filter M H)
  unfolding add_filter
  add_all [] fs = fs
  add_all ((a, p) ∷ ps) fs = add_all ps (add_filter a (new_filter new_connection p) fs)

-- A connection that is open and was not started, with its filters.
unfoldable pub connected :
    {M : Type 0} (H : Type 0) (l : Link M) → l.Conn → List (ℕ × (M → Option Bool)) → World H l
unfolding add_all
connected H l c ps = record {
  conn = c;
  connection = new_connection;
  pending = 0;
  filters = add_all ps [];
  sender = idle new_connection;
}

-- The handlers that the status function posts.
unfoldable pub reported : Option DispatchStatus → ℕ
unfolding dispatch_status
reported none = 0
reported (some s) = dispatch_status s

module _ {M H : Type 0} (l : Link M) where
  -- A call has left the connection like this: what `start` has injected is posted.
  unfoldable pub begun : Connection → World H l → World H l
  begun c w = record w {
    connection = c;
    pending = w.pending + (c.injected - w.connection.injected);
  }

  unfoldable pub dispatch : World H l → DispatchStatus × World H l
  unfolding offered completed reported
  dispatch w =
      let t = l.dispatch w.conn in
      (
        t.status,
        record w {
          conn = t.conn;
          filters = offered t.delivery w.filters;
          sender = completed t.delivery w.sender;
          pending = w.pending + reported t.change;
        },
      )

-- The connection as its dispatch handlers see it: to dispatch may change all that shares it.
abbrev pub dispatcher : {M : Type 0} (H : Type 0) → Link M → Dispatcher
dispatcher H l = record { Conn = World H l; dispatch = dispatch l }

module _ {M H : Type 0} (l : Link M) where
  -- The io_service takes a dispatch handler that is posted, and runs it.
  unfoldable pub run_posted : World H l → World H l
  unfolding dispatch_handler
  run_posted w = elim w.pending [
    | zero ↦ w
    | suc p ↦
        let (more, w') = dispatch_handler (dispatcher H l) (record w { pending = p }) in
        record w' { pending = w'.pending + more }
  ]

  -- Dispatch handlers run, at most `n` of them.
  unfoldable pub run_all : ℕ → World H l → World H l
  unfolding run_posted
  run_all zero w = w
  run_all (suc n) w = run_all n (run_posted w)

module _ {M H : Type 0} (l : Link M) (is_method_call : M → Bool) where
  unfoldable pub happen : Event M H → World H l → World H l
  unfolding dispatch_at async_send begun run_posted reported
  happen (waits a h) w =
      let (c, fs) = dispatch_at a h w.connection w.filters in begun l c (record w { filters = fs })
  happen (sends m h) w =
      let s = async_send is_method_call m h (record w.sender { connection = w.connection }) in
      begun l s.connection (record w { sender = s })
  happen (arrives d) w =
      let (change, c) = l.receive d w.conn in
      record w { conn = c; pending = w.pending + reported change }
  happen runs w = run_posted l w

  unfoldable pub happen_all : List (Event M H) → World H l → World H l
  unfolding happen
  happen_all [] w = w
  happen_all (e ∷ es) w = happen_all es (happen e w)
