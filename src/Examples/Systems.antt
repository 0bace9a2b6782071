-- ===== src/Examples/Systems.antt =====
-- A connection with two filters, a message that waits from the first, a method call and its reply.
-- Messages and handlers are numbers.
use boost_dbus.Common.{
  Among, ℕ, ◌≤◌, ◌≡◌, refl, Bool, true, false, List, [], ◌∷◌, ◌++◌, map, Option, none, some, length,
  ltb, ◌==◌, if◌then◌else◌, arith,
}
use boost_dbus.Connection.{
  DispatchStatus, data_remains, complete, new_connection, start, dispatch_handler,
}
use boost_dbus.Filter.{async_dispatch}
use boost_dbus.Filter.Chain.{add_filter}
use boost_dbus.AsyncSend.{idle, async_send_op, async_send, take_op, callback}
use boost_dbus.AsyncSend
use boost_dbus.System.{
  Delivery, to_filters, to_call, Link, LinkLaws, World, Event, waits, sends, arrives, runs, add_all,
  connected, dispatch_at, begun, dispatch, run_posted, run_all, happen, happen_all,
}
use boost_dbus.System.Mailboxes.{mailboxes, AllMatched}
use boost_dbus.System.Owed.{delivers, meant_all}
use boost_dbus.System.Served.{empty_mailbox, happen_all-served}
use boost_dbus.System.Injected.{happen_all-injected}
use boost_dbus.System.Settled.{paused}
use boost_dbus.System.Replied.{calls, happen_all-replied}
use boost_dbus.System.Answered.{happen_all-answered}

abbrev status : List (Delivery ℕ) → DispatchStatus
status [] = complete
status (d ∷ ds) = data_remains

abbrev change : DispatchStatus → DispatchStatus → Option DispatchStatus
change complete data_remains = some data_remains
change data_remains complete = some complete
change _ _ = none

abbrev tail : List (Delivery ℕ) → List (Delivery ℕ)
tail [] = []
tail (d ∷ ds) = ds

abbrev head : List (Delivery ℕ) → Option (Delivery ℕ)
head [] = none
head (d ∷ ds) = some d

-- A connection is the messages that wait on it.
abbrev wire : Link ℕ
wire = record {
  Conn = List (Delivery ℕ);
  receive = λ d ds. (change (status ds) data_remains, ds ++ d ∷ []);
  dispatch = λ ds. record {
    delivery = head ds;
    status = status (tail ds);
    change = change (status ds) (status (tail ds));
    conn = tail ds;
  };
}

abbrev wire_laws : LinkLaws wire
wire_laws = record {
  waiting = λ ds. ds;
  receives = λ d ds. refl;
  reports = λ d ds e. rw (e) refl;
  takes = λ c d ds e. rw (e) (refl, refl);
  takes_nothing = λ c e. rw (e) (refl, refl);
  remains = λ c d ds e. rw (e) refl;
}

-- Small numbers go to the filter at 1, all others to the one at 2.
abbrev filters : List (ℕ × (ℕ → Option Bool))
filters = (1, λ m. some (ltb m 5)) ∷ (2, λ m. some true) ∷ []

abbrev is_call : ℕ → Bool
is_call m = m == 9

abbrev first : List (Delivery ℕ)
first = to_filters 4 ∷ []

abbrev events : List (Event ℕ ℕ)
events =
    arrives (to_filters 3)
    ∷ waits 1 10
    ∷ sends 9 30
    ∷ runs
    ∷ arrives (to_filters 7)
    ∷ arrives (to_call 0 8)
    ∷ waits 2 20
    ∷ []

abbrev world : World ℕ wire
world = happen_all wire is_call events (connected ℕ wire first filters)

world-started : world.connection.is_paused ≡ false
unfolding happen_all happen connected begun dispatch_at async_dispatch async_send async_send_op
    start run_posted dispatch_handler dispatch add_all add_filter
world-started = refl

world-waiting : length world.conn ≤ 5
unfolding happen_all happen connected begun dispatch_at async_dispatch async_send async_send_op
    start run_posted dispatch_handler dispatch add_all add_filter
world-waiting = omega arith

happen_all-served_example :
    let w = run_all wire 5 world in
    (w.conn ≡ [])
    × (mailboxes w.filters ≡ meant_all events (delivers first (map empty_mailbox filters)))
    × AllMatched w.filters
happen_all-served_example =
    happen_all-served wire_laws is_call events first filters 5 world-started world-waiting

happen_all-replied_example :
    paused (run_all wire 5 world).sender
    ≡ paused (AsyncSend.happen is_call (calls events) (idle new_connection))
happen_all-replied_example =
    happen_all-replied wire_laws is_call events first filters 5 (tt, tt)
      (tt, (tt, (omega arith, tt))) world-started world-waiting

happen_all-injected_example :
    world.connection.injected ≡ (if world.connection.is_paused then 0 else 1)
happen_all-injected_example = happen_all-injected ℕ wire is_call events first filters

-- The call is answered: there is no other reply between.
happen_all-answered_example : Among (30, 8) (run_all wire 5 world).sender.posted
happen_all-answered_example =
    happen_all-answered wire_laws is_call events first filters 5 (tt, tt)
      (tt, (tt, (omega arith, tt))) world-started world-waiting [] [] [] 9 8 30 refl refl tt
