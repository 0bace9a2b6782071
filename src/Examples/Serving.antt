-- ===== src/Examples/Serving.antt =====
-- The server as messages come in.
use boost_dbus.Common.{
  ◌≤◌, ◌≡◌, refl, false, List, [], ◌∷◌, ◌++◌, none, some, codes, arith, bytes_eq, length,
}
use boost_dbus.Connection.{new_connection}
use boost_dbus.Client.{pack_call}
use boost_dbus.Client.Routed.{header_of}
use boost_dbus.Client.Served.{pack_call-served}
use boost_dbus.Filter.{async_dispatch}
use boost_dbus.Queue.{async_pop}
use boost_dbus.Message.Headers.{Endpoint}
use boost_dbus.Properties.Server.{
  Header, is_introspect, is_get_managed_objects, is_method_call, calls, on_method_call,
}
use boost_dbus.Properties.Serving.{
  method, Event, arrives, serves, arm, new_server, happens_all, loop,
}
use boost_dbus.Properties.Serving.Routes.{arrived_for}
use boost_dbus.Properties.Serving.Loops.{loop_with}
use boost_dbus.Properties.Serving.Served.{serves_times, happens_all-serves, happens_all-finishes}
use boost_dbus.Examples.Objects.{hello, sensor, foo, bar, sensor-there}
use boost_dbus.Examples.Servers.{bar-not_foo, hello-there}
use boost_dbus.Examples.Clients.{letters, letters_laws}

abbrev next : Endpoint
next = record {
  process_name = codes "org.example";
  path = codes "/foo";
  interface = codes "s";
  member = codes "Hello";
}

no_introspection : bytes_eq next.interface (codes "org.freedesktop.DBus.Introspectable") ≡ false
unfolding bytes_eq
no_introspection = refl

no_management : bytes_eq next.interface (codes "org.freedesktop.DBus.ObjectManager") ≡ false
unfolding bytes_eq
no_management = refl

new_server-idle :
    loop method (new_server (header_of letters) new_connection) ≡ loop_with method [] []
unfolding new_server arm async_dispatch async_pop
new_server-idle = refl

pack_call-served_example :
    let m = (pack_call letters next [] tt tt).1 in
    (loop method (
        happens_all
          (header_of letters)
          (arrives m ∷ serves method ∷ [])
          (new_server (header_of letters) new_connection))
      ≡ loop_with method (m ∷ []) [])
    × (on_method_call false (header_of letters m) (some bar ∷ some foo ∷ none ∷ [])
        ≡ calls foo hello)
pack_call-served_example =
    pack_call-served letters_laws next [] tt tt (bar ∷ []) foo (none ∷ []) sensor hello []
      (new_server (header_of letters) new_connection) (refl, (refl, (refl, (refl, tt)))) (refl, tt)
      (refl, (refl, (refl, (refl, (refl, tt))))) no_introspection no_management (bar-not_foo, tt)
      refl sensor-there hello-there new_server-idle

-- A call, a request for the document, and a signal.
abbrev call : Header
call = record {
  type = codes "method_call";
  path = codes "/foo";
  interface = codes "s";
  member = codes "Hello";
}

abbrev ask : Header
ask = record {
  type = codes "method_call";
  path = codes "/foo";
  interface = codes "org.freedesktop.DBus.Introspectable";
  member = codes "Introspect";
}

abbrev told : Header
told = record {
  type = codes "signal";
  path = codes "/foo";
  interface = codes "s";
  member = codes "Changed";
}

abbrev itself : Header → Header
itself m = m

abbrev events : List (Event Header)
events = arrives call ∷ arrives ask ∷ arrives told ∷ serves method ∷ arrives call ∷ []

happens_all-serves_example :
    (done : List Header) × (pending : List Header) × (loop method
        (happens_all itself events (new_server itself new_connection))
      ≡ loop_with method done pending)
    × (done ++ pending ≡ arrived_for itself method events)
happens_all-serves_example = happens_all-serves itself method new_connection events

few : length (arrived_for itself method events) ≤ 3
unfolding is_introspect is_get_managed_objects is_method_call bytes_eq
few = omega arith

happens_all-finishes_example :
    loop method
      (happens_all itself (events ++ serves_times 3 method) (new_server itself new_connection))
    ≡ loop_with method (arrived_for itself method events) []
happens_all-finishes_example = happens_all-finishes itself method new_connection events 3 few
