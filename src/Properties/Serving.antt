-- ===== src/Properties/Serving.antt =====
-- include/dbus/properties.hpp: the three filters of `DbusObjectServer`, and their handlers, each of which
-- waits for the next message when it has done its work.
--
-- What the handlers answer is in Properties/Managed and Properties/Server; here they are taken to
-- return. `handled` are the messages that a handler has been called with. `header` reads a message.
pub mod Routes
pub mod Loops
pub mod Served
use boost_dbus.Common.{Bool, true, false, List, [], ◌∷◌, ◌++◌, Option, some}
use boost_dbus.Connection.{Connection}
use boost_dbus.Queue.{Closure, Queue, empty}
use boost_dbus.Filter.{
  Filter, HandlerResult, handled, not_yet_handled, new_filter, filter_callback, async_dispatch,
}
use boost_dbus.Properties.Server.{Header, is_introspect, is_get_managed_objects, is_method_call}

-- A filter of the server, with its handler.
pub data Service : Type 0 where
  introspect object_manager method : Service

pub record Loop (M : Type 0) : Type 0 where
  pub queue : Queue M Service
  pub handled : List M

pub record Serving (M : Type 0) : Type 0 where
  pub connection : Connection
  pub introspect_loop : Loop M
  pub object_manager_loop : Loop M
  pub method_loop : Loop M

-- The predicate of each filter.
abbrev pub predicate_of : Service → Header → Bool
predicate_of introspect = is_introspect
predicate_of object_manager = is_get_managed_objects
predicate_of method = is_method_call

module _ {M : Type 0} where
  abbrev pub loop : Service → Serving M → Loop M
  loop introspect s = s.introspect_loop
  loop object_manager s = s.object_manager_loop
  loop method s = s.method_loop

  abbrev pub set_loop : Service → Loop M → Serving M → Serving M
  set_loop introspect l s = record s { introspect_loop = l }
  set_loop object_manager l s = record s { object_manager_loop = l }
  set_loop method l s = record s { method_loop = l }

module _ {M : Type 0} (header : M → Header) where
  abbrev pub filter_of : Service → Serving M → Filter M Service
  filter_of k s = record {
    connection = s.connection;
    predicate = λ m. some (predicate_of k (header m));
    queue = (loop k s).queue;
  }

  -- `async_dispatch` of the service's own handler.
  unfoldable pub arm : Service → Serving M → Serving M
  unfolding async_dispatch
  arm k s =
      let f = async_dispatch k (filter_of k s) in
      record (set_loop k (record (loop k s) { queue = f.queue }) s) { connection = f.connection }

  abbrev pub unserved : Connection → Serving M
  unserved c = record {
    connection = c;
    introspect_loop = record { queue = empty; handled = [] };
    object_manager_loop = record { queue = empty; handled = [] };
    method_loop = record { queue = empty; handled = [] };
  }

  -- The constructor.
  unfoldable pub new_server : Connection → Serving M
  unfolding arm
  new_server c = arm method (arm object_manager (arm introspect (unserved c)))

  unfoldable pub offer_to : Service → M → Serving M → HandlerResult × Serving M
  unfolding filter_callback
  offer_to k m s =
      let (result, f) = filter_callback m (filter_of k s) in
      (result, set_loop k (record (loop k s) { queue = f.queue }) s)

  -- libdbus: a message goes to the filters in the order in which they were added, up to the first that
  -- handles it.
  abbrev pub or_else :
      HandlerResult × Serving M
      → (Serving M → HandlerResult × Serving M)
      → HandlerResult × Serving M
  or_else (handled, s) k = (handled, s)
  or_else (not_yet_handled, s) k = k s

  unfoldable pub arrive : M → Serving M → HandlerResult × Serving M
  unfolding offer_to
  arrive m s =
      or_else (offer_to introspect m s)
        (λ s'. or_else (offer_to object_manager m s') (offer_to method m))

  -- The io_service runs the first of the closures that the service's queue has posted, where there is
  -- one.
  unfoldable pub serve_first : Service → List (Closure M Service) → Serving M → Serving M
  unfolding arm
  serve_first k [] s = s
  serve_first k (c ∷ cs) s = arm k (
      set_loop k
        (record {
          queue = record ((loop k s).queue) { posted = cs };
          handled = (loop k s).handled ++ c.message ∷ [];
        })
        s)

  unfoldable pub serve : Service → Serving M → Serving M
  unfolding serve_first
  serve k s = serve_first k (loop k s).queue.posted s

-- A message arrives, or the io_service runs a closure.
pub data Event (M : Type 0) : Type 0 where
  arrives : M → Event M
  serves : Service → Event M

module _ {M : Type 0} (header : M → Header) where
  unfoldable pub happens : Event M → Serving M → Serving M
  unfolding arrive serve
  happens (arrives m) s = (arrive header m s).1
  happens (serves k) s = serve header k s

  unfoldable pub happens_all : List (Event M) → Serving M → Serving M
  unfolding happens
  happens_all [] s = s
  happens_all (e ∷ es) s = happens_all es (happens e s)
