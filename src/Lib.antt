-- ===== src/Lib.antt =====
-- boost-dbus: a C++ binding of libdbus on boost::asio, in headers under include/dbus.
--
-- The program. A `message` is filled by a packer and read by an unpacker (include/dbus/message.hpp);
-- both work through message iterators (include/dbus/impl/message_iterator.ipp), which call libdbus one
-- to one, and with type codes and signatures that include/dbus/element.hpp computes at compile time.
-- Incoming messages are offered to filters, each of which puts its own into a queue
-- (include/dbus/detail/queue.hpp), where they meet the handlers that wait. On top of this,
-- include/dbus/properties.hpp publishes objects: an object has interfaces, an interface has methods,
-- signals and properties, and a server routes method calls to them, answers GetManagedObjects and
-- writes the introspection document.
--
-- The files.
--   Common: tests on numbers, lists, byte strings, and `boost::container::flat_map` with string keys
--     (Common/FlatMap), a list of pairs kept sorted.
--   Element/Types, Element/Signature: include/dbus/element.hpp. A value of `Ty` is a C++ type that has
--     a D-Bus type; `element_signature` computes the terminated array as the templates do.
--     Element/SignatureLaws compares it with the written signature of the type, Element/Shapes with the
--     D-Bus type.
--   Wire: what libdbus is to this code. A message's arguments are a `Body`; `Writer` and `Reader` are
--     the appending and the reading iterators, with the laws that the documentation of libdbus gives.
--     They are parameters. Wire/Room has a writer that runs out of memory, one that does not, and a
--     reader, which meet the laws. Wire/Iterators has the class `message_iterator` of
--     include/dbus/impl/message_iterator.ipp over the C functions of libdbus, and makes a writer and a
--     reader of it.
--   Message/Packer, Message/Unpacker: `message::packer` and `message::unpacker` of
--     include/dbus/message.hpp, one function per overload and one that dispatches on the type;
--     Message/Tuples has its functions for tuples.
--     Message/Encoding and Message/Received describe what should be written and read; the other
--     files of Message prove it.
--   Queue: include/dbus/detail/queue.hpp; Queue/Mutex has several threads with the mutex,
--     statement by statement, and Queue/Linked, Advance, Holder and Threads the theorem on them; posts may
--     overtake one another since the mutex is released before.
--   Error: include/dbus/error.hpp. A `DBusError` that is not set is `none`; an exception is a value.
--   Message/Headers: the constructors and getters of `message` and include/dbus/endpoint.hpp, over the
--     messages of libdbus as a parameter with laws.
--   Connection: `start` and `cancel` of include/dbus/impl/connection.ipp, with their
--     compare-and-exchange (Connection/Starting), the dispatch handler of
--     include/dbus/detail/watch_timeout.hpp (Connection/Dispatching), over libdbus's dispatch as a
--     parameter with laws, how a connection is opened and closed (Connection/Opening), and the handlers
--     that outlive it (Connection/Lifetime).
--   Client: `send`, `method_call` and `async_method_call` of include/dbus/connection.hpp, with
--     connection_service.hpp and impl/connection.ipp: blocking calls (Client/Blocking), the handler of
--     an asynchronous call and its reply (Client/Posted, Client/RoundTrip), and the way of a call to
--     its method at a server (Client/Routed, Client/Served).
--   Watch, Timeout: the rest of include/dbus/detail/watch_timeout.hpp. A socket and a timer are kept as
--     the waits that are outstanding on them; libdbus may toggle at any time, also in a handler.
--   Match: include/dbus/match.hpp and include/dbus/impl/match.ipp.
--   Filter: include/dbus/filter.hpp and include/dbus/impl/filter.ipp; Filter/Chain has the filters of one
--     connection.
--   AsyncSend: include/dbus/detail/async_send_op.hpp and `async_send` of
--     include/dbus/connection_service.hpp.
--   Ownership: the references to a message of libdbus, as the constructors and destructors of `message`
--     take them and give them back, over libdbus's counts as a parameter with laws: the factories of
--     include/dbus/message.hpp, include/dbus/detail/queue.hpp, include/dbus/impl/filter.ipp, and replies.
--   System: one connection with all of this: its filters, its sends and the dispatch handlers that the
--     io_service runs, with libdbus's receiving and dispatching as a parameter with laws. The functions
--     are those of Connection, Filter and AsyncSend; what they share is lent to them and read back.
--     System/Mailboxes sees a filter as a mailbox; Owed, Ready, Injected, Settled, Served, Replied
--     and Answered hold the theorems.
--   Properties/MethodCall: `LambdaDbusMethod::call`.
--   Properties/Arguments, Interface, Object, Server, Introspect: `arg_types` with `LambdaDbusMethod`'s
--     constructors, `DbusInterface`, `DbusObject`, `DbusObjectServer` and `get_xml_for_path` of
--     include/dbus/properties.hpp. Properties/Serving has the three filters of the server with their
--     handlers, which wait again after each message. State is passed explicitly; a signal that is sent
--     is a value
--     `Emission`; an exception is `none`. Updates, Access, Added, Routing, Subnodes,
--     Children and MethodCall/Replies hold the theorems; Managed has the replies of the server.
--   Examples: concrete runs.
--
-- Bounds and fuel. Numbers are bit patterns; the packer copies them and does no arithmetic. Sizes of
-- strings in the introspection document are 64-bit with wrap-around. The loops of the unpacker over a
-- container take fuel; more fuel than the message has D-Bus values, at every depth, is enough, since
-- each round passes at least one. The dispatch handlers take a unit of fuel for each
-- run; as many as there are messages are enough.
--
-- A duration is in milliseconds, and as an `int` wraps at 2 ^ 32. In Properties/Serving a closure that
-- runs is a step, so that no fuel is needed.
--
-- Not modelled: the memory of errors, which are values here, as messages are outside Ownership; the
-- bodies of method handlers, which are functions of their arguments; the memory of `std::vector` and
-- `flat_map`; and the sharing of interfaces between objects: an object's map holds its interfaces.
pub mod Common
pub mod Element
pub mod Wire
pub mod Message
pub mod Queue
pub mod Connection
pub mod Error
pub mod Client
pub mod Match
pub mod Ownership
pub mod System
pub mod Watch
pub mod Timeout
pub mod Filter
pub mod AsyncSend
pub mod Properties
pub mod Examples
