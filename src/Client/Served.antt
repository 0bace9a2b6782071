-- ===== src/Client/Served.antt =====
-- include/dbus/connection.hpp with include/dbus/properties.hpp: a call that a client makes comes in at the
-- server, and its method is called.
use boost_dbus.Common.{
  ◌≡◌, ap, ◌∙◌, Bool, true, false, List, [], ◌∷◌, ◌++◌, none, some, bytes_eq, codes, HasNoNul,
}
use boost_dbus.Common.FlatMap.{find}
use boost_dbus.Element.{Ty}
use boost_dbus.Wire.{Writer, WriterLaws, Reader, ReaderLaws}
use boost_dbus.Message.Packer.{Values, AllPackable}
use boost_dbus.Message.Headers.{Messages, MessagesLaws, Endpoint}
use boost_dbus.Client.{pack_call}
use boost_dbus.Client.Routed.{header_of, pack_call-routed}
use boost_dbus.Properties.Interface.{DbusInterface, DbusMethod}
use boost_dbus.Properties.Object.{DbusObject, Handler}
use boost_dbus.Properties.Server.{Header, Pointer, calls, on_method_call}
use boost_dbus.Properties.Routing.{NotAt, live}
use boost_dbus.Properties.Serving.{
  method, Serving, loop, arrive, arrives, serves, happens, happens_all,
}
use boost_dbus.Properties.Serving.Routes.{service_of, same_service, is_for, arrive-loop}
use boost_dbus.Properties.Serving.Loops.{loop_with, receive, push-loop_with, serve-cons}

module _ {M : Type 0} (header : M → Header) where
  -- A message for a service comes in while its handler waits, and its closure is run.
  served_at_once :
      (m : M) (done : List M) (s : Serving M)
      → service_of (header m) ≡ some method
      → loop method s ≡ loop_with method done []
      → loop method (happens_all header (arrives m ∷ serves method ∷ []) s)
        ≡ loop_with method (done ++ m ∷ []) []
  unfolding happens_all happens
  served_at_once m done s e idle =
      let mine : is_for header method m ≡ true =
        ap (λ o. elim o as (λ _. Bool) [ none ↦ false | some j ↦ same_service j method ]) e in
      serve-cons header method done m [] (arrive header m s).1 (
        arrive-loop header method m s
        ∙ rw (mine) (ap (receive m) idle ∙ push-loop_with method m done []))

module _ {w : Writer} {r : Reader} {wl : WriterLaws w} {rl : ReaderLaws r} {ms : Messages w r}
    (ml : MessagesLaws wl rl ms) where
  -- A client calls an endpoint whose path, interface and member hold no NUL byte, whose interface is
  -- neither Introspectable nor ObjectManager. At the server the handler for method calls waits, and no
  -- pointer is null up to the first object at that path, which has the interface and the method. The
  -- message comes in, and the io_service runs the closure: then the handler has been called with the
  -- message, calls that method of that object, and waits again.
  pub pack_call-served :
      {U : Type 0} (e : Endpoint) (ts : List Ty) (ps : AllPackable ts) (vs : Values ts)
      → (before : List (DbusObject U)) (o : DbusObject U) (after : List (Pointer U))
      → (i : DbusInterface (Handler U)) (f : DbusMethod (Handler U))
      → (done : List ms.Message) (s : Serving ms.Message) → HasNoNul e.path
      → HasNoNul e.interface
      → HasNoNul e.member
      → bytes_eq e.interface (codes "org.freedesktop.DBus.Introspectable") ≡ false
      → bytes_eq e.interface (codes "org.freedesktop.DBus.ObjectManager") ≡ false
      → NotAt e.path before
      → o.object_name ≡ e.path
      → find e.interface o.interfaces ≡ some i
      → find e.member i.dbus_methods ≡ some f
      → loop method s ≡ loop_with method done []
      → let m = (pack_call ms e ts ps vs).1 in
        (loop method (happens_all (header_of ms) (arrives m ∷ serves method ∷ []) s)
          ≡ loop_with method (done ++ m ∷ []) [])
        × (on_method_call false (header_of ms m) (live before ++ some o ∷ after) ≡ calls o f)
  pack_call-served e ts ps vs before o after i f done s p n k other other' absent at_path has_i
        has_f idle =
      let (mine, found) =
        pack_call-routed ml e ts ps vs before o after i f p n k other other' absent at_path has_i
          has_f in
      (served_at_once (header_of ms) (pack_call ms e ts ps vs).1 done s mine idle, found)
