-- ===== src/Client/Routed.antt =====
-- include/dbus/connection.hpp with include/dbus/properties.hpp: a call that a client makes finds its
-- method at the server.
use boost_dbus.Common.{
  ◌≡◌, refl, ap, ◌∙◌, false, List, ◌∷◌, ◌++◌, some, bytes_eq, codes, HasNoNul, c_str-HasNoNul,
}
use boost_dbus.Common.FlatMap.{find}
use boost_dbus.Element.{Ty}
use boost_dbus.Wire.{Writer, WriterLaws, Reader, ReaderLaws}
use boost_dbus.Message.Packer.{Values, AllPackable, pack_args}
use boost_dbus.Message.Headers.{
  Messages, MessagesLaws, Endpoint, new_call, sanitize, get_type, get_path, get_interface,
  get_member,
}
use boost_dbus.Client.{pack_call}
use boost_dbus.Properties.Interface.{DbusInterface, DbusMethod}
use boost_dbus.Properties.Object.{DbusObject, Handler}
use boost_dbus.Properties.Server.{
  Header, Pointer, calls, on_method_call, is_introspect, is_get_managed_objects, is_method_call,
}
use boost_dbus.Properties.Routing.{NotAt, live, on_method_call-reaches}
use boost_dbus.Properties.Serving.{method}
use boost_dbus.Properties.Serving.Routes.{service_of}

-- What the filters and the handlers of the server read of a message.
abbrev pub header_of : {w : Writer} {r : Reader} (ms : Messages w r) → ms.Message → Header
header_of ms m = record {
  type = get_type ms m;
  path = get_path ms m;
  interface = get_interface ms m;
  member = get_member ms m;
}

-- The header of a call of the endpoint.
abbrev pub called : Endpoint → Header
called e = record {
  type = codes "method_call";
  path = e.path;
  interface = e.interface;
  member = e.member;
}

-- A call of an interface that no other service of the server has.
service_of-method :
    (e : Endpoint)
    → bytes_eq e.interface (codes "org.freedesktop.DBus.Introspectable") ≡ false
    → bytes_eq e.interface (codes "org.freedesktop.DBus.ObjectManager") ≡ false
    → service_of (called e) ≡ some method
unfolding is_introspect is_get_managed_objects is_method_call bytes_eq
service_of-method e h k = rw (h, k) refl

module _ {w : Writer} {r : Reader} {wl : WriterLaws w} {rl : ReaderLaws r} {ms : Messages w r}
    (ml : MessagesLaws wl rl ms) where
  header_of-pack_call :
      (e : Endpoint) (ts : List Ty) (ps : AllPackable ts) (vs : Values ts)
      → HasNoNul e.path
      → HasNoNul e.interface
      → HasNoNul e.member
      → header_of ms (pack_call ms e ts ps vs).1 ≡ called e
  unfolding pack_call new_call get_type get_path get_interface get_member sanitize
  header_of-pack_call e ts ps vs p i k =
      let m = new_call ms e in
      let it = (pack_args w ts ps vs (ms.init_append m)).1 in
      let type_ = ml.same_type m it ∙ ml.call_type _ _ _ _ in
      let path_ = ml.same_path m it ∙ ml.call_path _ _ _ _ ∙ ap some (c_str-HasNoNul e.path p) in
      let interface_ =
        ml.same_interface m it
        ∙ ml.call_interface _ _ _ _
        ∙ ap some (c_str-HasNoNul e.interface i) in
      let member_ =
        ml.same_member m it ∙ ml.call_member _ _ _ _ ∙ ap some (c_str-HasNoNul e.member k) in
      rw (type_, path_, interface_, member_) refl

  -- A client calls an endpoint whose path, interface and member hold no NUL byte, whose interface is
  -- neither Introspectable nor ObjectManager; at the server no pointer is null up to the first object at
  -- that path, which has the interface and the method. Then the message belongs to the filter for
  -- method calls, whose handler calls that method of that object.
  pub pack_call-routed :
      {U : Type 0} (e : Endpoint) (ts : List Ty) (ps : AllPackable ts) (vs : Values ts)
      → (before : List (DbusObject U)) (o : DbusObject U) (after : List (Pointer U))
      → (i : DbusInterface (Handler U)) (f : DbusMethod (Handler U)) → HasNoNul e.path
      → HasNoNul e.interface
      → HasNoNul e.member
      → bytes_eq e.interface (codes "org.freedesktop.DBus.Introspectable") ≡ false
      → bytes_eq e.interface (codes "org.freedesktop.DBus.ObjectManager") ≡ false
      → NotAt e.path before
      → o.object_name ≡ e.path
      → find e.interface o.interfaces ≡ some i
      → find e.member i.dbus_methods ≡ some f
      → let h = header_of ms (pack_call ms e ts ps vs).1 in
        (service_of h ≡ some method)
        × (on_method_call false h (live before ++ some o ∷ after) ≡ calls o f)
  pack_call-routed e ts ps vs before o after i f p n k other other' absent at_path has_i has_f =
      let same = header_of-pack_call e ts ps vs p n k in
      (
        ap service_of same ∙ service_of-method e other other',
        ap (λ h. on_method_call false h (live before ++ some o ∷ after)) same
            ∙ (on_method_call-reaches (called e) before o after i f absent at_path has_i has_f).0,
      )
