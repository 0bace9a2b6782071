-- ===== src/Properties/Introspect.antt =====
-- include/dbus/properties.hpp, `get_xml_for_path`: the introspection document of a path.
--
-- Text is the list of its bytes; `node_names` is the `flat_set` of the code, of which only
-- membership is asked. `none` is undefined behaviour, where a pointer to an object is null, or an
-- exception.
use boost_dbus.Common.{
  ℕ, suc, ◌+◌, ◌-◌, ◌%◌, ◌^◌, Bool, true, false, ◌&&◌, ◌||◌, List, [], ◌∷◌, ◌++◌, Bytes, Option,
  none, some, if◌then◌else◌, codes, bytes_eq, ◌==◌, length, drop, take, leb, c_str,
}
use boost_dbus.Element.{Variant, element_signature}
use boost_dbus.Message.Packer.{variant_type}
use boost_dbus.Properties.Arguments.{DbusArgument}
use boost_dbus.Properties.Interface.{DbusInterface, DbusMethod, DbusSignal}
use boost_dbus.Properties.Object.{DbusObject}
use boost_dbus.Properties.Server.{Pointer}

-- `std::string::npos` of a 64-bit machine.
abbrev pub npos : ℕ
npos = 2 ^ 64 - 1

abbrev pub size_sub : ℕ → ℕ → ℕ
size_sub a b = (a + 2 ^ 64 - b) % 2 ^ 64

unfoldable pub index_of : ℕ → Bytes → Option ℕ
index_of c [] = none
index_of c (b ∷ s) =
    if b == c then some 0 else (elim (index_of c s) [ none ↦ none | some i ↦ some (suc i) ])

-- `s.find("/", from)`
unfoldable pub find_slash : Bytes → ℕ → ℕ
unfolding index_of
find_slash s from = elim (index_of b'/' (drop from s)) [ none ↦ npos | some i ↦ from + i ]

-- `s.substr(pos, count)`; `none` is `std::out_of_range`.
unfoldable pub substr : Bytes → ℕ → ℕ → Option Bytes
substr s pos count = if leb pos (length s) then some (take count (drop pos s)) else none

unfoldable pub starts_with : Bytes → Bytes → Bool
starts_with s [] = true
starts_with [] (b ∷ t) = false
starts_with (a ∷ s) (b ∷ t) = (a == b) && starts_with s t

unfoldable pub contains : Bytes → List Bytes → Bool
contains n [] = false
contains n (k ∷ ks) = bytes_eq k n || contains n ks

unfoldable pub method_arg_xml : DbusArgument → Bytes
method_arg_xml a =
    codes "<arg name=\""
    ++ (a.name
        ++ (codes "\" type=\""
            ++ (a.type ++ (codes "\" direction=\"" ++ (a.direction ++ codes "\"/>")))))

unfoldable pub signal_arg_xml : DbusArgument → Bytes
signal_arg_xml a =
    codes "<arg name=\"" ++ (a.name ++ (codes "\" type=\"" ++ (a.type ++ codes "\"/>")))

unfoldable pub each_xml {ℓ} : {A : Type ℓ} → (A → Bytes) → List A → Bytes
each_xml f [] = []
each_xml f (x ∷ xs) = f x ++ each_xml f xs

unfoldable pub method_xml : {H : Type 0} → Bytes × DbusMethod H → Bytes
unfolding each_xml method_arg_xml
method_xml (name, m) =
    codes "<method name=\""
    ++ (name ++ (codes "\">" ++ (each_xml method_arg_xml m.args ++ codes "</method>")))

unfoldable pub signal_xml : Bytes × DbusSignal → Bytes
unfolding each_xml signal_arg_xml
signal_xml (name, s) =
    codes "<signal name=\""
    ++ (name ++ (codes "\">" ++ (each_xml signal_arg_xml s.args ++ codes "</signal>")))

unfoldable pub property_xml : Bytes × Variant → Bytes
property_xml (name, v) =
    codes "<property name=\""
    ++ (name
        ++ (codes "\" type=\""
            ++ (c_str (element_signature (variant_type v)) ++ codes "\" access=\"readwrite\"/>")))

unfoldable pub interface_xml : {H : Type 0} → Bytes × DbusInterface H → Bytes
unfolding each_xml method_xml signal_xml property_xml
interface_xml (name, i) =
    codes "<interface name=\""
    ++ (name
        ++ (codes "\">"
            ++ (each_xml method_xml i.dbus_methods
                ++ (each_xml signal_xml i.dbus_signals
                    ++ (each_xml property_xml i.properties_map ++ codes "</interface>")))))

-- The interfaces that libdbus and the server answer for every object.
abbrev pub peer_xml : Bytes
peer_xml =
    codes
      "  <interface name=\"org.freedesktop.DBus.Peer\">    <method name=\"Ping\"/>    <method name=\"GetMachineId\">      <arg type=\"s\" name=\"machine_uuid\" direction=\"out\"/>    </method>  </interface>"

abbrev pub object_manager_xml : Bytes
object_manager_xml =
    codes
      "  <interface name=\"org.freedesktop.DBus.ObjectManager\">    <method name=\"GetManagedObjects\">      <arg type=\"a{oa{sa{sv}}}\"            name=\"object_paths_interfaces_and_properties\"            direction=\"out\"/>    </method>    <signal name=\"InterfacesAdded\">      <arg type=\"o\" name=\"object_path\"/>      <arg type=\"a{sa{sv}}\" name=\"interfaces_and_properties\"/>    </signal>    <signal name=\"InterfacesRemoved\">      <arg type=\"o\" name=\"object_path\"/>      <arg type=\"as\" name=\"interfaces\"/>    </signal>  </interface>"

abbrev pub introspectable_xml : Bytes
introspectable_xml =
    codes
      "<interface name=\"org.freedesktop.DBus.Introspectable\">    <method name=\"Introspect\">        <arg type=\"s\" name=\"xml_data\" direction=\"out\"/>    </method></interface>"

abbrev pub header_xml : Bytes
header_xml =
    codes
      "<!DOCTYPE node PUBLIC \"-//freedesktop//DTD D-BUS Object Introspection 1.0//EN\" \"http://www.freedesktop.org/standards/dbus/1.0/introspect.dtd\">"
    ++ (10 ∷ codes "<node>")

-- The name of the child node that leads from `newpath` to an object below it.
unfoldable pub subnode : Bytes → Bytes → Option Bytes
unfolding find_slash substr
subnode newpath object_name =
    let from = length newpath + 1 in
    substr object_name from (size_sub (size_sub (find_slash object_name from) (length newpath)) 1)

abbrev pub node_xml : Bytes → Bytes
node_xml name = codes "<node name=\"" ++ (name ++ codes "\"></node>")

abbrev pub new_path : Bytes → Bytes
new_path path = if bytes_eq path (codes "/") then [] else path

module _ {U : Type 0} where
  -- The branch of an exact match.
  unfoldable pub object_xml : DbusObject U → Bytes
  unfolding each_xml interface_xml
  object_xml o =
      peer_xml
      ++ (object_manager_xml ++ (introspectable_xml ++ each_xml interface_xml o.interfaces))

  -- One round of the loop: the names of the child nodes so far, and the document.
  unfoldable pub visit : Bytes → DbusObject U → List Bytes × Bytes → Option (List Bytes × Bytes)
  unfolding object_xml subnode starts_with contains
  visit newpath o (node_names, xml) =
      if bytes_eq o.object_name newpath
      then some (node_names, xml ++ object_xml o)
      else if starts_with o.object_name newpath
      then elim (subnode newpath o.object_name) [
        | none ↦ none
        | some name ↦
            if contains name node_names
            then some (node_names, xml)
            else some (name ∷ node_names, xml ++ node_xml name)
      ]
      else some (node_names, xml)

  unfoldable pub visit_all :
      Bytes → List (Pointer U) → List Bytes × Bytes → Option (List Bytes × Bytes)
  unfolding visit
  visit_all newpath [] s = some s
  visit_all newpath (none ∷ ps) s = none
  visit_all newpath (some o ∷ ps) s = elim (visit newpath o s) [
    | none ↦ none
    | some s' ↦ visit_all newpath ps s'
  ]

  unfoldable pub get_xml_for_path : Bytes → List (Pointer U) → Option Bytes
  unfolding visit_all
  get_xml_for_path path objects = elim (visit_all (new_path path) objects ([], header_xml)) [
    | none ↦ none
    | some (node_names, xml) ↦ some (xml ++ codes "</node>")
  ]
