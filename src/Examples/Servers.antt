-- ===== src/Examples/Servers.antt =====
-- A server with a few objects: calls, removal, and introspection.
use boost_dbus.Common.{
  All, inl, ◌≡◌, refl, false, [], ◌∷◌, ◌++◌, none, some, map, codes, arith, if◌then◌else◌, bytes_eq,
  c_str,
}
use boost_dbus.Common.FlatMap.{find}
use boost_dbus.Element.{element_signature}
use boost_dbus.Properties.Object.{properties_name}
use boost_dbus.Properties.Children.{
  written, strip, until_slash, is_among, get_xml_for_path-children,
}
use boost_dbus.Properties.Added.{signals, register_interface-path}
use boost_dbus.Properties.Server.{
  Header, fault, on_method_call, managed_objects, managed_object, managed_type, remove_object,
}
use boost_dbus.Properties.Routing.{remove_object-last, remove_object-fault}
use boost_dbus.Properties.Introspect.{visit, header_xml, contains, node_xml, get_xml_for_path}
use boost_dbus.Properties.Subnodes.{visit-node}
use boost_dbus.Examples.Objects.{hello, sensor, foo, bar, object}

abbrev call_hello : Header
call_hello = record {
  type = codes "method_call";
  path = codes "/foo";
  interface = codes "s";
  member = codes "Hello";
}

pub bar-not_foo : bytes_eq (codes "/bar") (codes "/foo") ≡ false
unfolding bytes_eq
bar-not_foo = refl

pub hello-there : find (codes "Hello") sensor.dbus_methods ≡ some hello
unfolding find bytes_eq
hello-there = refl

remove_object-last_example :
    (remove_object 1 (some bar ∷ some foo ∷ []) ≡ some bar ∷ some foo ∷ [])
    × (managed_objects (remove_object 1 (some bar ∷ some foo ∷ []))
        ≡ some (map managed_object (bar ∷ foo ∷ [])))
remove_object-last_example = remove_object-last (bar ∷ []) foo (refl, tt)

remove_object-fault_example :
    let ps = remove_object 1 (some foo ∷ some bar ∷ []) in
    (ps ≡ some bar ∷ none ∷ [])
    × (managed_objects ps ≡ none)
    × (on_method_call false call_hello ps ≡ fault)
remove_object-fault_example =
    remove_object-fault [] foo bar [] call_hello tt (refl, tt) (bar-not_foo, tt)

-- "/foobar" is not below "/foo".
visit-node_example :
    visit (codes "/foo") (object 3 (codes "/foobar")) ([], [])
    ≡ some (
        if contains (codes "ar") []
        then ([], [])
        else (codes "ar" ∷ [], [] ++ node_xml (codes "ar")))
visit-node_example =
    visit-node (object 3 (codes "/foobar")) (codes "/foo") (codes "ar") [] b'b' [] [] refl
      (refl, (refl, tt)) tt (omega arith)

managed_type-signature : c_str (element_signature managed_type) ≡ codes "a{oa{sa{sv}}}"
unfolding element_signature c_str
managed_type-signature = refl

get_xml_for_path-children_example :
    (get_xml_for_path (codes "/") (map some (foo ∷ bar ∷ foo ∷ []))
      ≡ some ((header_xml ++ written [] (foo ∷ bar ∷ foo ∷ []) []) ++ codes "</node>"))
    × (get_xml_for_path (codes "/") (map some (foo ∷ bar ∷ foo ∷ []) ++ none ∷ []) ≡ none)
get_xml_for_path-children_example =
    get_xml_for_path-children (codes "/") [] (foo ∷ bar ∷ foo ∷ []) [] (inl (refl, refl))
      (omega arith, (omega arith, (omega arith, tt)))

root-nodes : written [] (foo ∷ bar ∷ foo ∷ []) [] ≡ node_xml (codes "foo") ++ node_xml (codes "bar")
unfolding written strip until_slash is_among bytes_eq
root-nodes = refl

register_interface-path_example :
    All (λ e. e.path ≡ codes "/foo") (signals ((sensor, foo) ∷ (sensor, bar) ∷ []) none)
register_interface-path_example = register_interface-path sensor foo ((sensor, bar) ∷ [])

properties-not_s : bytes_eq properties_name (codes "s") ≡ false
unfolding bytes_eq
properties-not_s = refl
