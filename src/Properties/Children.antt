-- ===== src/Properties/Children.antt =====
-- include/dbus/properties.hpp, `get_xml_for_path`: the introspection document as a whole, beside a
-- description of it by the parts of the objects' paths.
use boost_dbus.Common.{
  ℕ, ◌+◌, ◌^◌, ◌<◌, ◌≡◌, ◌≢◌, refl, sym, ap, ◌∙◌, ◌⊎◌, inl, inr, Bool, false, List, [], ◌∷◌, ◌++◌,
  Bytes, Option, none, some, codes, bytes_eq, bytes_eq_iff, ◌==◌, length, length-append,
  if◌then◌else◌, All, arith, Bool-cases, append-nil, append_assoc, ◌||◌,
}
use boost_dbus.Properties.Object.{DbusObject}
use boost_dbus.Properties.Server.{Pointer}
use boost_dbus.Properties.Routing.{live}
use boost_dbus.Properties.Introspect.{
  starts_with, contains, visit, visit_all, get_xml_for_path, header_xml, new_path, node_xml,
  object_xml,
}
use boost_dbus.Properties.Subnodes.{HasNoSlash, EndsPart, visit-node}

-- What stands behind `p` in a name that begins with it.
unfoldable pub strip : (p s : Bytes) → Option Bytes
strip [] s = some s
strip (b ∷ p) [] = none
strip (b ∷ p) (a ∷ s) = if a == b then strip p s else none

unfoldable pub until_slash : Bytes → Bytes
until_slash [] = []
until_slash (b ∷ s) = if b == b'/' then [] else b ∷ until_slash s

from_slash : Bytes → Bytes
from_slash [] = []
from_slash (b ∷ s) = if b == b'/' then b ∷ s else from_slash s

-- Where an object stands to a path: at it, below it with the name of the child that leads to it, or
-- elsewhere.
pub data Place : Type 0 where
  at_path elsewhere : Place
  below : Bytes → Place

abbrev pub place_of : Option Bytes → Place
place_of none = elsewhere
place_of (some []) = at_path
place_of (some (b ∷ rest)) = below (until_slash rest)

unfoldable pub is_among : Bytes → List Bytes → Bool
is_among n [] = false
is_among n (k ∷ ks) = bytes_eq k n || is_among n ks

-- What a document holds of the objects, after child nodes with the names `seen`.
unfoldable pub written : {U : Type 0} → Bytes → List (DbusObject U) → List Bytes → Bytes
unfolding strip is_among
written p [] seen = []
written p (o ∷ os) seen = elim (place_of (strip p o.object_name)) [
  | at_path ↦ object_xml o ++ written p os seen
  | elsewhere ↦ written p os seen
  | below n ↦ if is_among n seen then written p os seen else node_xml n ++ written p os (n ∷ seen)
]

-- The path with which the names are compared: the root's is empty.
abbrev pub IsBase : (path p : Bytes) → Type 0
IsBase path p = ((path ≡ codes "/") × (p ≡ [])) ⊎ ((path ≢ codes "/") × (p ≡ path))

new_path-IsBase : (path p : Bytes) → IsBase path p → new_path path ≡ p
unfolding bytes_eq
new_path-IsBase path p (inl (e, f)) = ap new_path e ∙ sym f
new_path-IsBase path p (inr (n, f)) = elim (Bool-cases (bytes_eq path (codes "/"))) [
  | inl same ↦ absurd (n ((bytes_eq_iff path (codes "/")).0 same))
  | inr other ↦ rw (other) (sym f)
]

until_slash-HasNoSlash : (s : Bytes) → HasNoSlash (until_slash s)
unfolding until_slash
until_slash-HasNoSlash [] = tt
until_slash-HasNoSlash (b ∷ s) = elim (Bool-cases (b == b'/')) [
  | inl slash ↦ rw (slash) tt
  | inr other ↦ rw (other) (other, until_slash-HasNoSlash s)
]

from_slash-EndsPart : (s : Bytes) → EndsPart (from_slash s)
unfolding from_slash
from_slash-EndsPart [] = tt
from_slash-EndsPart (b ∷ s) = elim (Bool-cases (b == b'/')) [
  | inl slash ↦ rw (slash) (ground (arith, slash))
  | inr other ↦ rw (other) (from_slash-EndsPart s)
]

until_slash-from_slash : (s : Bytes) → s ≡ until_slash s ++ from_slash s
unfolding until_slash from_slash
until_slash-from_slash [] = refl
until_slash-from_slash (b ∷ s) = elim (Bool-cases (b == b'/')) [
  | inl slash ↦ rw (slash) refl
  | inr other ↦ rw (other) (ap (◌∷◌ b) (until_slash-from_slash s))
]

strip-cases :
    (p s : Bytes)
    → ((strip p s ≡ none) × (starts_with s p ≡ false) × (bytes_eq s p ≡ false))
      ⊎ ((t : Bytes) × (strip p s ≡ some t) × (s ≡ p ++ t))
unfolding strip starts_with bytes_eq
strip-cases [] s = inr (s, refl, refl)
strip-cases (b ∷ p) [] = inl (refl, refl, refl)
strip-cases (b ∷ p) (a ∷ s) = elim (Bool-cases (a == b)) [
  | inr other ↦ inl (rw (other) refl, rw (other) refl, rw (other) refl)
  | inl same ↦ elim (strip-cases p s) [
    | inl (e, f, g) ↦ inl (rw (same) e, rw (same) f, rw (same) g)
    | inr (t, e, f) ↦ let eq : a ≡ b = ground (arith, same) in inr (t, rw (same) e, rw (eq, f) refl)
  ]
]

contains-is_among : (n : Bytes) (ks : List Bytes) → contains n ks ≡ is_among n ks
unfolding contains is_among
contains-is_among n [] = refl
contains-is_among n (k ∷ ks) = rw (contains-is_among n ks)

-- The names of the objects are shorter than 2 ^ 64 - 2 bytes.
abbrev pub AllShort : {U : Type 0} → List (DbusObject U) → Type 0
AllShort os = All (λ o. length o.object_name + 2 < 2 ^ 64) os

module _ {U : Type 0} (p : Bytes) where
  -- One round of the loop, and what the description says of the same object.
  abbrev Round : DbusObject U → List (DbusObject U) → List Bytes → Bytes → Type 0
  Round o os names xml =
      (names' : List Bytes) × (more : Bytes) × (visit p o (names, xml) ≡ some (names', xml ++ more))
      × (written p (o ∷ os) names ≡ more ++ written p os names')

  Round-below :
      (o : DbusObject U) (os : List (DbusObject U)) (names : List Bytes) (xml : Bytes)
      → (b : ℕ) (t : Bytes) → length o.object_name + 2 < 2 ^ 64
      → strip p o.object_name ≡ some (b ∷ t)
      → o.object_name ≡ p ++ b ∷ t
      → Round o os names xml
  unfolding written
  Round-below o os names xml b t short e named =
      let c = until_slash t in
      let cut : p ++ b ∷ t ≡ p ++ b ∷ (c ++ from_slash t) =
        ap (λ x. p ++ b ∷ x) (until_slash-from_slash t) in
      let sizes : length o.object_name ≡ length p + (1 + (length c + length (from_slash t))) =
        ap length (named ∙ cut)
        ∙ omega
            (arith, length-append p (b ∷ (c ++ from_slash t)), length-append c (from_slash t)) in
      let v =
        visit-node o p c (from_slash t) b names xml (named ∙ cut) (until_slash-HasNoSlash t)
          (from_slash-EndsPart t) (omega (arith, sizes, short)) in
      elim (Bool-cases (contains c names)) [
        | inl old ↦
            let old' = sym (contains-is_among c names) ∙ old in
            (names, [], v ∙ rw (old, append-nil xml) refl, rw (e, old', written) refl)
        | inr new ↦
            let new' = sym (contains-is_among c names) ∙ new in
            (c ∷ names, node_xml c, v ∙ rw (new) refl, rw (e, new', written) refl)
      ]

  Round_lem :
      (o : DbusObject U) (os : List (DbusObject U)) (names : List Bytes) (xml : Bytes)
      → length o.object_name + 2 < 2 ^ 64
      → Round o os names xml
  unfolding written visit
  Round_lem o os names xml short = elim (strip-cases p o.object_name) [
    | inl (e, f, g) ↦ (names, [], rw (g, f, append-nil xml) refl, rw (e, written) refl)
    | inr ([], e, named) ↦
        let same = (bytes_eq_iff o.object_name p).1 (named ∙ append-nil p) in
        (names, object_xml o, rw (same) refl, rw (e, written) refl)
    | inr (b ∷ t, e, named) ↦ Round-below o os names xml b t short e named
  ]

  visit_all-written :
      (os : List (DbusObject U)) (ps : List (Pointer U)) (names : List Bytes) (xml : Bytes)
      → AllShort os
      → (names' : List Bytes) × (visit_all p (live os ++ ps) (names, xml)
          ≡ visit_all p ps (names', xml ++ written p os names))
  unfolding visit_all written
  visit_all-written [] ps names xml h =
      (names, ap (λ x. visit_all p ps (names, x)) (sym (append-nil xml)))
  visit_all-written (o ∷ os) ps names xml h =
      let (mid, more, e, f) = Round_lem o os names xml h.0 in
      let (names', g) = visit_all-written os ps mid (xml ++ more) h.1 in
      (
        names',
        rw (e, visit_all) g
            ∙ ap (λ x. visit_all p ps (names', x))
                (append_assoc xml more (written p os mid) ∙ ap (λ x. xml ++ x) (sym f)),
      )

abbrev close : Option (List Bytes × Bytes) → Option Bytes
close none = none
close (some (names, xml)) = some (xml ++ codes "</node>")

get_xml_for_path-visit_all :
    {U : Type 0}
    → (path p : Bytes) (ps : List (Pointer U)) → new_path path ≡ p
    → get_xml_for_path path ps ≡ close (visit_all p ps ([], header_xml))
unfolding get_xml_for_path
get_xml_for_path-visit_all path p ps b =
    opened (visit_all (new_path path) ps ([], header_xml)) refl
    ∙ ap (λ q. close (visit_all q ps ([], header_xml))) b
  where
    opened :
        (r : Option (List Bytes × Bytes))
        → visit_all (new_path path) ps ([], header_xml) ≡ r
        → get_xml_for_path path ps ≡ close r
    opened none e = rw (e, get_xml_for_path) refl
    opened (some (names, xml)) e = rw (e, get_xml_for_path) refl

-- For every path, and objects whose names are shorter than 2 ^ 64 - 2 bytes: the document is the
-- header, then in the order of the objects the interfaces of an object at the path, and for an
-- object whose name is the path (for the root nothing), one more byte and the rest, a node with the
-- rest up to its first slash, unless there is one with that name already, and at last the closing
-- tag. With a null pointer behind these objects there is no document, but undefined behaviour.
pub get_xml_for_path-children :
    {U : Type 0}
    → (path p : Bytes) (os : List (DbusObject U)) (behind : List (Pointer U)) → IsBase path p
    → AllShort os
    → (get_xml_for_path path (live os) ≡ some ((header_xml ++ written p os []) ++ codes "</node>"))
      × (get_xml_for_path path (live os ++ none ∷ behind) ≡ none)
unfolding visit_all
get_xml_for_path-children path p os behind base short =
    let b = new_path-IsBase path p base in
    let (names, e) = visit_all-written p os [] [] header_xml short in
    let (names', e') = visit_all-written p os (none ∷ behind) [] header_xml short in
    let all = ap (λ ps. visit_all p ps ([], header_xml)) (sym (append-nil (live os))) ∙ e in
    (
      get_xml_for_path-visit_all path p (live os) b ∙ ap close all,
      get_xml_for_path-visit_all path p (live os ++ none ∷ behind) b ∙ ap close e',
    )
