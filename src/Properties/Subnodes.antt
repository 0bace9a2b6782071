-- ===== src/Properties/Subnodes.antt =====
-- The child nodes of an introspection document: which part of an object's path names its node.
use boost_dbus.Common.{
  ℕ, zero, suc, ◌+◌, ◌-◌, ◌^◌, ◌≤◌, ◌<◌, ◌≡◌, refl, ap, ◌∙◌, true, false, List, [], ◌∷◌, ◌++◌,
  Bytes, none, some, if◌then◌else◌, bytes_eq, ◌==◌, ==_refl, length, length-append, drop, take, leb,
  arith, All, Bool-cases, inl, inr, append-nil,
}
use boost_dbus.Properties.Object.{DbusObject}
use boost_dbus.Properties.Introspect.{
  npos, size_sub, index_of, find_slash, substr, starts_with, contains, subnode, visit, node_xml,
}

abbrev pub HasNoSlash : Bytes → Type 0
HasNoSlash s = All (λ b. (b == b'/') ≡ false) s

-- What may follow the name of a child: nothing, or a further part of the path.
abbrev pub EndsPart : Bytes → Type 0
EndsPart [] = Unit {0}
EndsPart (b ∷ s) = b ≡ b'/'

drop-past : (p : Bytes) (b : ℕ) (t : Bytes) → drop (length p + 1) (p ++ b ∷ t) ≡ t
drop-past [] b t = refl
drop-past (x ∷ p) b t = ap (λ n. drop n (x ∷ (p ++ b ∷ t))) (shift (length p)) ∙ drop-past p b t
  where
    shift : (n : ℕ) → suc n + 1 ≡ suc (n + 1)
    shift n = omega arith

index_of-none : (c : Bytes) → HasNoSlash c → index_of b'/' c ≡ none
unfolding index_of
index_of-none [] h = refl
index_of-none (b ∷ c) h = rw (h.0, index_of-none c h.1)

index_of-some : (c r : Bytes) → HasNoSlash c → index_of b'/' (c ++ b'/' ∷ r) ≡ some (length c)
unfolding index_of
index_of-some [] r h = refl
index_of-some (b ∷ c) r h = rw (h.0, index_of-some c r h.1)

take-all : (n : ℕ) (c : Bytes) → length c ≤ n → take n c ≡ c
take-all zero [] h = refl
take-all zero (b ∷ c) h = absurd (omega arith)
take-all (suc n) [] h = refl
take-all (suc n) (b ∷ c) h = ap (◌∷◌ b) (take-all n c (omega arith))

take-part : (c r : Bytes) → take (length c) (c ++ r) ≡ c
take-part [] r = refl
take-part (b ∷ c) r = ap (◌∷◌ b) (take-part c r)

leb-past : (p : Bytes) (b : ℕ) (t : Bytes) → leb (length p + 1) (length (p ++ b ∷ t)) ≡ true
leb-past p b t = ground (arith, length-append p (b ∷ t))

find_slash-none :
    (p t : Bytes) (b : ℕ) → index_of b'/' t ≡ none → find_slash (p ++ b ∷ t) (length p + 1) ≡ npos
unfolding find_slash
find_slash-none p t b h = rw (find_slash, drop-past p b t, h)

find_slash-some :
    (p t : Bytes) (b i : ℕ)
    → index_of b'/' t ≡ some i
    → find_slash (p ++ b ∷ t) (length p + 1) ≡ length p + 1 + i
unfolding find_slash
find_slash-some p t b i h = rw (find_slash, drop-past p b t, h)

subnode-cut :
    (p t c : Bytes) (b f n : ℕ)
    → find_slash (p ++ b ∷ t) (length p + 1) ≡ f
    → size_sub (size_sub f (length p)) 1 ≡ n
    → take n t ≡ c
    → subnode p (p ++ b ∷ t) ≡ some c
unfolding subnode
subnode-cut p t c b f n found count part =
    ap (λ i. substr (p ++ b ∷ t) (length p + 1) (size_sub (size_sub i (length p)) 1)) found
    ∙ ap (substr (p ++ b ∷ t) (length p + 1)) count
    ∙ rw (leb-past p b t, drop-past p b t, part)

-- Whatever byte stands between a path and the rest of an object's name, the rest up to the next slash
-- is taken for the name of a child.
subnode-part :
    (p c rest : Bytes) (b : ℕ)
    → HasNoSlash c
    → EndsPart rest
    → length p + length c + 2 < 2 ^ 64
    → subnode p (p ++ b ∷ (c ++ rest)) ≡ some c
subnode-part p c [] b h ends small =
    ap (λ t. subnode p (p ++ b ∷ t)) (append-nil c)
    ∙ subnode-cut p c c b npos (2 ^ 64 - 2 - length p) (find_slash-none p c b (index_of-none c h))
        (omega arith) (take-all _ c (omega arith))
subnode-part p c (s ∷ rest) b h ends small =
    ap (λ x. subnode p (p ++ b ∷ (c ++ x ∷ rest))) ends
    ∙ subnode-cut p (c ++ b'/' ∷ rest) c b (length p + 1 + length c) (length c)
        (find_slash-some p (c ++ b'/' ∷ rest) b (length c) (index_of-some c rest h)) (omega arith)
        (take-part c (b'/' ∷ rest))

starts_with_self : (p t : Bytes) → starts_with (p ++ t) p ≡ true
unfolding starts_with
starts_with_self [] t = refl
starts_with_self (b ∷ p) t = rw (==_refl b) (starts_with_self p t)

longer-ne : (p t : Bytes) (b : ℕ) → bytes_eq (p ++ b ∷ t) p ≡ false
unfolding bytes_eq
longer-ne [] t b = refl
longer-ne (x ∷ p) t b = rw (==_refl x) (longer-ne p t b)

module _ {U : Type 0} (o : DbusObject U) where
  -- An object whose name is a path, one more byte, and then a part `c` with no slash that the name or a
  -- slash ends, where the path and `c` are together shorter than 2 ^ 64 - 2 bytes, gives the path's
  -- document a node `c`, unless there is one already. The byte is the slash where the object is below
  -- the path; but nothing asks for that, and so an object beside it, as "/foobar" is beside "/foo",
  -- gives a node, too.
  pub visit-node :
      (p c rest : Bytes) (b : ℕ) (names : List Bytes) (xml : Bytes)
      → o.object_name ≡ p ++ b ∷ (c ++ rest)
      → HasNoSlash c
      → EndsPart rest
      → length p + length c + 2 < 2 ^ 64
      → visit p o (names, xml)
        ≡ some (if contains c names then (names, xml) else (c ∷ names, xml ++ node_xml c))
  unfolding visit
  visit-node p c rest b names xml named h ends small =
      let other : bytes_eq o.object_name p ≡ false =
        ap (λ n. bytes_eq n p) named ∙ longer-ne p (c ++ rest) b in
      let below : starts_with o.object_name p ≡ true =
        ap (λ n. starts_with n p) named ∙ starts_with_self p (b ∷ (c ++ rest)) in
      let part : subnode p o.object_name ≡ some c =
        ap (subnode p) named ∙ subnode-part p c rest b h ends small in
      elim (Bool-cases (contains c names)) [
        | inl old ↦ rw (other, below, part, old)
        | inr new ↦ rw (other, below, part, new)
      ]
