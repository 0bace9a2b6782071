-- ===== src/Properties/Routing.antt =====
-- How calls find their method, and what removing an object does.
use boost_dbus.Common.{
  ℕ, suc, ◌≡◌, refl, sym, ap, ap₂, ◌∙◌, true, false, List, [], ◌∷◌, ◌++◌, Bytes, none, some,
  bytes_eq, bytes_eq_iff, ◌==◌, ==_refl, All, length, drop, map, append-nil,
}
use boost_dbus.Common.FlatMap.{find}
use boost_dbus.Properties.Interface.{DbusInterface, DbusMethod}
use boost_dbus.Properties.Object.{DbusObject, Handler}
use boost_dbus.Properties.Server.{
  Header, Pointer, fault, ignored, calls, call_object, find_object, on_method_call, managed_objects,
  managed_object, others, left_behind, remove_object,
}

drop-length : {A : Type 0} (xs ys : List A) → drop (length xs) (xs ++ ys) ≡ ys
drop-length [] ys = refl
drop-length (x ∷ xs) ys = drop-length xs ys

module _ {U : Type 0} where
  -- Live objects, none of them at the path.
  abbrev pub NotAt : Bytes → List (DbusObject U) → Type 0
  NotAt path os = All (λ o. bytes_eq o.object_name path ≡ false) os

  abbrev pub live : List (DbusObject U) → List (Pointer U)
  live = map some

  find_object-live :
      (m : Header) (before : List (DbusObject U)) (o : DbusObject U) (after : List (Pointer U))
      → NotAt m.path before
      → bytes_eq o.object_name m.path ≡ true
      → find_object m (live before ++ some o ∷ after) ≡ call_object m o
  unfolding find_object
  find_object-live m [] o after h k = rw k
  find_object-live m (b ∷ bs) o after h k = rw h.0 (find_object-live m bs o after h.1 k)

  find_object-null :
      (m : Header) (os : List (DbusObject U))
      → NotAt m.path os
      → find_object m (live os ++ none ∷ []) ≡ fault
  unfolding find_object
  find_object-null m [] h = refl
  find_object-null m (o ∷ os) h = rw h.0 (find_object-null m os h.1)

  -- Where no pointer before it is null, a call without error reaches the method that the first object
  -- at the message's path has under the message's interface and member, whatever stands behind that
  -- object; with an error the call reaches none.
  pub on_method_call-reaches :
      (m : Header) (before : List (DbusObject U)) (o : DbusObject U) (after : List (Pointer U))
      → (i : DbusInterface (Handler U)) (f : DbusMethod (Handler U)) → NotAt m.path before
      → o.object_name ≡ m.path
      → find m.interface o.interfaces ≡ some i
      → find m.member i.dbus_methods ≡ some f
      → (on_method_call false m (live before ++ some o ∷ after) ≡ calls o f)
        × (on_method_call true m (live before ++ some o ∷ after) ≡ ignored)
  unfolding on_method_call call_object
  on_method_call-reaches m before o after i f h at_path has_interface has_method = (
    find_object-live m before o after h ((bytes_eq_iff o.object_name m.path).1 at_path)
        ∙ rw (has_interface, call_object) (rw has_method),
    refl,
  )

  pub managed_objects-live :
      (os : List (DbusObject U)) → managed_objects (live os) ≡ some (map managed_object os)
  unfolding managed_objects
  managed_objects-live [] = refl
  managed_objects-live (o ∷ os) = rw (managed_objects-live os)

  managed_objects-null :
      (os : List (DbusObject U)) (ps : List (Pointer U))
      → managed_objects (live os ++ none ∷ ps) ≡ none
  unfolding managed_objects
  managed_objects-null [] ps = refl
  managed_objects-null (o ∷ os) ps = rw (managed_objects-null os ps)

  abbrev NotSame : ℕ → List (DbusObject U) → Type 0
  NotSame a os = All (λ o. (o.address == a) ≡ false) os

  others-live :
      (a : ℕ) (os : List (DbusObject U)) (ps : List (Pointer U))
      → NotSame a os
      → others a (live os ++ ps) ≡ live os ++ others a ps
  others-live a [] ps h = refl
  others-live a (o ∷ os) ps h = rw h.0 (ap (◌∷◌ (some o)) (others-live a os ps h.1))

  length-live : (os : List (DbusObject U)) → length (live os) ≡ length os
  length-live [] = refl
  length-live (o ∷ os) = ap suc (length-live os)

  live-append : (xs ys : List (DbusObject U)) → live (xs ++ ys) ≡ live xs ++ live ys
  live-append [] ys = refl
  live-append (x ∷ xs) ys = ap (◌∷◌ (some x)) (live-append xs ys)

  -- The object once, among others.
  others-once :
      (before : List (DbusObject U)) (o : DbusObject U) (after : List (DbusObject U))
      → NotSame o.address before
      → NotSame o.address after
      → others o.address (live before ++ some o ∷ live after) ≡ live before ++ live after
  others-once before o after h k =
      others-live o.address before (some o ∷ live after) h
      ∙ ap (λ l. live before ++ l)
          (rw (==_refl o.address) (
            ap (others o.address) (sym (append-nil (live after)))
            ∙ others-live o.address after [] k
            ∙ append-nil (live after)))

  drop-once :
      (before ys zs : List (Pointer U))
      → drop (length (before ++ ys)) (before ++ zs) ≡ drop (length ys) zs
  drop-once [] ys zs = refl
  drop-once (b ∷ before) ys zs = drop-once before ys zs

  left_behind-moved :
      (a : ℕ) (x : DbusObject U) (xs : List (DbusObject U))
      → NotSame a (x ∷ xs)
      → left_behind a (drop (length (live xs)) (some x ∷ live xs)) ≡ none ∷ []
  left_behind-moved a x [] h = rw h.0
  left_behind-moved a x (y ∷ ys) h = left_behind-moved a y ys h.1

  remove_object-once :
      (before : List (DbusObject U)) (o : DbusObject U) (after : List (DbusObject U))
      → NotSame o.address before
      → NotSame o.address after
      → remove_object o.address (live before ++ some o ∷ live after)
        ≡ (live before ++ live after)
          ++ left_behind o.address (drop (length (live after)) (some o ∷ live after))
  unfolding remove_object
  remove_object-once before o after h k =
      ap (λ l. l ++ left_behind o.address (drop (length l) (live before ++ some o ∷ live after)))
        (others-once before o after h k)
      ∙ ap (λ l. (live before ++ live after) ++ left_behind o.address l)
          (drop-once (live before) (live after) (some o ∷ live after))

  -- Removing the last object of the server, which is there once, removes nothing: the vector is as
  -- it was, and GetManagedObjects still lists the object.
  pub remove_object-last :
      (before : List (DbusObject U)) (o : DbusObject U)
      → NotSame o.address before
      → (remove_object o.address (live before ++ some o ∷ []) ≡ live before ++ some o ∷ [])
        × (managed_objects (remove_object o.address (live before ++ some o ∷ []))
            ≡ some (map managed_object (before ++ o ∷ [])))
  remove_object-last before o h =
      let same : remove_object o.address (live before ++ some o ∷ []) ≡ live before ++ some o ∷ [] =
        remove_object-once before o [] h tt
        ∙ rw (==_refl o.address) (ap (λ l. l ++ some o ∷ []) (append-nil (live before))) in
      (
        same,
        ap managed_objects (same ∙ sym (live-append before (o ∷ [])))
            ∙ managed_objects-live (before ++ o ∷ []),
      )

  -- Removing an object that is in the vector once and has others behind it leaves a null pointer at
  -- the end: GetManagedObjects then follows it, and so does a call to a path that no object has.
  pub remove_object-fault :
      (before : List (DbusObject U)) (o x : DbusObject U) (after : List (DbusObject U)) (m : Header)
      → NotSame o.address before
      → NotSame o.address (x ∷ after)
      → NotAt m.path (before ++ x ∷ after)
      → let ps = remove_object o.address (live before ++ some o ∷ live (x ∷ after)) in
        (ps ≡ live (before ++ x ∷ after) ++ none ∷ [])
        × (managed_objects ps ≡ none)
        × (on_method_call false m ps ≡ fault)
  unfolding on_method_call
  remove_object-fault before o x after m h k absent =
      let same : remove_object o.address (live before ++ some o ∷ live (x ∷ after))
          ≡ live (before ++ x ∷ after) ++ none ∷ [] =
        remove_object-once before o (x ∷ after) h k
        ∙ ap₂ ◌++◌ (sym (live-append before (x ∷ after))) (left_behind-moved o.address x after k) in
      (
        same,
        ap managed_objects same ∙ managed_objects-null (before ++ x ∷ after) [],
        ap (find_object m) same ∙ find_object-null m (before ++ x ∷ after) absent,
      )
