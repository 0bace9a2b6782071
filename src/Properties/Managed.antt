-- ===== src/Properties/Managed.antt =====
-- include/dbus/properties.hpp, the replies of `DbusObjectServer` to GetManagedObjects and Introspect.
--
-- `ret` is the appending iterator of the new method return; the reply is sent as packing leaves it,
-- whatever packing answers. `none` is undefined behaviour or an exception.
use boost_dbus.Common.{
  ℕ, ◌<◌, ◌≡◌, refl, sym, ap, ◌∙◌, Bool, true, List, [], ◌∷◌, Bytes, Option, none, some, map,
}
use mathlib.Core.Option.{some_inj}
use boost_dbus.Common.FlatMap.{FlatMap}
use boost_dbus.Element.{Ty, text, string, Value}
use boost_dbus.Wire.{end, ◌⊕◌, size, Writer, WriterLaws, NeverFails, Reader, ReaderLaws}
use boost_dbus.Message.Packer.{AllPackable, pack_args}
use boost_dbus.Message.Unpacker.{AllUnpackable, unpack_args}
use boost_dbus.Message.Encoding.{encode_args}
use boost_dbus.Message.Clean.{AllClean, defaults}
use boost_dbus.Message.EndToEnd.{unpack_args-pack_args, pack_args_complete, AllSafe-NeverFails}
use boost_dbus.Properties.Interface.{DbusInterface}
use boost_dbus.Properties.Object.{DbusObject}
use boost_dbus.Properties.Introspect.{get_xml_for_path}
use boost_dbus.Properties.Server.{
  Pointer, Properties, managed_type, managed_object, managed_objects,
}
use boost_dbus.Properties.Routing.{live, managed_objects-live}

abbrev pub reply_types : List Ty
reply_types = managed_type ∷ []

abbrev pub reply_packable : AllPackable reply_types
reply_packable = ((tt, (tt, (tt, tt))), tt)

abbrev pub reply_unpackable : AllUnpackable reply_types
reply_unpackable = ((tt, (tt, (tt, tt))), tt)

unfoldable pub on_get_managed_objects :
    {U : Type 0} (w : Writer) → List (Pointer U) → w.Iter → Option (Bool × w.Iter)
on_get_managed_objects w objects ret = elim (managed_objects objects) [
  | none ↦ none
  | some dict ↦ some (pack_args w reply_types reply_packable (dict, tt) ret)
]

unfoldable pub on_introspect :
    {U : Type 0} (w : Writer) → Bytes → List (Pointer U) → w.Iter → Option (Bool × w.Iter)
on_introspect w path objects ret = elim (get_xml_for_path path objects) [
  | none ↦ none
  | some xml ↦ some (pack_args w (text string ∷ []) (tt, tt) (xml, tt) ret)
]

-- The entries of a dictionary are, in order, the interfaces of an object with their properties.
abbrev pub Lists : {H : Type 0} → FlatMap (DbusInterface H) → List (Bytes × Properties) → Type 0
Lists [] [] = Unit {0}
Lists (e ∷ es) (x ∷ xs) = (x.0 ≡ e.1.interface_name) × (x.1 ≡ e.1.properties_map) × Lists es xs
Lists _ _ = ⊥

-- The entries of the dictionary are, in order, the objects with their interfaces.
abbrev pub Describes : {U : Type 0} → List (DbusObject U) → Value managed_type → Type 0
Describes [] [] = Unit {0}
Describes (o ∷ os) (x ∷ xs) = (x.0 ≡ o.object_name) × Lists o.interfaces x.1 × Describes os xs
Describes _ _ = ⊥

managed-Lists :
    {H : Type 0}
    → (es : FlatMap (DbusInterface H))
    → Lists es (map (λ e. (e.1.interface_name, e.1.properties_map)) es)
managed-Lists [] = tt
managed-Lists (e ∷ es) = (refl, refl, managed-Lists es)

managed_object-Describes :
    {U : Type 0} → (os : List (DbusObject U)) → Describes os (map managed_object os)
unfolding managed_object
managed_object-Describes [] = tt
managed_object-Describes (o ∷ os) = (refl, managed-Lists o.interfaces, managed_object-Describes os)

module _ {w : Writer} {r : Reader} {U : Type 0} (wl : WriterLaws w) (rl : ReaderLaws r) where
  -- The server holds no null pointer, the writer never fails, the names and the strings of the objects
  -- hold no NUL byte, and the reply is packed into an empty message: packing answers true, and a
  -- reader of the reply, with fuel above the number of D-Bus values, unpacks a dictionary with one
  -- entry for each object, in order: its path and, for each of its interfaces, in order, the
  -- interface's name and all its properties with their values.
  pub on_get_managed_objects-arrives :
      (nf : NeverFails w) (os : List (DbusObject U)) (ret ret' : w.Iter) (ok : Bool)
      → (it : r.Iter) (fuel : ℕ) → AllClean reply_types (map managed_object os, tt)
      → wl.body ret ≡ end
      → on_get_managed_objects w (live os) ret ≡ some (ok, ret')
      → rl.rest it ≡ wl.body ret'
      → size (wl.body ret') < fuel
      → (ok ≡ true)
        × ((dict : Value managed_type) × (it' : r.Iter) × (unpack_args r fuel reply_types
                reply_unpackable
                (defaults reply_types)
                it
              ≡ some (true, (dict, tt), it'))
            × Describes os dict)
  unfolding on_get_managed_objects
  on_get_managed_objects-arrives nf os ret ret' ok it fuel clean empty answered same enough =
      let dict = map managed_object os in
      let (works, holds) = pack_args_complete wl nf reply_types reply_packable (dict, tt) ret in
      let packed : pack_args w reply_types reply_packable (dict, tt) ret ≡ (ok, ret') =
        some_inj.0 (sym (rw (managed_objects-live os, on_get_managed_objects) refl) ∙ answered) in
      let holds' : wl.body ret' ≡ encode_args reply_types reply_packable (dict, tt) =
        ap (λ x. wl.body x.1) (sym packed)
        ∙ holds
        ∙ ap (λ b. b ⊕ encode_args reply_types reply_packable (dict, tt)) empty in
      let (it', e, at_end) =
        unpack_args-pack_args wl rl reply_types reply_packable reply_unpackable (dict, tt) ret it
          fuel (AllSafe-NeverFails wl nf reply_types) clean empty works
          (same ∙ ap (λ x. wl.body x.1) (sym packed)) (rw (← holds') enough) in
      (ap (λ x. x.0) (sym packed) ∙ works, (dict, it', e, managed_object-Describes os))
