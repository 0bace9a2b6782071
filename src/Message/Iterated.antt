-- ===== src/Message/Iterated.antt =====
-- include/dbus/message.hpp with include/dbus/impl/message_iterator.ipp: packing and unpacking down to the
-- calls of libdbus.
use boost_dbus.Common.{ℕ, ◌<◌, ◌≡◌, ap, ◌∙◌, true, List, some}
use boost_dbus.Element.{Ty, type_invalid}
use boost_dbus.Wire.{end, size, head_code}
use boost_dbus.Wire.Iterators.{
  Iterators, IteratorsLaws, writer, reader, get_arg_type, writer_laws, writer-NeverFails,
  reader_laws,
}
use boost_dbus.Message.Packer.{AllPackable, Values, pack_args}
use boost_dbus.Message.Encoding.{encode_args}
use boost_dbus.Message.Success.{pack_args-true}
use boost_dbus.Message.Unpacker.{AllUnpackable, unpack_args}
use boost_dbus.Message.Clean.{AllClean, defaults}
use boost_dbus.Message.EndToEnd.{unpack_args-pack_args, AllSafe-NeverFails}

module _ {api : Iterators} (laws : IteratorsLaws api) where
  -- Over the iterators of libdbus, with memory enough: arguments of any types that can be packed and
  -- unpacked, whose strings hold no NUL byte and whose maps are sorted, are packed into an empty
  -- message, and the packer answers true. The unpacker, at the first argument of that message and
  -- with fuel above the number of D-Bus values, reads exactly those arguments into default objects,
  -- and `get_arg_type` then answers DBUS_TYPE_INVALID.
  pub unpack_args-message_iterator :
      (ts : List Ty) (ps : AllPackable ts) (us : AllUnpackable ts) (vs : Values ts)
      → (out it : api.DBusMessageIter) (fuel : ℕ) → AllClean ts vs
      → laws.body out ≡ end
      → laws.rest it ≡ laws.body (pack_args (writer api) ts ps vs out).1
      → size (encode_args ts ps vs) < fuel
      → ((pack_args (writer api) ts ps vs out).0 ≡ true)
        × ((it' : api.DBusMessageIter) × (unpack_args (reader api) fuel ts us (defaults ts) it
              ≡ some (true, vs, it'))
            × (get_arg_type api it' ≡ type_invalid))
  unfolding writer_laws reader_laws
  unpack_args-message_iterator ts ps us vs out it fuel clean empty same enough =
      let wl = writer_laws laws in
      let rl = reader_laws laws in
      let nf = writer-NeverFails laws in
      let ok = pack_args-true nf ts ps vs out in
      let (it', e, h) =
        unpack_args-pack_args wl rl ts ps us vs out it fuel (AllSafe-NeverFails wl nf ts) clean
          empty ok same enough in
      (ok, (it', e, rl.typed it' ∙ ap head_code h))
