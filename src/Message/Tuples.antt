-- ===== src/Message/Tuples.antt =====
-- include/dbus/message.hpp: the arguments of a method and its results, as a tuple.
--
-- A result that is no tuple is packed as a tuple of one.
use boost_dbus.Common.{ℕ, ◌≡◌, refl, Bool, true, List, [], ◌∷◌, Option, some}
use boost_dbus.Element.{Ty}
use boost_dbus.Wire.{Writer, Reader}
use boost_dbus.Message.Packer.{AllPackable, Values, pack_args}
use boost_dbus.Message.Unpacker.{AllUnpackable, Unpacked, unpack_args}

-- No argument is unpacked into an empty tuple.
unfoldable pub unpack_into_tuple :
    (r : Reader) (fuel : ℕ) (ts : List Ty)
    → AllUnpackable ts
    → Values ts
    → r.Iter
    → Option (Unpacked r (Values ts))
unfolding unpack_args
unpack_into_tuple r fuel [] us t m = some (true, t, m)
unpack_into_tuple r fuel (e ∷ es) us t m = unpack_args r fuel (e ∷ es) us t m

unfoldable pub pack_tuple_into_msg :
    (w : Writer) (ts : List Ty) → AllPackable ts → Values ts → w.Iter → Bool × w.Iter
unfolding pack_args
pack_tuple_into_msg w [] ps t m = (true, m)
pack_tuple_into_msg w (e ∷ es) ps t m = pack_args w (e ∷ es) ps t m

-- An empty tuple is no special case: to unpack no arguments is the same.
pub unpack_into_tuple-unpack_args :
    (r : Reader) (fuel : ℕ) (ts : List Ty) (us : AllUnpackable ts) (t : Values ts) (m : r.Iter)
    → unpack_into_tuple r fuel ts us t m ≡ unpack_args r fuel ts us t m
unfolding unpack_into_tuple unpack_args
unpack_into_tuple-unpack_args r fuel [] us t m = refl
unpack_into_tuple-unpack_args r fuel (e ∷ es) us t m = refl

-- The same for packing.
pub pack_tuple_into_msg-pack_args :
    (w : Writer) (ts : List Ty) (ps : AllPackable ts) (t : Values ts) (m : w.Iter)
    → pack_tuple_into_msg w ts ps t m ≡ pack_args w ts ps t m
unfolding pack_tuple_into_msg pack_args
pack_tuple_into_msg-pack_args w [] ps t m = refl
pack_tuple_into_msg-pack_args w (e ∷ es) ps t m = refl
