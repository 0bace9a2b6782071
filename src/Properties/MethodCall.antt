-- ===== src/Properties/MethodCall.antt =====
-- include/dbus/properties.hpp, `LambdaDbusMethod::call`: the arguments are unpacked, the handler is
-- applied, and one reply is sent.
--
-- The handler is a function of its arguments; `none` says that it throws. The result is what it puts
-- into the reply, one value or a tuple. `m` is the iterator over the call's arguments, `ret` the
-- appending iterator of the new method return.
pub mod Replies
use boost_dbus.Common.{
  ℕ, Bool, true, false, List, Bytes, Option, none, some, if◌then◌else◌, codes, [],
}
use boost_dbus.Element.{Ty}
use boost_dbus.Wire.{Writer, Reader}
use boost_dbus.Message.Packer.{Values, AllPackable}
use boost_dbus.Message.Unpacker.{AllUnpackable}
use boost_dbus.Message.Tuples.{pack_tuple_into_msg, unpack_into_tuple}
use boost_dbus.Message.Clean.{defaults}

-- What is sent: a method return, as the appending iterator leaves it, or an error with its name and
-- message.
pub data Reply (w : Writer) : Type 0 where
  returned : w.Iter → Reply w
  error : (error_name error_message : Bytes) → Reply w

abbrev pub invalid_args : Bytes
invalid_args = codes "org.freedesktop.DBus.Error.InvalidArgs"

abbrev pub failed : Bytes
failed = codes "org.freedesktop.DBus.Error.Failed"

abbrev pub packing_message : Bytes
packing_message = codes "Handler had issue when packing response"

abbrev pub exception_message : Bytes
exception_message = codes "Handler threw exception while handling request."

-- `pack_tuple_into_msg` and what follows it.
unfoldable pub reply_with :
    (w : Writer) (outs : List Ty) → AllPackable outs → Values outs → w.Iter → Reply w
unfolding pack_tuple_into_msg
reply_with w outs ps result ret =
    let (ok, ret') = pack_tuple_into_msg w outs ps result ret in
    if ok then returned ret' else error failed packing_message

-- `none` says that the fuel of the unpacker ran out.
unfoldable pub call :
    (w : Writer) (r : Reader) (fuel : ℕ) (ins : List Ty)
    → AllUnpackable ins
    → (outs : List Ty) → AllPackable outs
    → (Values ins → Option (Values outs))
    → r.Iter
    → w.Iter
    → Option (Reply w)
unfolding reply_with unpack_into_tuple
call w r fuel ins us outs ps h m ret = elim (unpack_into_tuple r fuel ins us (defaults ins) m) [
  | none ↦ none
  | some (false, input_args, m') ↦ some (error invalid_args [])
  | some (true, input_args, m') ↦ elim (h input_args) [
    | none ↦ some (error failed exception_message)
    | some result ↦ some (reply_with w outs ps result ret)
  ]
]
