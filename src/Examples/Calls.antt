-- ===== src/Examples/Calls.antt =====
-- Method calls, connections and filters.
use boost_dbus.Common.{
  ◌++◌, ℕ, zero, suc, ◌<◌, ◌≡◌, refl, Bool, true, List, [], ◌∷◌, Option, none, some, codes, arith,
  leb,
}
use boost_dbus.Element.{Ty, fixed, int32, bool}
use boost_dbus.Wire.{Body, end, value, chars, size}
use boost_dbus.Wire.Room.{blank, pages, pages_laws, bodies, bodies_laws}
use boost_dbus.Message.Packer.{Values, pack_args}
use boost_dbus.Message.Tuples.{unpack_into_tuple, pack_tuple_into_msg}
use boost_dbus.Message.Unpacker.{unpack_args}
use boost_dbus.Message.Clean.{defaults}
use boost_dbus.Message.Total.{IsProper}
use boost_dbus.Message.Encoding.{encode, encode_args}
use boost_dbus.Properties.MethodCall.{
  Reply, returned, error, invalid_args, failed, packing_message, call,
}
use boost_dbus.Properties.MethodCall.Replies.{Answered, call-answers}
use boost_dbus.Connection.{new_connection}
use mathlib.Core.List.{Perm}
use boost_dbus.AsyncSend
use boost_dbus.AsyncSend.{sends, replies, happen, idle}
use boost_dbus.AsyncSend.Completion.{completed, waiting, async_send-once}

-- A method of a number and a flag that answers the number after it, and throws on zero.
abbrev ins : List Ty
ins = fixed int32 ∷ bool ∷ []

abbrev outs : List Ty
outs = fixed int32 ∷ []

abbrev after : ℕ → Option (Values outs)
after zero = none
after (suc n) = some (suc (suc n), tt)

abbrev handler : Values ins → Option (Values outs)
handler vs = after vs.0

abbrev message : ℕ → Body
message n = encode_args ins (tt, (tt, tt)) (n, (true, tt))

message-size : (n : ℕ) → size (message n) < 4
unfolding encode_args encode
message-size n = omega arith

message-IsProper : (n : ℕ) → IsProper (message n)
unfolding encode_args encode
message-IsProper n = (refl, refl, (refl, refl, tt))

-- A call with a string.
abbrev one_string : Body
one_string = value b's' (chars (codes "x")) end

abbrev reply_to : Body → Option (Reply pages)
reply_to m = call pages bodies 4 ins (tt, (tt, tt)) outs (tt, tt) handler m (blank 2)

call-answers_example :
    (ok : Bool) × (vs : Values ins) × (m' : Body) × (unpack_args bodies 4 ins
        (tt, (tt, tt))
        (defaults ins)
        (message 5)
      ≡ some (ok, vs, m'))
    × Answered pages_laws bodies_laws ok outs (tt, tt) (handler vs) (blank 2) (reply_to (message 5))
call-answers_example =
    call-answers pages_laws bodies_laws 4 ins (tt, (tt, tt)) outs (tt, tt) handler (message 5)
      (blank 2) (message-IsProper 5) (message-size 5) (tt, tt)

call_answers :
    reply_to (message 5)
    ≡ some (returned (record (blank 1) { written = encode_args outs (tt, tt) (6, tt) }))
unfolding call unpack_into_tuple pack_tuple_into_msg encode_args unpack_args encode pack_args
call_answers = refl

call_rejects : reply_to one_string ≡ some (error invalid_args [])
unfolding call unpack_into_tuple pack_tuple_into_msg encode_args unpack_args encode pack_args
call_rejects = refl

-- A reply for which there is no memory.
call_fails :
    call pages bodies 4 ins (tt, (tt, tt)) outs (tt, tt) handler (message 5) (blank 0)
    ≡ some (error failed packing_message)
unfolding call unpack_into_tuple pack_tuple_into_msg encode_args unpack_args encode pack_args
call_fails = refl

-- Messages up to 9 are method calls. Two calls and a signal are sent, and the second call is answered.
abbrev traffic : List (AsyncSend.Event ℕ ℕ)
traffic = sends 5 1 ∷ sends 20 2 ∷ sends 7 3 ∷ replies 1 70 ∷ []

async_send-once_example :
    let s = happen (λ m. leb m 9) traffic (idle new_connection) in
    Perm (completed s ++ waiting s) (1 ∷ 3 ∷ [])
async_send-once_example = async_send-once (λ m. leb m 9) new_connection traffic
