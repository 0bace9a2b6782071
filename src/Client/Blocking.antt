-- ===== src/Client/Blocking.antt =====
-- include/dbus/connection.hpp: what a blocking call gives back.
use boost_dbus.Common.{
  ℕ, ◌<◌, ◌^◌, ◌≡◌, ◌⊎◌, inl, inr, refl, false, ◌∷◌, ◌++◌, List, none, some, arith, ◌==◌,
}
use boost_dbus.Element.{Ty}
use boost_dbus.Wire.{Writer, WriterLaws, NeverFails, Reader, ReaderLaws}
use boost_dbus.Error.{DbusError, SystemError, throw_if_set, is_set, system_error, error_code}
use boost_dbus.Message.Packer.{Values, AllPackable}
use boost_dbus.Message.Encoding.{encode_args}
use boost_dbus.Message.Headers.{Messages, MessagesLaws, Endpoint}
use boost_dbus.Client.{
  Bus, Outcome, gives, throws, default_timeout, half_minute, to_int, send_and_block, send_for,
  pack_call, method_call,
}
use boost_dbus.Client.RoundTrip.{dbus_failure, pack_call-reads}

-- The timeouts that libdbus takes: an `int` that is not negative, or -1.
abbrev pub IsTimeout : ℕ → Type 0
IsTimeout t = (t < 2 ^ 31) ⊎ (t ≡ default_timeout)

-- A blocking call answers a message, or a null pointer with the error set.
pub record BusLaws {M : Type 0} (b : Bus M) : Type 0 where
  pub answers :
      (c : b.Conn) (m : M) (t : ℕ)
      → IsTimeout t
      → ((reply : M) × ((b.send_with_reply_and_block c m t).0 ≡ some reply)
          × ((b.send_with_reply_and_block c m t).1 ≡ none))
        ⊎ ((e : DbusError) × ((b.send_with_reply_and_block c m t).0 ≡ none)
            × ((b.send_with_reply_and_block c m t).1 ≡ some e))

-- The exception of an error.
abbrev pub exception_of : DbusError → SystemError
exception_of e = record { code = dbus_failure; text = e.name ++ b':' ∷ e.message }

pub throw_if_set-none : throw_if_set none ≡ none
unfolding throw_if_set is_set
throw_if_set-none = refl

pub throw_if_set-some : (e : DbusError) → throw_if_set (some e) ≡ some (exception_of e)
unfolding throw_if_set is_set system_error error_code
throw_if_set-some e = refl

-- What `send_with_reply_and_block` and all that stand on it give, when libdbus was asked so.
abbrev pub Gives : {M : Type 0} (b : Bus M) → M → ℕ → b.Conn → Outcome M × b.Conn → Type 0
Gives {M} b m t c o =
    let asked = b.send_with_reply_and_block c m t in
    ((reply : M) × (asked.0 ≡ some reply) × (o ≡ (gives (some reply), asked.2)))
    ⊎ ((e : DbusError) × (asked.1 ≡ some e) × (o ≡ (throws (exception_of e), asked.2)))

send_and_block-Gives :
    {M : Type 0} {b : Bus M} (bl : BusLaws b) (m : M) (t : ℕ) (c : b.Conn)
    → IsTimeout t
    → Gives b m t c (send_and_block b m t c)
unfolding send_and_block
send_and_block-Gives {M} {b} bl m t c h = elim (bl.answers c m t h) [
  | inl (reply, out, clear) ↦ inl (reply, out, rw (out, clear, throw_if_set-none) refl)
  | inr (e, out, set) ↦ inr (e, set, rw (out, set, throw_if_set-some e) refl)
]

-- `send` with a duration that is positive and below 2 ^ 31 milliseconds: libdbus waits for that long, and
-- either the message of its reply is given back, or a `system_error` is thrown whose code is that of a
-- D-Bus error and whose text is the error's name, a colon and its message; never a message without a
-- pointer.
pub send_for-Gives :
    {M : Type 0} {b : Bus M} (bl : BusLaws b) (m : M) (t : ℕ) (c : b.Conn)
    → 0 < t
    → t < 2 ^ 31
    → Gives b m t c (send_for b m t c)
unfolding send_for
send_for-Gives {M} {b} bl m t c positive small =
    let same : to_int t ≡ t = omega arith in
    let other : (t == 0) ≡ false = ground arith in
    rw (other, same) (send_and_block-Gives bl m t c (inl small))

module _ {w : Writer} {r : Reader} {wl : WriterLaws w} {rl : ReaderLaws r} {ms : Messages w r}
    (ml : MessagesLaws wl rl ms) where
  -- With memory enough, `method_call` sends a message that holds exactly its arguments and waits 30000
  -- milliseconds: it gives back the message that libdbus answers, or throws a `system_error` whose code
  -- is that of a D-Bus error and whose text is the error's name, a colon and its message; it never gives
  -- back a message without a pointer.
  pub method_call-Gives :
      {b : Bus ms.Message} (bl : BusLaws b) (nf : NeverFails w)
      → (e : Endpoint) (ts : List Ty) (ps : AllPackable ts) (vs : Values ts) (c : b.Conn)
      → let m = (pack_call ms e ts ps vs).1 in
        (rl.rest (ms.init m) ≡ encode_args ts ps vs)
        × Gives b m 30000 c (method_call ms b e ts ps vs c)
  unfolding method_call
  method_call-Gives {b} bl nf e ts ps vs c = (
    (pack_call-reads ml nf e ts ps vs).1,
    send_for-Gives bl (pack_call ms e ts ps vs).1 half_minute c (omega arith) (omega arith),
  )
