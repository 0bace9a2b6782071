-- ===== src/Client.antt =====
-- include/dbus/connection.hpp, with `send` of include/dbus/connection_service.hpp and
-- include/dbus/impl/connection.ipp: calls of methods, blocking and asynchronous.
--
-- A duration is in milliseconds. An `int` is its bit pattern of 32 bits. What a function throws is a
-- value.
pub mod Blocking
pub mod RoundTrip
pub mod Posted
pub mod Routed
pub mod Served
use boost_dbus.Common.{
  ℕ, ◌-◌, ◌%◌, ◌^◌, Bool, true, false, not, List, [], ◌∷◌, Bytes, Option, none, some, if◌then◌else◌,
  ◌==◌, bytes_eq, codes,
}
use boost_dbus.Element.{Ty}
use boost_dbus.Wire.{Writer, Reader}
use boost_dbus.Error.{
  DbusError, ErrorCode, SystemError, error_code, throw_if_set, is_failure, invalid_argument,
}
use boost_dbus.Message.Packer.{Values, AllPackable, pack_args}
use boost_dbus.Message.Unpacker.{AllUnpackable}
use boost_dbus.Message.Tuples.{unpack_into_tuple}
use boost_dbus.Message.Clean.{defaults}
use boost_dbus.Message.Headers.{Messages, Endpoint, new_call, new_return, new_error, get_type}
use boost_dbus.Properties.MethodCall.{Reply, returned, error}
use boost_dbus.AsyncSend.{Sender, async_send}

-- libdbus: sending. A blocking call answers a message or a null pointer, and the error that it sets.
pub record Bus (M : Type 0) : Type 1 where
  pub Conn : Type 0
  pub send : Conn → M → Conn
  pub send_with_reply_and_block :
      Conn → M → (timeout_in_milliseconds : ℕ) → Option M × Option DbusError × Conn

-- What a call gives back: a message, `none` for one that holds a null pointer, or an exception.
pub data Outcome (M : Type 0) : Type 0 where
  gives : Option M → Outcome M
  throws : SystemError → Outcome M

abbrev pub thrown_or : {M : Type 0} → Option SystemError → Option M → Outcome M
thrown_or none out = gives out
thrown_or (some x) out = throws x

-- The default argument -1.
abbrev pub default_timeout : ℕ
default_timeout = 2 ^ 32 - 1

-- `std::chrono::seconds(30)`
abbrev pub half_minute : ℕ
half_minute = 30000

-- `long` to `int`.
abbrev pub to_int : ℕ → ℕ
to_int n = n % 2 ^ 32

module _ {M : Type 0} (b : Bus M) where
  -- `impl::connection::send_with_reply_and_block`
  unfoldable pub send_and_block : M → ℕ → b.Conn → Outcome M × b.Conn
  send_and_block m timeout c =
      let (out, e, c') = b.send_with_reply_and_block c m timeout in
      (thrown_or (throw_if_set e) out, c')

  -- `connection::send` without a duration.
  unfoldable pub send : M → b.Conn → Outcome M × b.Conn
  unfolding send_and_block
  send m c = send_and_block m default_timeout c

  -- `connection::send` with a duration.
  unfoldable pub send_for : M → (timeout : ℕ) → b.Conn → Outcome M × b.Conn
  unfolding send_and_block
  send_for m timeout c =
      if timeout == 0 then (gives none, b.send c m) else send_and_block m (to_int timeout) c

module _ {w : Writer} {r : Reader} (ms : Messages w r) where
  open ms use {Message, init_append, appended_to, init}

  -- `pack` of the arguments into a call, and whether it worked.
  unfoldable pub pack_call : Endpoint → (ts : List Ty) → AllPackable ts → Values ts → Bool × Message
  unfolding new_call
  pack_call e ts ps vs =
      let m = new_call ms e in
      let (ok, it) = pack_args w ts ps vs (init_append m) in (ok, appended_to m it)

  -- Whether the arguments were packed is not asked.
  unfoldable pub method_call :
      (b : Bus Message)
      → Endpoint
      → (ts : List Ty) → AllPackable ts
      → Values ts
      → b.Conn
      → Outcome Message × b.Conn
  unfolding pack_call send_for
  method_call b e ts ps vs c = send_for b (pack_call e ts ps vs).1 half_minute c

  abbrev pub is_call : Message → Bool
  is_call m = bytes_eq (get_type ms m) (codes "method_call")

  -- Where packing fails nothing is sent, and the handler is dropped.
  unfoldable pub async_method_call :
      {H : Type 0}
      → H
      → Endpoint
      → (ts : List Ty) → AllPackable ts
      → Values ts
      → Sender Message H
      → Sender Message H
  unfolding pack_call
  async_method_call h e ts ps vs s =
      let (ok, m) = pack_call e ts ps vs in if not ok then s else async_send is_call m h s

  -- `async_send_op::operator()()`: the code that the handler is called with.
  unfoldable pub completion_code : Message → ErrorCode
  unfolding error_code
  completion_code m = error_code (ms.set_error_from_message m)

  -- The lambda of `async_method_call`: what it calls the handler of the program with. `none` says that
  -- the fuel of the unpacker ran out.
  unfoldable pub reply_handler :
      (fuel : ℕ) (ts : List Ty)
      → AllUnpackable ts
      → ErrorCode
      → Message
      → Option (ErrorCode × Values ts)
  unfolding unpack_into_tuple
  reply_handler fuel ts us ec m =
      if is_failure ec
      then some (ec, defaults ts)
      else (elim (unpack_into_tuple r fuel ts us (defaults ts) (init m)) [
        | none ↦ none
        | some (false, response_args, it) ↦ some (invalid_argument, response_args)
        | some (true, response_args, it) ↦ some (ec, response_args)
      ])

  -- The completion of a call: `operator()()` and the lambda.
  unfoldable pub complete_call :
      (fuel : ℕ) (ts : List Ty) → AllUnpackable ts → Message → Option (ErrorCode × Values ts)
  unfolding completion_code reply_handler
  complete_call fuel ts us m = reply_handler fuel ts us (completion_code m) m

  -- The message that a server sends for a reply to `call`.
  unfoldable pub reply_message : Message → Reply w → Message
  unfolding new_return new_error
  reply_message call (returned it) = appended_to (new_return ms call) it
  reply_message call (error n t) = new_error ms call n t
