-- ===== src/Message/Headers.antt =====
-- include/dbus/message.hpp and include/dbus/endpoint.hpp: how messages are made, and their headers.
--
-- libdbus's messages are a parameter. A call that makes a message has memory enough; a getter answers
-- `none` for a null pointer.
use boost_dbus.Common.{
  ℕ, ◌≡◌, Bool, ◌&&◌, [], ◌++◌, Bytes, Option, none, some, codes, c_str, bytes_eq,
}
use boost_dbus.Error.{DbusError}
use boost_dbus.Wire.{end, Writer, WriterLaws, Reader, ReaderLaws}

pub record Messages (w : Writer) (r : Reader) : Type 1 where
  pub Message : Type 0
  pub new_method_call : (destination path interface member : Bytes) → Message
  pub new_method_return : Message → Message
  pub new_error : Message → (error_name error_message : Bytes) → Message
  pub new_signal : (path interface name : Bytes) → Message
  pub type_of : Message → Option Bytes
  pub path_of : Message → Option Bytes
  pub interface_of : Message → Option Bytes
  pub member_of : Message → Option Bytes
  pub sender_of : Message → Option Bytes
  pub destination_of : Message → Option Bytes
  pub signature_of : Message → Option Bytes
  pub serial_of : Message → ℕ
  pub reply_serial_of : Message → ℕ
  pub with_serial : Message → ℕ → Message
  pub with_reply_serial : Message → ℕ → Message
  pub set_error_from_message : Message → Option DbusError
  -- `dbus_message_iter_init_append`, the message as an appending iterator leaves it, and
  -- `dbus_message_iter_init`.
  pub init_append : Message → w.Iter
  pub appended_to : Message → w.Iter → Message
  pub init : Message → r.Iter

-- What libdbus says of a message that it makes: a call has the header that it was made with, a new
-- message has no arguments, an error sets its name and message, what was appended is read, and
-- appending leaves header and error as they are.
pub record MessagesLaws {w : Writer} {r : Reader} (wl : WriterLaws w) (rl : ReaderLaws r)
    (ms : Messages w r) : Type 0 where
  pub call_type :
      (d p i k : Bytes) → ms.type_of (ms.new_method_call d p i k) ≡ some (codes "method_call")
  pub call_path : (d p i k : Bytes) → ms.path_of (ms.new_method_call d p i k) ≡ some p
  pub call_interface : (d p i k : Bytes) → ms.interface_of (ms.new_method_call d p i k) ≡ some i
  pub call_member : (d p i k : Bytes) → ms.member_of (ms.new_method_call d p i k) ≡ some k
  pub call_empty : (d p i k : Bytes) → wl.body (ms.init_append (ms.new_method_call d p i k)) ≡ end
  pub return_empty : (m : ms.Message) → wl.body (ms.init_append (ms.new_method_return m)) ≡ end
  pub return_clear : (m : ms.Message) → ms.set_error_from_message (ms.new_method_return m) ≡ none
  pub error_set :
      (m : ms.Message) (n t : Bytes)
      → ms.set_error_from_message (ms.new_error m n t) ≡ some (record { name = n; message = t })
  pub reads : (m : ms.Message) (it : w.Iter) → rl.rest (ms.init (ms.appended_to m it)) ≡ wl.body it
  pub same_type : (m : ms.Message) (it : w.Iter) → ms.type_of (ms.appended_to m it) ≡ ms.type_of m
  pub same_path : (m : ms.Message) (it : w.Iter) → ms.path_of (ms.appended_to m it) ≡ ms.path_of m
  pub same_interface :
      (m : ms.Message) (it : w.Iter) → ms.interface_of (ms.appended_to m it) ≡ ms.interface_of m
  pub same_member :
      (m : ms.Message) (it : w.Iter) → ms.member_of (ms.appended_to m it) ≡ ms.member_of m
  pub same_error :
      (m : ms.Message) (it : w.Iter)
      → ms.set_error_from_message (ms.appended_to m it) ≡ ms.set_error_from_message m

-- An endpoint that is made without a member has the empty string there.
pub record Endpoint : Type 0 where
  pub process_name : Bytes
  pub path : Bytes
  pub interface : Bytes
  pub member : Bytes

abbrev pub new_endpoint : (process_name path interface : Bytes) → Endpoint
new_endpoint n p i = record { process_name = n; path = p; interface = i; member = [] }

unfoldable pub endpoint_eq : Endpoint → Endpoint → Bool
endpoint_eq e o =
    bytes_eq e.process_name o.process_name
    && (bytes_eq e.path o.path && (bytes_eq e.interface o.interface && bytes_eq e.member o.member))

unfoldable pub endpoint_text : Endpoint → Bytes
endpoint_text e =
    codes "path=\""
    ++ (e.path
        ++ (codes "\" interface=\""
            ++ (e.interface ++ (codes "\" process_name=\"" ++ (e.process_name ++ codes "\"")))))

unfoldable pub sanitize : Option Bytes → Bytes
sanitize none = codes "(null)"
sanitize (some s) = s

module _ {w : Writer} {r : Reader} (ms : Messages w r) where
  open ms use {Message}

  unfoldable pub new_call : Endpoint → Message
  new_call e =
      ms.new_method_call (c_str e.process_name) (c_str e.path) (c_str e.interface) (c_str e.member)

  unfoldable pub new_call_of : Endpoint → (method_name : Bytes) → Message
  new_call_of e method_name =
      ms.new_method_call (c_str e.process_name) (c_str e.path) (c_str e.interface)
        (c_str method_name)

  unfoldable pub new_return : Message → Message
  new_return call = ms.new_method_return call

  unfoldable pub new_error : Message → (error_name error_message : Bytes) → Message
  new_error call n t = ms.new_error call (c_str n) (c_str t)

  unfoldable pub new_signal : Endpoint → (signal_name : Bytes) → Message
  new_signal e n = ms.new_signal (c_str e.path) (c_str e.interface) (c_str n)

  unfoldable pub get_type : Message → Bytes
  unfolding sanitize
  get_type m = sanitize (ms.type_of m)

  unfoldable pub get_path : Message → Bytes
  unfolding sanitize
  get_path m = sanitize (ms.path_of m)

  unfoldable pub get_interface : Message → Bytes
  unfolding sanitize
  get_interface m = sanitize (ms.interface_of m)

  unfoldable pub get_member : Message → Bytes
  unfolding sanitize
  get_member m = sanitize (ms.member_of m)

  unfoldable pub get_sender : Message → Bytes
  unfolding sanitize
  get_sender m = sanitize (ms.sender_of m)

  unfoldable pub get_destination : Message → Bytes
  unfolding sanitize
  get_destination m = sanitize (ms.destination_of m)

  unfoldable pub get_signature : Message → Bytes
  unfolding sanitize
  get_signature m = sanitize (ms.signature_of m)

  unfoldable pub get_serial : Message → ℕ
  get_serial m = ms.serial_of m

  unfoldable pub set_serial : (serial : ℕ) → Message → Message
  set_serial serial m = ms.with_serial m serial

  unfoldable pub get_reply_serial : Message → ℕ
  get_reply_serial m = ms.reply_serial_of m

  unfoldable pub set_reply_serial : (reply_serial : ℕ) → Message → Message
  set_reply_serial reply_serial m = ms.with_reply_serial m reply_serial

  -- `operator<<`
  unfoldable pub message_text : Message → Bytes
  unfolding get_type get_sender get_interface get_member get_path get_destination
  message_text m =
      codes "type='"
      ++ (get_type m
          ++ (codes "',sender='"
              ++ (get_sender m
                  ++ (codes "',interface='"
                      ++ (get_interface m
                          ++ (codes "',member='"
                              ++ (get_member m
                                  ++ (codes "',path='"
                                      ++ (get_path m
                                          ++ (codes "',destination='"
                                              ++ (get_destination m ++ codes "'")))))))))))
