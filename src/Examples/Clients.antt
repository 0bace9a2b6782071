-- ===== src/Examples/Clients.antt =====
-- Clients: messages as records, a bus that answers each message with itself, calls and replies.
use boost_dbus.Common.{
  ℕ, zero, suc, ◌<◌, ◌≡◌, ◌⊎◌, ◌↔◌, refl, inl, true, false, List, [], ◌∷◌, Bytes, Option, none,
  some, codes, arith,
}
use boost_dbus.Element.{
  Ty, fixed, int32, bool, text, string, flat_map, vector, pair, element_signature,
}
use boost_dbus.Element.Shapes.{shape, element_signature-shape}
use boost_dbus.Wire.{Body, end, size, body_signature}
use boost_dbus.Wire.Room.{blank, sheets, sheets_laws, sheets_never_fail, bodies, bodies_laws}
use boost_dbus.Error.{DbusError, ErrorCode, is_set, invalid_argument}
use boost_dbus.Message.Packer.{Values}
use boost_dbus.Message.Encoding.{encode, encode_args}
use boost_dbus.Message.Clean.{defaults}
use boost_dbus.Message.Headers.{Messages, MessagesLaws, Endpoint, new_return}
use boost_dbus.Properties.MethodCall.{Reply, call}
use boost_dbus.Client.{Bus, pack_call, complete_call, reply_message, method_call}
use boost_dbus.Client.RoundTrip.{
  dbus_success, dbus_failure, complete_call-returns, complete_call-throws, complete_call-answers,
}
use boost_dbus.Client.Blocking.{BusLaws, Gives, method_call-Gives}

pub record Letter : Type 0 where
  pub kind : Bytes
  pub path : Option Bytes
  pub interface : Option Bytes
  pub member : Option Bytes
  pub failure : Option DbusError
  pub serials : ℕ × ℕ
  pub body : Body

abbrev pub letters : Messages sheets bodies
letters = record {
  Message = Letter;
  new_method_call = λ d p i k. record {
    kind = codes "method_call";
    path = some p;
    interface = some i;
    member = some k;
    failure = none;
    serials = (0, 0);
    body = end;
  };
  new_method_return = λ m. record {
    kind = codes "method_return";
    path = none;
    interface = none;
    member = none;
    failure = none;
    serials = (0, 0);
    body = end;
  };
  new_error = λ m n t. record {
    kind = codes "error";
    path = none;
    interface = none;
    member = none;
    failure = some (record { name = n; message = t });
    serials = (0, 0);
    body = end;
  };
  new_signal = λ p i n. record {
    kind = codes "signal";
    path = some p;
    interface = some i;
    member = some n;
    failure = none;
    serials = (0, 0);
    body = end;
  };
  type_of = λ m. some m.kind;
  path_of = λ m. m.path;
  interface_of = λ m. m.interface;
  member_of = λ m. m.member;
  sender_of = λ m. none;
  destination_of = λ m. none;
  signature_of = λ m. some (body_signature m.body);
  serial_of = λ m. m.serials.0;
  reply_serial_of = λ m. m.serials.1;
  with_serial = λ m n. record m { serials = (n, m.serials.1) };
  with_reply_serial = λ m n. record m { serials = (m.serials.0, n) };
  set_error_from_message = λ m. m.failure;
  init_append = λ m. record (blank 0) { written = m.body };
  appended_to = λ m it. record m { body = it.written };
  init = λ m. m.body;
}

abbrev pub letters_laws : MessagesLaws sheets_laws bodies_laws letters
letters_laws = record {
  call_type = λ d p i k. refl;
  call_path = λ d p i k. refl;
  call_interface = λ d p i k. refl;
  call_member = λ d p i k. refl;
  call_empty = λ d p i k. refl;
  return_empty = λ m. refl;
  return_clear = λ m. refl;
  error_set = λ m n t. refl;
  reads = λ m it. refl;
  same_type = λ m it. refl;
  same_path = λ m it. refl;
  same_interface = λ m it. refl;
  same_member = λ m it. refl;
  same_error = λ m it. refl;
}

-- The messages that have been sent.
abbrev echo : Bus Letter
echo = record {
  Conn = List Letter;
  send = λ c m. m ∷ c;
  send_with_reply_and_block = λ c m t. (some m, none, m ∷ c);
}

abbrev echo_laws : BusLaws echo
echo_laws = record { answers = λ c m t h. inl (m, refl, refl) }

-- A method of a number and a flag that answers the number after it, and throws on zero.
abbrev ins : List Ty
ins = fixed int32 ∷ bool ∷ []

abbrev outs : List Ty
outs = fixed int32 ∷ []

abbrev after : ℕ → Option (Values outs)
after zero = none
after (suc n) = some (suc (suc n), tt)

abbrev handler : Values ins → Option (Values outs)
handler vs = after vs.0

abbrev pub counting : Endpoint
counting = record {
  process_name = codes "org.example";
  path = codes "/counter";
  interface = codes "org.example.Counter";
  member = codes "Next";
}

abbrev call_of : ℕ → Letter
call_of n = (pack_call letters counting ins (tt, (tt, tt)) (n, (true, tt))).1

args-size : (n : ℕ) → size (encode_args ins (tt, (tt, tt)) (n, (true, tt))) < 4
unfolding encode_args encode
args-size n = omega arith

outs-size : (n : ℕ) → size (encode_args outs (tt, tt) (n, tt)) < 4
unfolding encode_args encode
outs-size n = omega arith

complete_call-returns_example :
    (reply : Reply sheets) × (call sheets bodies 4 ins
        (tt, (tt, tt))
        outs
        (tt, tt)
        handler
        (letters.init (call_of 5))
        (letters.init_append (new_return letters (call_of 5)))
      ≡ some reply)
    × (complete_call letters 4 outs (tt, tt) (reply_message letters (call_of 5) reply)
        ≡ some (dbus_success, (6, tt)))
complete_call-returns_example =
    complete_call-returns letters_laws sheets_never_fail 4 ins (tt, (tt, tt)) (tt, (tt, tt)) outs
      (tt, tt) (tt, tt) handler (5, (true, tt)) (6, tt) counting (tt, (tt, tt)) (tt, tt)
      (args-size 5) (outs-size 6) refl

complete_call-throws_example :
    (reply : Reply sheets) × (call sheets bodies 4 ins
        (tt, (tt, tt))
        outs
        (tt, tt)
        handler
        (letters.init (call_of 0))
        (letters.init_append (new_return letters (call_of 0)))
      ≡ some reply)
    × (complete_call letters 4 outs (tt, tt) (reply_message letters (call_of 0) reply)
        ≡ some (dbus_failure, defaults outs))
complete_call-throws_example =
    complete_call-throws letters_laws sheets_never_fail 4 ins (tt, (tt, tt)) (tt, (tt, tt)) outs
      (tt, tt) (tt, tt) handler (0, (true, tt)) counting (tt, (tt, tt)) (args-size 0) refl

-- An answer without arguments.
abbrev nothing : Letter
nothing = letters.new_method_return (letters.new_signal [] [] [])

complete_call-answers_example :
    (ec : ErrorCode) × (vs : Values outs) × (complete_call letters 4 outs (tt, tt) nothing
      ≡ some (ec, vs))
    × (((is_set none ≡ true) × (ec ≡ dbus_failure) × (vs ≡ defaults outs))
        ⊎ ((is_set none ≡ false) × ((ec ≡ dbus_success) ⊎ (ec ≡ invalid_argument))))
complete_call-answers_example =
    complete_call-answers letters_laws 4 outs (tt, tt) nothing tt (omega arith)

method_call-Gives_example :
    ((call_of 5).body ≡ encode_args ins (tt, (tt, tt)) (5, (true, tt)))
    × Gives echo
        (call_of 5)
        30000
        []
        (method_call letters echo counting ins (tt, (tt, tt)) (5, (true, tt)) [])
method_call-Gives_example =
    method_call-Gives letters_laws echo_laws sheets_never_fail counting ins (tt, (tt, tt))
      (5, (true, tt)) []

element_signature-shape_example :
    (element_signature (flat_map bool) ≡ element_signature (vector (pair (text string) bool)))
    ↔ (shape (flat_map bool) ≡ shape (vector (pair (text string) bool)))
element_signature-shape_example =
    element_signature-shape (flat_map bool) (vector (pair (text string) bool))
