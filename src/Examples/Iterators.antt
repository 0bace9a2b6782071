-- ===== src/Examples/Iterators.antt =====
-- Iterators of libdbus that write on a page, or read a body whose type codes are ASCII.
use boost_dbus.Common.{◌<◌, ◌≡◌, refl, true, List, [], ◌∷◌, some, codes, c_str, arith}
use boost_dbus.Element.{
  Ty, byte, fixed, text, string, vector, type_invalid, element_signature, type_string,
}
use boost_dbus.Wire.{Body, end, value, group, size, head_code, after_head, contents, datum}
use boost_dbus.Wire.Room.{Page, blank, page_append, page_open, page_close}
use boost_dbus.Wire.Iterators.{
  Iterators, IteratorsLaws, writer, reader, append_basic, open_container, close_container,
  get_arg_type,
}
use boost_dbus.Message.Packer.{Values, pack_args}
use boost_dbus.Message.Encoding.{encode_args, encode}
use boost_dbus.Message.Unpacker.{unpack_args}
use boost_dbus.Message.Clean.{defaults}
use boost_dbus.Message.Iterated.{unpack_args-message_iterator}

abbrev IsAscii : Body → Type 0
IsAscii end = Unit {0}
IsAscii (value c d b) = (c < 128) × IsAscii b
IsAscii (group c s i b) = (c < 128) × IsAscii i × IsAscii b

data Cursor : Type 0 where
  writing : Page → Cursor
  reading : (b : Body) → IsAscii b → Cursor

abbrev page : Cursor → Page
page (writing p) = p
page (reading b h) = blank 0

abbrev to_read : Cursor → Body
to_read (writing p) = end
to_read (reading b h) = b

abbrev step_over : Cursor → Cursor
step_over (writing p) = writing p
step_over (reading end h) = reading end tt
step_over (reading (value c d b) h) = reading b h.1
step_over (reading (group c s i b) h) = reading b h.2

abbrev step_into : Cursor → Cursor
step_into (writing p) = writing p
step_into (reading end h) = reading end tt
step_into (reading (value c d b) h) = reading end tt
step_into (reading (group c s i b) h) = reading i h.1

abbrev api : Iterators
api = record {
  Message = Cursor;
  DBusMessageIter = Cursor;
  iter_init_append = λ m. m;
  iter_append_basic = λ i c d. (1, writing (page_append (page i) c d).1);
  iter_open_container =
      λ i c s. (1, writing (page_open (page i) c s).1, writing (page_open (page i) c s).2);
  iter_close_container = λ i sub. (1, writing (page_close (page i) (page sub)).1);
  iter_abandon_container = λ i sub. i;
  iter_append_fixed_array = λ i c xs. (0, i);
  iter_init = λ m. (1, m);
  iter_next = λ i. (head_code (to_read (step_over i)), step_over i);
  iter_has_next = λ i. head_code (to_read (step_over i));
  iter_get_element_count = λ i. size (contents (to_read i));
  iter_get_arg_type = λ i. head_code (to_read i);
  iter_get_basic = λ i. datum (to_read i);
  iter_recurse = step_into;
  iter_get_element_type = λ i. head_code (contents (to_read i));
  iter_get_fixed_array = λ i. [];
}

step_over-rest : (i : Cursor) → to_read (step_over i) ≡ after_head (to_read i)
step_over-rest (writing p) = refl
step_over-rest (reading end h) = refl
step_over-rest (reading (value c d b) h) = refl
step_over-rest (reading (group c s i b) h) = refl

step_into-rest : (i : Cursor) → to_read (step_into i) ≡ contents (to_read i)
step_into-rest (writing p) = refl
step_into-rest (reading end h) = refl
step_into-rest (reading (value c d b) h) = refl
step_into-rest (reading (group c s i b) h) = refl

ascii_head : (i : Cursor) → head_code (to_read i) < 128
ascii_head (writing p) = omega arith
ascii_head (reading end h) = omega arith
ascii_head (reading (value c d b) h) = h.0
ascii_head (reading (group c s i b) h) = h.0

abbrev api_laws : IteratorsLaws api
api_laws = record {
  body = λ i. (page i).written;
  rest = to_read;
  appended = λ i c d. (λ e. absurd (omega (arith, e)), refl);
  opened = λ i c s. (λ e. absurd (omega (arith, e)), refl);
  closes = λ i sub e. absurd (omega (arith, e));
  closed = λ i c s sub. refl;
  typed = λ i. refl;
  ascii = ascii_head;
  got = λ i c d b e. rw (e) refl;
  moved = step_over-rest;
  entered = λ i c s inner b e. rw (step_into-rest i, e) refl;
}

abbrev types : List Ty
types = text string ∷ vector (fixed byte) ∷ []

abbrev arguments : Values types
arguments = (codes "hi", (7 ∷ 8 ∷ [], tt))

abbrev packed : Body
packed = encode_args types (tt, (tt, tt)) arguments

packed-IsAscii : IsAscii packed
unfolding encode_args encode
packed-IsAscii = (omega arith, (omega arith, (omega arith, (omega arith, tt)), tt))

abbrev first : Cursor
first = reading packed packed-IsAscii

packed_same :
    packed
    ≡ (page (pack_args (writer api) types (tt, (tt, tt)) arguments (writing (blank 0))).1).written
unfolding pack_args append_basic open_container close_container encode_args encode element_signature
    c_str type_string
packed_same = refl

size-packed : size packed < 9
unfolding encode_args encode
size-packed = omega arith

unpack_args-message_iterator_example :
    ((pack_args (writer api) types (tt, (tt, tt)) arguments (writing (blank 0))).0 ≡ true)
    × ((it' : Cursor) × (unpack_args (reader api) 9 types (tt, (tt, tt)) (defaults types) first
          ≡ some (true, arguments, it'))
        × (get_arg_type api it' ≡ type_invalid))
unpack_args-message_iterator_example =
    unpack_args-message_iterator api_laws types (tt, (tt, tt)) (tt, (tt, tt)) arguments
      (writing (blank 0)) first 9 ((refl, (refl, tt)), ((tt, (tt, tt)), tt)) refl packed_same
      size-packed
