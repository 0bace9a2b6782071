-- ===== src/Examples/Arguments.antt =====
-- Arguments that are packed and unpacked, as test/message.cpp does.
use boost_dbus.Common.{
  ◌≡◌, refl, true, false, List, [], ◌∷◌, some, codes, arith, ◌<◌, c_str, bytes_compare, ◌++◌, ◌-◌,
  ◌^◌,
}
use boost_dbus.Element.{
  Ty, fixed, text, string, object_path, dbus_variant, vector, flat_map, pair, int32, uint16, byte,
  of_bool, of_number, Value, element_signature, type_string, element_signature-type_string,
}
use boost_dbus.Wire.{Body, end, value, group, ◌⊕◌, size, word, chars, body_signature}
use boost_dbus.Wire.Room.{
  blank, pages, pages_laws, sheets, sheets_laws, sheets_never_fail, bodies, bodies_laws,
}
use boost_dbus.Message.Packer.{Values, pack, pack_args}
use boost_dbus.Message.Encoding.{encode, encode_args}
use boost_dbus.Message.Conforms.{Conforms}
use boost_dbus.Message.Unpacker.{unpack, unpack_args}
use boost_dbus.Message.Clean.{AllClean, defaults}
use boost_dbus.Message.Total.{Answers, unpack-Answers}
use boost_dbus.Message.EndToEnd.{
  unpack_args-pack_args, pack_args_complete, pack_args_sound, pack-Conforms, unpack_rejects,
}

abbrev sample_types : List Ty
sample_types = text string ∷ vector (fixed int32) ∷ flat_map dbus_variant ∷ []

abbrev sample : Values sample_types
sample = (
  codes "hi",
  (7 ∷ (2 ^ 32 - 1) ∷ [], ((codes "a", of_bool true) ∷ (codes "b", of_number uint16 300) ∷ [], tt)),
)

abbrev sample_body : Body
sample_body = encode_args sample_types (tt, (tt, (tt, tt))) sample

sample_written : (pack_args sheets sample_types (tt, (tt, (tt, tt))) sample (blank 0)).0 ≡ true
unfolding pack_args
sample_written = refl

sample_size : size sample_body < 20
unfolding encode_args encode
sample_size = omega arith

sample_clean : AllClean sample_types sample
unfolding bytes_compare
sample_clean = (
  (refl, (refl, tt)),
  ((tt, (tt, tt)), (((refl, (tt, tt)), (((refl, tt), tt), (((refl, tt), tt), tt))), tt)),
)

unpack_args-pack_args_example :
    (it' : Body) × (unpack_args bodies 20 sample_types
        (tt, (tt, (tt, tt)))
        (defaults sample_types)
        (pack_args sheets sample_types (tt, (tt, (tt, tt))) sample (blank 0)).1.written
      ≡ some (true, sample, it'))
    × (it' ≡ end)
unpack_args-pack_args_example =
    unpack_args-pack_args sheets_laws bodies_laws sample_types (tt, (tt, (tt, tt)))
      (tt, (tt, (tt, tt))) sample (blank 0)
      (pack_args sheets sample_types (tt, (tt, (tt, tt))) sample (blank 0)).1.written 20
      (tt, (tt, (sheets_never_fail, tt))) sample_clean refl sample_written refl sample_size

pack_args_complete_example :
    ((pack_args sheets sample_types (tt, (tt, (tt, tt))) sample (blank 0)).0 ≡ true)
    × ((pack_args sheets sample_types (tt, (tt, (tt, tt))) sample (blank 0)).1.written
        ≡ end ⊕ sample_body)
pack_args_complete_example =
    pack_args_complete sheets_laws sheets_never_fail sample_types (tt, (tt, (tt, tt))) sample
      (blank 0)

-- A writer that has memory for five calls: an array of two numbers needs four.
abbrev two_types : List Ty
two_types = vector (fixed byte) ∷ []

two_written : (pack_args pages two_types (tt, tt) (7 ∷ 8 ∷ [], tt) (blank 5)).0 ≡ true
unfolding pack_args
two_written = refl

pack_args_sound_example :
    (pack_args pages two_types (tt, tt) (7 ∷ 8 ∷ [], tt) (blank 5)).1.written
    ≡ end ⊕ encode_args two_types (tt, tt) (7 ∷ 8 ∷ [], tt)
pack_args_sound_example =
    pack_args_sound pages_laws two_types (tt, tt) (7 ∷ 8 ∷ [], tt) (blank 5) (tt, tt) two_written

-- With memory for three calls the container cannot be closed.
two_failed : (pack_args pages two_types (tt, tt) (7 ∷ 8 ∷ [], tt) (blank 3)).0 ≡ false
unfolding pack_args
two_failed = refl

abbrev names_type : Ty
names_type = flat_map (vector (text object_path))

abbrev names : Value names_type
names = (codes "k", codes "/a" ∷ codes "/b" ∷ []) ∷ []

names_written : (pack pages names_type tt names (blank 20)).0 ≡ true
unfolding pack
names_written = refl

pack-Conforms_example :
    (body_signature (pack pages names_type tt names (blank 20)).1.written
      ≡ c_str (element_signature names_type))
    × Conforms (pack pages names_type tt names (blank 20)).1.written
pack-Conforms_example =
    pack-Conforms pages_laws names_type tt names (blank 20) tt refl names_written

names_signature : c_str (element_signature names_type) ≡ codes "a{sao}"
unfolding element_signature c_str
names_signature = refl

-- A message that holds a string, where a vector is asked for.
abbrev one_string : Body
one_string = value b's' (chars (codes "x")) end

unpack_rejects_example :
    unpack bodies 3 (vector (text string)) tt (codes "old" ∷ []) one_string
    ≡ some (false, codes "old" ∷ [], one_string)
unpack_rejects_example =
    unpack_rejects bodies_laws 3 (vector (text string)) tt (codes "old" ∷ []) one_string refl

-- An array of a number and a string cannot be unpacked as numbers.
abbrev mixed : Body
mixed = group b'a' (some (codes "i")) (value b'i' (word 5) one_string) end

unpack-Answers_example : Answers bodies_laws (unpack bodies 4 (vector (fixed int32)) tt []) mixed
unpack-Answers_example =
    unpack-Answers bodies_laws 4 (vector (fixed int32)) tt [] mixed
      ((refl, refl, (refl, refl, tt)), tt) (omega arith)

mixed_unpacked :
    unpack bodies 4 (vector (fixed int32)) tt [] mixed ≡ some (false, 5 ∷ 0 ∷ [], mixed)
unfolding unpack element_signature
mixed_unpacked = refl

element_signature-type_string_example :
    element_signature (pair (text string) (vector dbus_variant))
    ≡ type_string (pair (text string) (vector dbus_variant)) ++ 0 ∷ []
element_signature-type_string_example =
    element_signature-type_string (pair (text string) (vector dbus_variant))
