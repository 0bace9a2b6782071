-- ===== src/Element/Types.antt =====
-- The types of include/dbus/element.hpp, the values they stand for, and the type codes.
use boost_dbus.Common.{
  ℕ, Bool, true, false, ◌&&◌, ◌||◌, not, List, [], Bytes, ◌==◌, ◌%◌, ◌/◌, ◌^◌, bytes_eq,
}
use boost_dbus.Common.FlatMap.{FlatMap}

-- The numeric types with an `element` specialization; `bool` stands apart, since it is packed by
-- a function of its own.
pub data Fixed : Type 0 where
  byte int16 uint16 int32 uint32 int64 uint64 double : Fixed

-- The types of `is_string_type`.
pub data Text : Type 0 where
  string object_path signature : Text

-- `vector` stands for the containers with `emplace_back`, `flat_map` for those with `emplace`:
-- the code uses `boost::container::flat_map` with `std::string` keys.
pub data Ty : Type 0 where
  bool : Ty
  fixed : Fixed → Ty
  text : Text → Ty
  dbus_variant : Ty
  vector : Ty → Ty
  flat_map : Ty → Ty
  pair : Ty → Ty → Ty
  pointer : Ty → Ty

-- boost::variant<std::string, bool, byte, int16, uint16, int32, uint32, int64, uint64, double>
pub data Variant : Type 0 where
  of_string : Bytes → Variant
  of_bool : Bool → Variant
  of_number : Fixed → ℕ → Variant

-- A number is its bit pattern in memory: two's complement for the signed types, IEEE 754 for
-- `double`. A pointer is the value that it points to.
abbrev pub Value : Ty → Type 0
Value bool = Bool
Value (fixed f) = ℕ
Value (text x) = Bytes
Value dbus_variant = Variant
Value (vector t) = List (Value t)
Value (flat_map t) = FlatMap (Value t)
Value (pair k v) = Value k × Value v
Value (pointer t) = Value t

-- A value-initialised object, as `emplace_back()` makes it. The first alternative of
-- `dbus_variant` is the string.
abbrev pub default : (t : Ty) → Value t
default bool = false
default (fixed f) = 0
default (text x) = []
default dbus_variant = of_string []
default (vector t) = []
default (flat_map t) = []
default (pair k v) = (default k, default v)
default (pointer t) = default t

abbrev pub type_invalid : ℕ
type_invalid = 0

abbrev pub type_dict_entry : ℕ
type_dict_entry = b'e'

abbrev pub type_array : ℕ
type_array = b'a'

abbrev pub type_variant : ℕ
type_variant = b'v'

abbrev pub fixed_code : Fixed → ℕ
fixed_code byte = b'y'
fixed_code int16 = b'n'
fixed_code uint16 = b'q'
fixed_code int32 = b'i'
fixed_code uint32 = b'u'
fixed_code int64 = b'x'
fixed_code uint64 = b't'
fixed_code double = b'd'

abbrev pub text_code : Text → ℕ
text_code string = b's'
text_code object_path = b'o'
text_code signature = b'g'

-- `element<T>::code`. The primary template, DBUS_TYPE_INVALID, is what is left for the map, the
-- pair and the pointer.
unfoldable pub element_code : Ty → ℕ
element_code bool = b'b'
element_code (fixed f) = fixed_code f
element_code (text x) = text_code x
element_code dbus_variant = type_variant
element_code (vector t) = type_array
element_code (flat_map t) = type_invalid
element_code (pair k v) = type_invalid
element_code (pointer t) = type_invalid

unfoldable pub is_fixed_type : Ty → Bool
is_fixed_type bool = true
is_fixed_type (fixed f) = true
is_fixed_type _ = false

unfoldable pub is_string_type : Ty → Bool
is_string_type (text x) = true
is_string_type _ = false

-- Strings are containers too, which the code excludes by `is_string_type`; the two structs
-- `object_path` and `signature` have no iterator.
unfoldable pub has_const_iterator : Ty → Bool
has_const_iterator (text string) = true
has_const_iterator (vector t) = true
has_const_iterator (flat_map t) = true
has_const_iterator _ = false

-- `operator==` of `double`, on bit patterns: no NaN equals anything, and the two zeros are equal.
unfoldable pub is_nan : ℕ → Bool
is_nan b = (b / 2 ^ 52 % 2 ^ 11 == 2047) && not (b % 2 ^ 52 == 0)

unfoldable pub double_eq : ℕ → ℕ → Bool
unfolding is_nan
double_eq a b =
    not (is_nan a) && (not (is_nan b) && ((a == b) || ((a % 2 ^ 63 == 0) && (b % 2 ^ 63 == 0))))

abbrev pub same_fixed : Fixed → Fixed → Bool
same_fixed f g = fixed_code f == fixed_code g

abbrev pub bool_eq : Bool → Bool → Bool
bool_eq true b = b
bool_eq false b = not b

abbrev pub number_eq : Fixed → ℕ → ℕ → Bool
number_eq double a b = double_eq a b
number_eq _ a b = a == b

-- `operator==` of `boost::variant`: the same alternative, and equal values.
unfoldable pub variant_eq : Variant → Variant → Bool
unfolding double_eq
variant_eq (of_string s) (of_string t) = bytes_eq s t
variant_eq (of_bool a) (of_bool b) = bool_eq a b
variant_eq (of_number f a) (of_number g b) = same_fixed f g && number_eq f a b
variant_eq _ _ = false
