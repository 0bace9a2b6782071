-- ===== src/Error.antt =====
-- include/dbus/error.hpp: an error of libdbus, and the error codes and exceptions made of it.
--
-- A `DBusError` that is not set is `none`.
use boost_dbus.Common.{
  ℕ, ◌++◌, ◌∷◌, Bytes, Option, none, some, Bool, true, false, if◌then◌else◌, codes, ◌==◌, not,
}

pub record DbusError : Type 0 where
  pub name : Bytes
  pub message : Bytes

-- The categories of boost::system that occur, and that of this code.
pub data Category : Type 0 where
  system generic dbus : Category

pub record ErrorCode : Type 0 where
  pub value : ℕ
  pub category : Category

-- `error_category::name` and `error_category::message`.
unfoldable pub category_name : Bytes
category_name = codes "dbus.error"

unfoldable pub category_message : ℕ → Bytes
category_message value = if not (value == 0) then codes "DBus error" else codes "no error"

-- The code of a default-constructed `boost::system::error_code`.
abbrev pub no_error : ErrorCode
no_error = record { value = 0; category = system }

-- `boost::system::errc::invalid_argument` is EINVAL.
abbrev pub invalid_argument : ErrorCode
invalid_argument = record { value = 22; category = generic }

-- `if (ec)`
abbrev pub is_failure : ErrorCode → Bool
is_failure ec = not (ec.value == 0)

-- The constructor from an error of libdbus: what it takes, and what it leaves there.
unfoldable pub move_error : Option DbusError → Option DbusError × Option DbusError
move_error src = (src, none)

unfoldable pub is_set : Option DbusError → Bool
is_set none = false
is_set (some e) = true

abbrev pub to_value : Bool → ℕ
to_value true = 1
to_value false = 0

unfoldable pub error_code : Option DbusError → ErrorCode
unfolding is_set
error_code e = record { value = to_value (is_set e); category = dbus }

pub record SystemError : Type 0 where
  pub code : ErrorCode
  pub text : Bytes

-- `none` where the error is not set: then the name is a null pointer.
unfoldable pub system_error : Option DbusError → Option SystemError
unfolding error_code
system_error none = none
system_error (some e) =
    some (record { code = error_code (some e); text = e.name ++ b':' ∷ e.message })

-- What it throws, `none` where it throws nothing.
unfoldable pub throw_if_set : Option DbusError → Option SystemError
unfolding is_set system_error
throw_if_set e = if is_set e then system_error e else none
