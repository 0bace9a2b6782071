-- ===== src/Element.antt =====
-- include/dbus/element.hpp: the C++ types that a message can hold, their D-Bus type codes
-- (`element<T>::code`), and their signatures (`element_signature<T>::code`).
--
-- `Ty` names the C++ types for which the library has an `element` or an `element_signature`. The
-- numbers are the constants DBUS_TYPE_* of the D-Bus specification, ASCII letters.
mod Types
mod Signature
mod SignatureLaws
pub mod Shapes
unfoldable pub use Types.*
unfoldable pub use Signature.*
unfoldable pub use SignatureLaws.{type_string}
pub use SignatureLaws.{element_signature-type_string, c_str-element_signature, type_string-HasNoNul}
