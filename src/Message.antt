-- ===== src/Message.antt =====
-- include/dbus/message.hpp: packing C++ values into a message and unpacking them.
pub mod Headers
pub mod Packer
pub mod Encoding
pub mod Conforms
pub mod Packing
pub mod Success
pub mod Unpacker
pub mod Received
pub mod Unpacking
pub mod RoundTrip
pub mod Total
pub mod Answering
pub mod Tuples
pub mod Clean
pub mod EndToEnd
pub mod Iterated
