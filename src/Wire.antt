-- ===== src/Wire.antt =====
-- The message iterators of libdbus. libdbus is not part of the repository: its iterators are the records
-- `Writer` and `Reader`, and what its documentation says of them is `WriterLaws` and `ReaderLaws`.
-- Iterators has the class that include/dbus/impl/message_iterator.{hpp,ipp} wraps around them. Room
-- holds one writer and one reader that meet the laws, for concrete runs.
mod Arguments
mod Appending
mod Reading
pub mod Iterators
pub mod Room
unfoldable pub use Arguments.*
pub use Appending.*
pub use Reading.*
