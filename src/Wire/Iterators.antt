-- ===== src/Wire/Iterators.antt =====
-- include/dbus/impl/message_iterator.hpp and include/dbus/impl/message_iterator.ipp: the class
-- `message_iterator` over the iterators of libdbus.
--
-- A `void` pointer is what stands there, a `Datum`, or several for an array of fixed type. A
-- `dbus_bool_t` is a number, which C++ takes for a `bool`.
use boost_dbus.Common.{
  ℕ, ◌%◌, ◌<◌, ◌≡◌, ◌≢◌, ◌∙◌, Bool, true, not, List, Bytes, Option, ◌==◌, arith,
}
use boost_dbus.Wire.Arguments.{Datum, Body, end, value, group, ◌⊕◌, head_code, after_head}
use boost_dbus.Wire.Appending.{Writer, WriterLaws, NeverFails}
use boost_dbus.Wire.Reading.{Reader, ReaderLaws}

-- libdbus: `dbus_message_iter_init_append` and the functions that follow it. A call leaves the
-- iterator behind that it answers; `open_container` the outer one and the sub-iterator.
pub record Iterators : Type 1 where
  pub Message : Type 0
  pub DBusMessageIter : Type 0
  pub iter_init_append : Message → DBusMessageIter
  pub iter_append_basic : DBusMessageIter → ℕ → Datum → ℕ × DBusMessageIter
  pub iter_open_container :
      DBusMessageIter → ℕ → Option Bytes → ℕ × DBusMessageIter × DBusMessageIter
  pub iter_close_container : DBusMessageIter → DBusMessageIter → ℕ × DBusMessageIter
  pub iter_abandon_container : DBusMessageIter → DBusMessageIter → DBusMessageIter
  pub iter_append_fixed_array : DBusMessageIter → ℕ → List Datum → ℕ × DBusMessageIter
  pub iter_init : Message → ℕ × DBusMessageIter
  pub iter_next : DBusMessageIter → ℕ × DBusMessageIter
  pub iter_has_next : DBusMessageIter → ℕ
  pub iter_get_element_count : DBusMessageIter → ℕ
  pub iter_get_arg_type : DBusMessageIter → ℕ
  pub iter_get_basic : DBusMessageIter → Datum
  pub iter_recurse : DBusMessageIter → DBusMessageIter
  pub iter_get_element_type : DBusMessageIter → ℕ
  pub iter_get_fixed_array : DBusMessageIter → List Datum

-- The conversion of an integer to `bool`, and to `char`.
abbrev pub to_bool : ℕ → Bool
to_bool n = not (n == 0)

abbrev pub to_char : ℕ → ℕ
to_char n = n % 256

module _ (api : Iterators) where
  open api use {Message, DBusMessageIter}

  unfoldable pub init_append : Message → DBusMessageIter
  init_append m = api.iter_init_append m

  unfoldable pub append_basic : DBusMessageIter → (code : ℕ) → Datum → Bool × DBusMessageIter
  append_basic i code x = let (ok, i') = api.iter_append_basic i code x in (to_bool ok, i')

  unfoldable pub open_container :
      DBusMessageIter
      → (code : ℕ) → (signature : Option Bytes) → Bool × DBusMessageIter × DBusMessageIter
  open_container i code signature =
      let (ok, i', sub) = api.iter_open_container i code signature in (to_bool ok, i', sub)

  unfoldable pub close_container : (i sub : DBusMessageIter) → Bool × DBusMessageIter
  close_container i sub = let (ok, i') = api.iter_close_container i sub in (to_bool ok, i')

  unfoldable pub abandon_container : (i sub : DBusMessageIter) → DBusMessageIter
  abandon_container i sub = api.iter_abandon_container i sub

  unfoldable pub append_fixed_array :
      DBusMessageIter → (code : ℕ) → List Datum → Bool × DBusMessageIter
  append_fixed_array i code xs =
      let (ok, i') = api.iter_append_fixed_array i code xs in (to_bool ok, i')

  unfoldable pub init : Message → Bool × DBusMessageIter
  init m = let (some_left, i) = api.iter_init m in (to_bool some_left, i)

  unfoldable pub next : DBusMessageIter → Bool × DBusMessageIter
  next i = let (some_left, i') = api.iter_next i in (to_bool some_left, i')

  unfoldable pub has_next : DBusMessageIter → Bool
  has_next i = to_bool (api.iter_has_next i)

  unfoldable pub get_element_count : DBusMessageIter → ℕ
  get_element_count i = api.iter_get_element_count i

  unfoldable pub get_arg_type : DBusMessageIter → ℕ
  get_arg_type i = to_char (api.iter_get_arg_type i)

  unfoldable pub get_basic : DBusMessageIter → Datum
  get_basic i = api.iter_get_basic i

  unfoldable pub recurse : DBusMessageIter → DBusMessageIter
  recurse i = api.iter_recurse i

  unfoldable pub get_element_type : DBusMessageIter → ℕ
  get_element_type i = api.iter_get_element_type i

  unfoldable pub get_fixed_array : DBusMessageIter → List Datum
  get_fixed_array i = api.iter_get_fixed_array i

  -- What the packer and the unpacker have for their iterators.
  abbrev pub writer : Writer
  writer = record {
    Iter = DBusMessageIter;
    append_basic = append_basic;
    open_container = open_container;
    close_container = close_container;
  }

  abbrev pub reader : Reader
  reader = record {
    Iter = DBusMessageIter;
    get_arg_type = get_arg_type;
    get_basic = get_basic;
    next = next;
    recurse = recurse;
  }

-- What the documentation of libdbus says. `body` is what has been appended through an iterator, `rest`
-- what one has still to read. With memory enough no call answers FALSE, which is zero. Type codes are
-- characters of ASCII.
pub record IteratorsLaws (api : Iterators) : Type 0 where
  pub body : api.DBusMessageIter → Body
  pub rest : api.DBusMessageIter → Body
  pub appended :
      (i : api.DBusMessageIter) (c : ℕ) (d : Datum)
      → ((api.iter_append_basic i c d).0 ≢ 0)
        × (body (api.iter_append_basic i c d).1 ≡ body i ⊕ value c d end)
  pub opened :
      (i : api.DBusMessageIter) (c : ℕ) (s : Option Bytes)
      → ((api.iter_open_container i c s).0 ≢ 0) × (body (api.iter_open_container i c s).2 ≡ end)
  pub closes : (i sub : api.DBusMessageIter) → (api.iter_close_container i sub).0 ≢ 0
  pub closed :
      (i : api.DBusMessageIter) (c : ℕ) (s : Option Bytes) (sub : api.DBusMessageIter)
      → body (api.iter_close_container (api.iter_open_container i c s).1 sub).1
        ≡ body i ⊕ group c s (body sub) end
  pub typed : (i : api.DBusMessageIter) → api.iter_get_arg_type i ≡ head_code (rest i)
  pub ascii : (i : api.DBusMessageIter) → api.iter_get_arg_type i < 128
  pub got :
      (i : api.DBusMessageIter) (c : ℕ) (d : Datum) (b : Body)
      → rest i ≡ value c d b
      → api.iter_get_basic i ≡ d
  pub moved : (i : api.DBusMessageIter) → rest (api.iter_next i).1 ≡ after_head (rest i)
  pub entered :
      (i : api.DBusMessageIter) (c : ℕ) (s : Option Bytes) (inner b : Body)
      → rest i ≡ group c s inner b
      → rest (api.iter_recurse i) ≡ inner

to_bool-true : (n : ℕ) → n ≢ 0 → to_bool n ≡ true
to_bool-true n h = ground arith

pub to_char-same : (n : ℕ) → n < 128 → to_char n ≡ n
to_char-same n h = omega (arith, h)

module _ {api : Iterators} (laws : IteratorsLaws api) where
  -- The iterators keep what libdbus promises.
  unfoldable pub writer_laws : WriterLaws (writer api)
  unfolding append_basic open_container close_container
  writer_laws = record {
    body = laws.body;
    appended = λ i c d h. (laws.appended i c d).1;
    opened = λ i c s h. (laws.opened i c s).1;
    closed = λ i c s sub h k. laws.closed i c s sub;
  }

  pub writer-NeverFails : NeverFails (writer api)
  unfolding append_basic open_container close_container
  writer-NeverFails = record {
    appends = λ i c d. to_bool-true (api.iter_append_basic i c d).0 (laws.appended i c d).0;
    opens = λ i c s. to_bool-true (api.iter_open_container i c s).0 (laws.opened i c s).0;
    closes = λ i sub. to_bool-true (api.iter_close_container i sub).0 (laws.closes i sub);
  }

  unfoldable pub reader_laws : ReaderLaws (reader api)
  unfolding get_arg_type get_basic next recurse
  reader_laws = record {
    rest = laws.rest;
    typed = λ i. to_char-same (api.iter_get_arg_type i) (laws.ascii i) ∙ laws.typed i;
    got = laws.got;
    moved = laws.moved;
    entered = laws.entered;
  }
