-- ===== src/Wire/Room.antt =====
-- A writer with a budget of calls, one without, and a reader over a body.
use boost_dbus.Common.{ℕ, zero, suc, refl, Bool, true, false, Bytes, Option, none}
use boost_dbus.Wire.Arguments.{
  Datum, Body, end, value, group, ◌⊕◌, head_code, after_head, contents, datum,
}
use boost_dbus.Wire.Appending.{Writer, WriterLaws, NeverFails}
use boost_dbus.Wire.Reading.{Reader, ReaderLaws}

-- What is written, the container that is open, and how many more calls there is memory for.
pub record Page : Type 0 where
  pub written : Body
  pub open_code : ℕ
  pub open_signature : Option Bytes
  pub room : ℕ

abbrev pub blank : ℕ → Page
blank n = record { written = end; open_code = 0; open_signature = none; room = n }

abbrev pub spend : Page → ℕ → Bool × ℕ
spend p zero = (false, zero)
spend p (suc n) = (true, n)

abbrev pub page_append : Page → ℕ → Datum → Bool × Page
page_append p c d = (
  (spend p p.room).0,
  record p { written = p.written ⊕ value c d end; room = (spend p p.room).1 },
)

abbrev pub page_open : Page → ℕ → Option Bytes → Bool × Page × Page
page_open p c s = (
  (spend p p.room).0,
  record p { open_code = c; open_signature = s },
  record { written = end; open_code = 0; open_signature = none; room = (spend p p.room).1 },
)

abbrev pub page_close : Page → Page → Bool × Page
page_close p sub = (
  (spend sub sub.room).0,
  record p {
    written = p.written ⊕ group p.open_code p.open_signature sub.written end;
    room = (spend sub sub.room).1;
  },
)

-- Fails where the room is used up.
abbrev pub pages : Writer
pages = record {
  Iter = Page;
  append_basic = page_append;
  open_container = page_open;
  close_container = page_close;
}

abbrev pub pages_laws : WriterLaws pages
pages_laws = record {
  body = λ p. p.written;
  appended = λ p c d h. refl;
  opened = λ p c s h. refl;
  closed = λ p c s sub h k. refl;
}

-- The same with memory that never ends.
abbrev pub sheets : Writer
sheets = record {
  Iter = Page;
  append_basic = λ p c d. (true, (page_append p c d).1);
  open_container = λ p c s. (true, (page_open p c s).1, (page_open p c s).2);
  close_container = λ p sub. (true, (page_close p sub).1);
}

abbrev pub sheets_laws : WriterLaws sheets
sheets_laws = record {
  body = λ p. p.written;
  appended = λ p c d h. refl;
  opened = λ p c s h. refl;
  closed = λ p c s sub h k. refl;
}

abbrev pub sheets_never_fail : NeverFails sheets
sheets_never_fail = record {
  appends = λ p c d. refl;
  opens = λ p c s. refl;
  closes = λ p sub. refl;
}

abbrev more : Body → Bool
more end = false
more _ = true

abbrev pub bodies : Reader
bodies = record {
  Iter = Body;
  get_arg_type = head_code;
  get_basic = datum;
  next = λ b. (more (after_head b), after_head b);
  recurse = contents;
}

abbrev pub bodies_laws : ReaderLaws bodies
bodies_laws = record {
  rest = λ b. b;
  typed = λ b. refl;
  got = λ it c d b e. rw e;
  moved = λ b. refl;
  entered = λ it c s i b e. rw e;
}
