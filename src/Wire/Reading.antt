-- ===== src/Wire/Reading.antt =====
-- Reading iterators.
use boost_dbus.Common.{ℕ, ◌≡◌, Bool, Bytes, Option}
use boost_dbus.Wire.Arguments.{Datum, Body, value, group, head_code, after_head}

pub record Reader : Type 1 where
  pub Iter : Type 0
  pub get_arg_type : Iter → ℕ
  pub get_basic : Iter → Datum
  pub next : Iter → Bool × Iter
  pub recurse : Iter → Iter

-- `rest` is what an iterator has still to read, the argument it stands at first.
pub record ReaderLaws (r : Reader) : Type 0 where
  pub rest : r.Iter → Body
  pub typed : (it : r.Iter) → r.get_arg_type it ≡ head_code (rest it)
  pub got :
      (it : r.Iter) (c : ℕ) (d : Datum) (b : Body) → rest it ≡ value c d b → r.get_basic it ≡ d
  pub moved : (it : r.Iter) → rest (r.next it).1 ≡ after_head (rest it)
  pub entered :
      (it : r.Iter) (c : ℕ) (s : Option Bytes) (i b : Body)
      → rest it ≡ group c s i b
      → rest (r.recurse it) ≡ i
