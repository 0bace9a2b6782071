-- ===== src/Wire/Appending.antt =====
-- Appending iterators.
use boost_dbus.Common.{ℕ, ◌≡◌, Bool, true, Bytes, Option}
use boost_dbus.Wire.Arguments.{Datum, Body, end, value, group, ◌⊕◌}

-- `init_append` gives the first iterator. Each call answers its `dbus_bool_t` and the iterator
-- as it is left; `open_container` the outer one, then the sub-iterator.
pub record Writer : Type 1 where
  pub Iter : Type 0
  pub append_basic : Iter → ℕ → Datum → Bool × Iter
  pub open_container : Iter → ℕ → Option Bytes → Bool × Iter × Iter
  pub close_container : Iter → Iter → Bool × Iter

-- `body` is what has been appended through an iterator. A call that succeeds appends its value; a
-- sub-iterator starts empty, and closing it appends the container with what it holds.
pub record WriterLaws (w : Writer) : Type 0 where
  pub body : w.Iter → Body
  pub appended :
      (it : w.Iter) (c : ℕ) (d : Datum)
      → (w.append_basic it c d).0 ≡ true
      → body (w.append_basic it c d).1 ≡ body it ⊕ value c d end
  pub opened :
      (it : w.Iter) (c : ℕ) (s : Option Bytes)
      → (w.open_container it c s).0 ≡ true
      → body (w.open_container it c s).2 ≡ end
  pub closed :
      (it : w.Iter) (c : ℕ) (s : Option Bytes) (sub : w.Iter)
      → (w.open_container it c s).0 ≡ true
      → (w.close_container (w.open_container it c s).1 sub).0 ≡ true
      → body (w.close_container (w.open_container it c s).1 sub).1
        ≡ body it ⊕ group c s (body sub) end

-- No call runs out of memory.
pub record NeverFails (w : Writer) : Type 0 where
  pub appends : (it : w.Iter) (c : ℕ) (d : Datum) → (w.append_basic it c d).0 ≡ true
  pub opens : (it : w.Iter) (c : ℕ) (s : Option Bytes) → (w.open_container it c s).0 ≡ true
  pub closes : (it sub : w.Iter) → (w.close_container it sub).0 ≡ true
