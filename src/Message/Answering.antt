-- ===== src/Message/Answering.antt =====
-- include/dbus/message.hpp: unpacking the arguments of a call from any message.
use boost_dbus.Common.{
  ℕ, ◌<◌, ◌≡◌, refl, Bool, true, false, List, [], ◌∷◌, some, arith, Bool-cases, inl, inr,
}
use mathlib.Core.Path.{subst}
use boost_dbus.Element.{Ty}
use boost_dbus.Wire.{size, after_head, Reader, ReaderLaws}
use boost_dbus.Message.Packer.{Values}
use boost_dbus.Message.Unpacker.{AllUnpackable, unpack_args}
use boost_dbus.Message.Total.{
  IsProper, Moved, unpack-Answers, after_head-IsProper, after_head-size_le,
}

module _ {r : Reader} (rl : ReaderLaws r) where
  open r use {Iter}
  open rl use {rest}

  -- On every message whose arrays and dictionary entries are containers, with fuel for the loops above
  -- the number of D-Bus values that are left, unpacking several arguments answers.
  pub unpack_args-Answers :
      (fuel : ℕ) (ts : List Ty) (us : AllUnpackable ts) (old : Values ts) (it : Iter)
      → IsProper (rest it)
      → size (rest it) < fuel
      → (ok : Bool) × (vs : Values ts) × (it' : Iter) × (unpack_args r fuel ts us old it
          ≡ some (ok, vs, it'))
  unfolding unpack_args
  unpack_args-Answers fuel [] us old it p fits = (true, old, it, refl)
  unpack_args-Answers fuel (t ∷ ts) us old it p fits =
      let (ok, v, it', e, moved) = unpack-Answers rl fuel t us.0 old.0 it p fits in
      elim (Bool-cases ok) [
        | inr wrong ↦ (false, (v, old.1), it', rw (e, unpack_args) (rw (wrong) refl))
        | inl right ↦
            let passed : rest it' ≡ after_head (rest it) =
              subst (λ b. Moved rl b it it') right moved in
            let (ok', vs, it'', f) =
              unpack_args-Answers fuel ts us.1 old.1 it'
                (rw (passed) (after_head-IsProper rl (rest it) p))
                (rw (passed) (omega (arith, after_head-size_le rl (rest it), fits))) in
            (ok', (v, vs), it'', rw (e, unpack_args) (rw (right, f) refl))
      ]
