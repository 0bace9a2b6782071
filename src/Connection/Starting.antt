-- ===== src/Connection/Starting.antt =====
-- include/dbus/impl/connection.ipp: how often a dispatch handler is injected.
use boost_dbus.Common.{ℕ, suc, ◌+◌, ◌≤◌, ◌≡◌, refl, Bool, true, false, List, [], ◌∷◌, All, arith}
use boost_dbus.Connection.{new_connection, start, cancel, Call, starts, cancels, make, make_all}

abbrev pub IsStart : Call → Type 0
IsStart starts = Unit {0}
IsStart cancels = ⊥

abbrev pub cancellations : List Call → ℕ
cancellations [] = 0
cancellations (starts ∷ ks) = cancellations ks
cancellations (cancels ∷ ks) = suc (cancellations ks)

-- The handlers that may still be injected before the next cancel.
abbrev allowance : Bool → ℕ
allowance true = 1
allowance false = 0

make_all-bound :
    (ks : List Call) (p : Bool) (n : ℕ)
    → (make_all ks (record { is_paused = p; injected = n })).injected
      ≤ n + allowance p + cancellations ks
unfolding make_all make start cancel
make_all-bound [] p n = omega arith
make_all-bound (starts ∷ ks) true n = omega (arith, make_all-bound ks false (n + 1))
make_all-bound (starts ∷ ks) false n = omega (arith, make_all-bound ks false n)
make_all-bound (cancels ∷ ks) true n = omega (arith, make_all-bound ks true n)
make_all-bound (cancels ∷ ks) false n = omega (arith, make_all-bound ks true n)

make_all-running :
    (ks : List Call) (n : ℕ)
    → All IsStart ks
    → make_all ks (record { is_paused = false; injected = n })
      ≡ record { is_paused = false; injected = n }
unfolding make_all make start
make_all-running [] n h = refl
make_all-running (starts ∷ ks) n h = make_all-running ks n h.1
make_all-running (cancels ∷ ks) n h = absurd h.0

-- However many threads start a new connection, and in whatever order their calls come, one dispatch
-- handler is injected and the connection runs, if none of them cancels.
pub make_all-once :
    (ks : List Call)
    → All IsStart ks
    → make_all (starts ∷ ks) new_connection ≡ record { is_paused = false; injected = 1 }
unfolding make_all make start
make_all-once ks h = make_all-running ks 1 h

-- With cancels among the calls, at most one handler more is injected than there are cancels.
pub make_all-injected :
    (ks : List Call) → (make_all ks new_connection).injected ≤ cancellations ks + 1
make_all-injected ks = omega (arith, make_all-bound ks true 0)
