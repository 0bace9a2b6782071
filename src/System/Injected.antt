-- ===== src/System/Injected.antt =====
-- include/dbus/impl/connection.ipp: the filters and the sends of a connection inject one dispatch handler.
use boost_dbus.Common.{
  ℕ, zero, suc, arith, ◌≡◌, refl, ◌⊎◌, inl, inr, Bool, List, [], ◌∷◌, Option, ◌==◌, if◌then◌else◌,
  Bool-cases,
}
use boost_dbus.Connection.{Connection, start, dispatch_handler}
use boost_dbus.Filter.{Filter, async_dispatch}
use boost_dbus.AsyncSend.{Sender, async_send, async_send_op}
use boost_dbus.System.{
  Link, World, Event, waits, sends, arrives, runs, dispatch_at, begun, dispatch, run_posted, happen,
  happen_all, connected,
}

module _ {M H : Type 0} where
  pub dispatch_at-connection :
      (a : ℕ) (h : H) (c : Connection) (fs : List (ℕ × Filter M H))
      → ((dispatch_at a h c fs).0 ≡ c) ⊎ ((dispatch_at a h c fs).0 ≡ start c)
  unfolding dispatch_at async_dispatch
  dispatch_at-connection a h c [] = inl refl
  dispatch_at-connection a h c ((b, f) ∷ fs) = elim (Bool-cases (b == a)) [
    | inl found ↦ inr (rw (found) refl)
    | inr other ↦ rw (other) (dispatch_at-connection a h c fs)
  ]

  pub async_send-connection :
      (c : M → Bool) (m : M) (h : H) (s : Sender M H)
      → (async_send c m h s).connection ≡ start s.connection
  unfolding async_send async_send_op
  async_send-connection c m h s = elim (Bool-cases (c m)) [
    | inl e ↦ rw (e) refl
    | inr e ↦ rw (e) refl
  ]

-- Nothing is injected into a paused connection, and one handler into one that is not.
abbrev IsCounted : Connection → Type 0
IsCounted c = c.injected ≡ (if c.is_paused then 0 else 1)

kept-IsCounted : (c c' : Connection) → (c' ≡ c) ⊎ (c' ≡ start c) → IsCounted c → IsCounted c'
unfolding start
kept-IsCounted c c' how counted = ground arith

module _ {M H : Type 0} {l : Link M} where
  pub run_posted-connection : (w : World H l) → (run_posted l w).connection ≡ w.connection
  unfolding run_posted dispatch_handler dispatch
  run_posted-connection w =
      elim w.pending as (λ p. (run_posted l (record w { pending = p })).connection ≡ w.connection) [
        | zero ↦ refl
        | suc p ↦ refl
      ]

  happen-IsCounted :
      (is_method_call : M → Bool) (e : Event M H) (w : World H l)
      → IsCounted w.connection
      → IsCounted (happen l is_method_call e w).connection
  unfolding happen begun
  happen-IsCounted c (waits a h) w i =
      kept-IsCounted w.connection _ (dispatch_at-connection a h w.connection w.filters) i
  happen-IsCounted c (sends m h) w i =
      kept-IsCounted w.connection _
        (inr (async_send-connection c m h (record w.sender { connection = w.connection }))) i
  happen-IsCounted c (arrives d) w i = i
  happen-IsCounted c runs w i = rw (run_posted-connection w) i

  happen_all-IsCounted :
      (is_method_call : M → Bool) (es : List (Event M H)) (w : World H l)
      → IsCounted w.connection
      → IsCounted (happen_all l is_method_call es w).connection
  unfolding happen_all
  happen_all-IsCounted c [] w i = i
  happen_all-IsCounted c (e ∷ es) w i =
      happen_all-IsCounted c es (happen l c e w) (happen-IsCounted c e w i)

-- Whatever filters wait for messages, whatever is sent, and however messages come in and are dispatched:
-- `start` has posted no dispatch handler while the connection is paused, and one, for all of them, once
-- it is not.
pub happen_all-injected :
    {M : Type 0} (H : Type 0) (l : Link M) (is_method_call : M → Bool) (es : List (Event M H))
    → (conn : l.Conn) (ps : List (ℕ × (M → Option Bool)))
    → let c = (happen_all l is_method_call es (connected H l conn ps)).connection in
      c.injected ≡ (if c.is_paused then 0 else 1)
unfolding connected
happen_all-injected H l c es conn ps = happen_all-IsCounted c es (connected H l conn ps) refl
