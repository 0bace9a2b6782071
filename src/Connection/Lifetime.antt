-- ===== src/Connection/Lifetime.antt =====
-- include/dbus/impl/connection.ipp with include/dbus/detail/watch_timeout.hpp: a dispatch handler that is
-- posted keeps the plain pointer to libdbus's connection.
use boost_dbus.Common.{
  ℕ, zero, suc, ◌-◌, ◌≡◌, refl, sym, ap, ◌∙◌, List, [], ◌∷◌, ◌++◌, Option, none, some, append_assoc,
  Among, Option-cases, inl, inr,
}
use boost_dbus.Client.Blocking.{throw_if_set-none, throw_if_set-some}
use boost_dbus.Connection.{Connection, new_connection, start}
use boost_dbus.Connection.Opening.{
  Opener, closes, unrefs, Impl, Target, at_address, at_bus, open_bus, open_address, open_target,
  set_up, destroy, connect,
}
use boost_dbus.Connection.Opening.Released.{answers}

module _ (op : Opener) where
  -- An `impl::connection`, and the `conn` of each dispatch handler that the io_service has to run.
  pub record Session : Type 0 where
    pub impl : Impl op
    pub connection : Connection
    pub posted : List (Option op.Handle)

  abbrev pub new_session : Impl op → Session
  new_session i = record { impl = i; connection = new_connection; posted = [] }

  abbrev pub copies : ℕ → Option op.Handle → List (Option op.Handle)
  copies zero conn = []
  copies (suc n) conn = conn ∷ copies n conn

  -- `start` posts the handlers that it injects.
  unfoldable pub start_session : Session → Session
  unfolding start
  start_session s =
      let c = start s.connection in
      record s {
        connection = c;
        posted = s.posted ++ copies (c.injected - s.connection.injected) s.impl.conn;
      }

  -- The destructor does not touch the io_service.
  unfoldable pub end_session : Session → Session
  unfolding destroy
  end_session s = record s { impl = destroy op s.impl }

  connect-conn :
      (t : Target) (h : op.Handle)
      → answers op t ≡ (some h, none)
      → (connect op t).0 ≡ none
      → (connect op t).1.conn ≡ some h
  unfolding connect open_target open_address open_bus set_up destroy
  connect-conn (at_bus b) h opened e = rw (opened, throw_if_set-none) refl
  connect-conn (at_address a) h opened e = elim (Option-cases (op.register (some h))) [
    | inl registered ↦ rw (opened, throw_if_set-none, registered, throw_if_set-none) refl
    | inr (x, refused) ↦ rw (opened, throw_if_set-none, refused, throw_if_set-some x) refl
  ]

  destroy-conn :
      (i : Impl op) (h : op.Handle)
      → i.conn ≡ some h
      → (destroy op i).log ≡ i.log ++ closes h ∷ unrefs h ∷ []
  unfolding destroy
  destroy-conn i h e = rw (e, destroy) refl

  -- A connection that is opened, then started, and destroyed before its dispatch handler has run: the
  -- io_service has still to run a handler with the pointer to libdbus's connection, which the
  -- destructor has given back.
  pub end_session-dangles :
      (t : Target) (h : op.Handle)
      → answers op t ≡ (some h, none)
      → (connect op t).0 ≡ none
      → let s = end_session (start_session (new_session (connect op t).1)) in
        (s.posted ≡ some h ∷ []) × Among (unrefs h) s.impl.log
  unfolding end_session start_session start
  end_session-dangles t h opened e =
      let conn = connect-conn t h opened e in
      let i = (connect op t).1 in
      (
        ap (λ c. c ∷ []) conn,
        (
          i.log ++ closes h ∷ [],
          [],
          destroy-conn i h conn ∙ sym (append_assoc i.log (closes h ∷ []) (unrefs h ∷ [])),
        ),
      )
