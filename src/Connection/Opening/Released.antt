-- ===== src/Connection/Opening/Released.antt =====
-- include/dbus/impl/connection.ipp: what a connection leaves behind.
use boost_dbus.Common.{
  Option-cases, ℕ, ◌≡◌, ◌⊎◌, refl, List, Option, inl, inr, false, [], ◌∷◌, ◌++◌, Bytes, none, some,
  c_str,
}
use boost_dbus.Error.{DbusError}
use boost_dbus.Client.Blocking.{exception_of, throw_if_set-none, throw_if_set-some}
use boost_dbus.Connection.Opening.{
  Opener, exits_on_disconnect, sets_watch_functions, sets_timeout_functions,
  sets_dispatch_status_function, set_watch_timeout_dispatch_functions, Target, at_address, at_bus,
  Action, open_bus, open_target, connect, closes, unrefs, set_up, open_address, destroy,
}

-- libdbus sets an error exactly where it answers a null pointer.
pub record OpenerLaws (op : Opener) : Type 0 where
  pub gets :
      (bus : ℕ)
      → ((h : op.Handle) × (op.bus_get_private bus ≡ (some h, none)))
        ⊎ ((e : DbusError) × (op.bus_get_private bus ≡ (none, some e)))
  pub opens :
      (address : Bytes)
      → ((h : op.Handle) × (op.open_private address ≡ (some h, none)))
        ⊎ ((e : DbusError) × (op.open_private address ≡ (none, some e)))

module _ (op : Opener) where
  abbrev pub set_up_log : op.Handle → List (Action op)
  set_up_log h =
      exits_on_disconnect false (some h)
      ∷ sets_watch_functions (some h)
      ∷ sets_timeout_functions (some h)
      ∷ sets_dispatch_status_function (some h)
      ∷ []

  -- What libdbus answers first.
  abbrev pub answers : Target → Option op.Handle × Option DbusError
  answers (at_address a) = op.open_private (c_str a)
  answers (at_bus b) = op.bus_get_private b

module _ {op : Opener} (laws : OpenerLaws op) where
  -- A connection that is constructed, at an address or for a well-known bus, goes one of three ways.
  -- libdbus opens nothing: its error is thrown, and nothing is told to libdbus. A connection at an
  -- address cannot be registered: that error is thrown, and the connection is closed and given back,
  -- once. Or nothing is thrown: the connection does not exit on a disconnect, its watches, timeouts
  -- and dispatch are set up, and when it is destroyed it is closed and given back, once.
  pub connect-released :
      (t : Target)
      → let (thrown, i) = connect op t in
        ((e : DbusError) × (answers op t ≡ (none, some e))
          × (thrown ≡ some (exception_of e))
          × (i.log ≡ []))
        ⊎ ((h : op.Handle) × (e : DbusError) × (answers op t ≡ (some h, none))
            × (op.register (some h) ≡ some e)
            × (thrown ≡ some (exception_of e))
            × (i.log ≡ closes h ∷ unrefs h ∷ []))
        ⊎ ((h : op.Handle) × (answers op t ≡ (some h, none))
            × (thrown ≡ none)
            × ((destroy op i).log ≡ set_up_log op h ++ closes h ∷ unrefs h ∷ []))
  unfolding connect open_target open_address open_bus set_up set_watch_timeout_dispatch_functions
      destroy
  connect-released (at_bus b) = elim (laws.gets b) [
    | inr (e, failed) ↦
        inl
          (e, failed, rw (failed, throw_if_set-some e) refl, rw (failed, throw_if_set-some e) refl)
    | inl (h, opened) ↦
        inr (
          inr (h, opened, rw (opened, throw_if_set-none) refl, rw (opened, throw_if_set-none) refl))
  ]
  connect-released (at_address a) = elim (laws.opens (c_str a)) [
    | inr (e, failed) ↦
        inl
          (e, failed, rw (failed, throw_if_set-some e) refl, rw (failed, throw_if_set-some e) refl)
    | inl (h, opened) ↦ elim (Option-cases (op.register (some h))) [
      | inr (e, refused) ↦ inr (
          inl (
            h,
            e,
            opened,
            refused,
            rw (opened, throw_if_set-none, refused, throw_if_set-some e) refl,
            rw (opened, throw_if_set-none, refused, throw_if_set-some e) refl,
          ))
      | inl registered ↦ inr (
          inr (
            h,
            opened,
            rw (opened, throw_if_set-none, registered, throw_if_set-none) refl,
            rw (opened, throw_if_set-none, registered, throw_if_set-none) refl,
          ))
    ]
  ]
