-- ===== src/Examples/Connections.antt =====
-- Connections that open, or do not.
use boost_dbus.Common.{
  Among, ℕ, ◌≡◌, ◌⊎◌, refl, inl, inr, [], ◌∷◌, ◌++◌, Bytes, Option, none, some, codes,
}
use boost_dbus.Error.{DbusError, throw_if_set, is_set}
use boost_dbus.Client.Blocking.{exception_of}
use boost_dbus.Connection.Opening.{
  Opener, closes, unrefs, at_address, at_bus, open_target, open_bus, set_up, connect, destroy,
}
use boost_dbus.Connection.Lifetime.{new_session, start_session, end_session, end_session-dangles}
use boost_dbus.Connection.Opening.Released.{OpenerLaws, answers, set_up_log, connect-released}

abbrev bad_address : DbusError
bad_address = record {
  name = codes "org.freedesktop.DBus.Error.BadAddress";
  message = codes "empty";
}

abbrev no_reply : DbusError
no_reply = record { name = codes "org.freedesktop.DBus.Error.NoReply"; message = codes "gone" }

-- No address is empty; nobody is registered.
abbrev open_at : Bytes → Option ℕ × Option DbusError
open_at [] = (none, some bad_address)
open_at (b ∷ bs) = (some 7, none)

abbrev deaf : Opener
deaf = record {
  Handle = ℕ;
  bus_get_private = λ bus. (some 7, none);
  open_private = open_at;
  register = λ h. some no_reply;
  request_name = λ h n. none;
  get_unique_name = λ h. none;
}

open_at-cases :
    (address : Bytes)
    → ((h : ℕ) × (open_at address ≡ (some h, none)))
      ⊎ ((e : DbusError) × (open_at address ≡ (none, some e)))
open_at-cases [] = inr (bad_address, refl)
open_at-cases (b ∷ bs) = inl (7, refl)

abbrev deaf_laws : OpenerLaws deaf
deaf_laws = record { gets = λ bus. inl (7, refl); opens = open_at-cases }

connect-released_example :
    let (thrown, i) = connect deaf (at_address (codes "unix:path=/bus")) in
    ((e : DbusError) × (answers deaf (at_address (codes "unix:path=/bus")) ≡ (none, some e))
      × (thrown ≡ some (exception_of e))
      × (i.log ≡ []))
    ⊎ ((h : ℕ) × (e : DbusError) × (answers deaf (at_address (codes "unix:path=/bus"))
          ≡ (some h, none))
        × (some no_reply ≡ some e)
        × (thrown ≡ some (exception_of e))
        × (i.log ≡ closes h ∷ unrefs h ∷ []))
    ⊎ ((h : ℕ) × (answers deaf (at_address (codes "unix:path=/bus")) ≡ (some h, none))
        × (thrown ≡ none)
        × ((destroy deaf i).log ≡ set_up_log deaf h ++ closes h ∷ unrefs h ∷ []))
connect-released_example = connect-released deaf_laws (at_address (codes "unix:path=/bus"))

-- The bus is there.
connect-at_bus : (connect deaf (at_bus 1)).0 ≡ none
unfolding connect open_target open_bus set_up throw_if_set is_set
connect-at_bus = refl

end_session-dangles_example :
    let s = end_session deaf (start_session deaf (new_session deaf (connect deaf (at_bus 1)).1)) in
    (s.posted ≡ some 7 ∷ []) × Among (unrefs 7) s.impl.log
end_session-dangles_example = end_session-dangles deaf (at_bus 1) 7 refl connect-at_bus
