-- ===== src/Match.antt =====
-- include/dbus/match.hpp and include/dbus/impl/match.ipp: a match rule lives as long as its object.
use boost_dbus.Common.{◌≡◌, ap, ◌∙◌, List, ◌∷◌, Bytes, Option, none, some, c_str}
use boost_dbus.Error.{DbusError, SystemError, throw_if_set}
use boost_dbus.Client.Blocking.{throw_if_set-none, throw_if_set-some}

-- libdbus: adding and removing a rule of a connection, with the error that is set.
pub record Rules : Type 1 where
  pub Conn : Type 0
  pub bus_add_match : Conn → Bytes → Option DbusError × Conn
  pub bus_remove_match : Conn → Bytes → Option DbusError × Conn

-- A destructor that throws ends the program.
pub data Destroyed (C : Type 0) : Type 0 where
  done : C → Destroyed C
  terminated : Destroyed C

abbrev pub done_unless : {C : Type 0} → Option SystemError → C → Destroyed C
done_unless none c = done c
done_unless (some x) c = terminated

module _ (rs : Rules) where
  -- What is thrown, and the connection.
  unfoldable pub new_match : Bytes → rs.Conn → Option SystemError × rs.Conn
  new_match expression c =
      let (e, c') = rs.bus_add_match c (c_str expression) in (throw_if_set e, c')

  unfoldable pub delete_match : Bytes → rs.Conn → Option SystemError × rs.Conn
  delete_match expression c =
      let (e, c') = rs.bus_remove_match c (c_str expression) in (throw_if_set e, c')

  -- `~match`
  unfoldable pub destroy_match : Bytes → rs.Conn → Destroyed rs.Conn
  unfolding delete_match
  destroy_match expression c = let (thrown, c') = delete_match expression c in done_unless thrown c'

-- Adding appends a rule, and removing a rule takes it away once, where it is there.
pub record RulesLaws (rs : Rules) : Type 0 where
  pub rules : rs.Conn → List Bytes
  pub adds :
      (c : rs.Conn) (r : Bytes)
      → (rs.bus_add_match c r).0 ≡ none
      → rules (rs.bus_add_match c r).1 ≡ r ∷ rules c
  pub removes :
      (c : rs.Conn) (r : Bytes) (others : List Bytes)
      → rules c ≡ r ∷ others
      → ((rs.bus_remove_match c r).0 ≡ none) × (rules (rs.bus_remove_match c r).1 ≡ others)

module _ {rs : Rules} (laws : RulesLaws rs) where
  -- Where libdbus takes the rule, the constructor throws nothing; the destructor, right after it, does
  -- not end the program, and leaves the rules as they were.
  pub destroy_match-new_match :
      (expression : Bytes) (c : rs.Conn)
      → (rs.bus_add_match c (c_str expression)).0 ≡ none
      → let (thrown, c') = new_match rs expression c in
        (thrown ≡ none)
        × ((c'' : rs.Conn) × (destroy_match rs expression c' ≡ done c'')
            × (laws.rules c'' ≡ laws.rules c))
  unfolding new_match destroy_match delete_match
  destroy_match-new_match expression c taken =
      let c' = (rs.bus_add_match c (c_str expression)).1 in
      let (removed, restored) =
        laws.removes c' (c_str expression) (laws.rules c) (laws.adds c (c_str expression) taken) in
      (
        ap throw_if_set taken ∙ throw_if_set-none,
        (
          (rs.bus_remove_match c' (c_str expression)).1,
          ap (λ e. done_unless (throw_if_set e) (rs.bus_remove_match c' (c_str expression)).1)
                removed
              ∙ ap (λ x. done_unless x (rs.bus_remove_match c' (c_str expression)).1)
                  throw_if_set-none,
          restored,
        ),
      )

  -- Where libdbus sets an error as the rule is removed, the destructor ends the program.
  pub destroy_match-terminated :
      (expression : Bytes) (c : rs.Conn) (e : DbusError)
      → (rs.bus_remove_match c (c_str expression)).0 ≡ some e
      → destroy_match rs expression c ≡ terminated
  unfolding destroy_match delete_match
  destroy_match-terminated expression c e failed =
      let c' = (rs.bus_remove_match c (c_str expression)).1 in
      ap (λ x. done_unless (throw_if_set x) c') failed
      ∙ ap (λ x. done_unless x c') (throw_if_set-some e)
