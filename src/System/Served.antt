-- ===== src/System/Served.antt =====
-- include/dbus/filter.hpp, include/dbus/detail/watch_timeout.hpp: every message that a connection receives
-- comes to the filter that it is for.
use boost_dbus.Common.{
  ℕ, ◌≤◌, ◌≡◌, refl, sym, ap, ◌∙◌, inl, Bool, false, List, [], ◌∷◌, ◌++◌, map, Option, length,
  append-nil, append_assoc,
}
use boost_dbus.Connection.{new_connection}
use boost_dbus.Filter.{Filter, new_filter}
use boost_dbus.Filter.Offered.{accepts}
use boost_dbus.Filter.Chain.{add_filter}
use boost_dbus.System.{Link, LinkLaws, Event, add_all, connected, happen_all, run_all}
use boost_dbus.System.Mailboxes.{Mailbox, mailbox, mailboxes, AllMatched}
use boost_dbus.System.Owed.{delivers, meant_all, happen_all-owed, run_all-owed}
use boost_dbus.System.Ready.{happen_all-IsReady, run_all-empties}

module _ {M H : Type 0} where
  abbrev pub empty_mailbox : ℕ × (M → Option Bool) → ℕ × Mailbox M H
  empty_mailbox (a, p) = (a, record { wants = accepts p; messages = []; handlers = [] })

  mailboxes-append :
      (fs gs : List (ℕ × Filter M H)) → mailboxes (fs ++ gs) ≡ mailboxes fs ++ mailboxes gs
  mailboxes-append [] gs = refl
  mailboxes-append (f ∷ fs) gs = ap (◌∷◌ (f.0, mailbox f.1)) (mailboxes-append fs gs)

  AllMatched-append :
      (fs gs : List (ℕ × Filter M H)) → AllMatched fs → AllMatched gs → AllMatched (fs ++ gs)
  AllMatched-append [] gs i j = j
  AllMatched-append (f ∷ fs) gs i j = (i.0, AllMatched-append fs gs i.1 j)

  mailboxes-add_all :
      (ps : List (ℕ × (M → Option Bool))) (fs : List (ℕ × Filter M H))
      → AllMatched fs
      → (mailboxes (add_all ps fs) ≡ mailboxes fs ++ map empty_mailbox ps)
        × AllMatched (add_all ps fs)
  unfolding add_all add_filter
  mailboxes-add_all [] fs i = (sym (append-nil (mailboxes fs)), i)
  mailboxes-add_all ((a, p) ∷ ps) fs i =
      let new : List (ℕ × Filter M H) = (a, new_filter new_connection p) ∷ [] in
      let (same, j) =
        mailboxes-add_all ps (fs ++ new) (AllMatched-append fs new i (inl refl, tt)) in
      (
        same
            ∙ ap (λ bs. bs ++ map empty_mailbox ps) (mailboxes-append fs new)
            ∙ append_assoc (mailboxes fs) (mailboxes new) (map empty_mailbox ps),
        j,
      )

-- A connection with filters, on which messages may wait from the first; then filters wait for messages,
-- messages are sent, come in and are dispatched, in any order. If the connection is started by then, as
-- many runs of dispatch handlers as messages wait are enough: after them no message waits, each
-- mailbox has the messages that arrived and that it is the first to want, in the order in which they
-- arrived, and the handlers that waited at its address, in theirs; and no filter has both a message
-- and a handler that wait.
pub happen_all-served :
    {M H : Type 0} {l : Link M} (laws : LinkLaws l) (is_method_call : M → Bool)
    → (es : List (Event M H)) (conn : l.Conn) (ps : List (ℕ × (M → Option Bool))) (n : ℕ)
    → (happen_all l is_method_call es (connected H l conn ps)).connection.is_paused ≡ false
    → length (laws.waiting (happen_all l is_method_call es (connected H l conn ps)).conn) ≤ n
    → let w = run_all l n (happen_all l is_method_call es (connected H l conn ps)) in
      (laws.waiting w.conn ≡ [])
      × (mailboxes w.filters ≡ meant_all es (delivers (laws.waiting conn) (map empty_mailbox ps)))
      × AllMatched w.filters
unfolding connected
happen_all-served {M} {H} {l} laws c es conn ps n started enough =
    let first = connected H l conn ps in
    let (made, i) = mailboxes-add_all ps [] tt in
    let s = happen_all l c es first in
    let (meant, j) = happen_all-owed laws c es first i in
    let (same, k) = run_all-owed laws n s j in
    let t = run_all l n s in
    let rest =
      run_all-empties laws n s started (happen_all-IsReady laws c es first (inl refl)) enough in
    (
      rest,
      sym (ap (λ ds. delivers ds (mailboxes t.filters)) rest)
          ∙ same
          ∙ meant
          ∙ ap (λ bs. meant_all es (delivers (laws.waiting conn) bs)) made,
      k,
    )
