-- ===== src/Properties/Serving/Served.antt =====
-- include/dbus/properties.hpp: which messages the handlers of the server have been called with, and that
-- all are in the end.
use boost_dbus.Common.{
  ℕ, zero, suc, ◌+◌, ◌≤◌, ◌≡◌, refl, sym, ap, ◌∙◌, inl, inr, List, [], ◌∷◌, ◌++◌, if◌then◌else◌,
  arith, length, length-append, append-nil, append_assoc, Bool-cases,
}
use mathlib.Core.Path.{subst}
use boost_dbus.Connection.{Connection}
use boost_dbus.Queue.{async_pop}
use boost_dbus.Filter.{async_dispatch}
use boost_dbus.Properties.Server.{Header}
use boost_dbus.Properties.Serving.Routes.{set_loop-cases, arrive-loop, is_for, arrived_for}
use boost_dbus.Properties.Serving.Loops.{
  loop_with, receive, push-loop_with, serve-nil, serve-cons, serve-others,
}
use boost_dbus.Properties.Serving.{
  Service, introspect, object_manager, method, Serving, loop, arm, new_server, arrive, serve, Event,
  arrives, serves, happens, happens_all,
}

module _ {M : Type 0} where
  abbrev pub serves_times : ℕ → Service → List (Event M)
  serves_times zero k = []
  serves_times (suc n) k = serves k ∷ serves_times n k

module _ {M : Type 0} (header : M → Header) where
  -- The service has been sent `ms`, in order: its handler has been called with the first of them, and
  -- its loop holds the others.
  abbrev pub HasTaken : Service → List M → Serving M → Type 0
  HasTaken k ms s =
      (done : List M) × (pending : List M) × (loop k s ≡ loop_with k done pending)
      × (done ++ pending ≡ ms)

  arrives-HasTaken :
      (k : Service) (m : M) (ms : List M) (s : Serving M)
      → HasTaken k ms s
      → HasTaken k (if is_for header k m then ms ++ m ∷ [] else ms) (arrive header m s).1
  arrives-HasTaken k m ms s (done, pending, h, same) = elim (Bool-cases (is_for header k m)) [
    | inl mine ↦ rw (mine) (
      done,
      pending ++ m ∷ [],
      arrive-loop header k m s ∙ rw (mine) (ap (receive m) h ∙ push-loop_with k m done pending),
      sym (append_assoc done pending (m ∷ [])) ∙ ap (λ l. l ++ m ∷ []) same,
    )
    | inr other ↦ rw (other) (done, pending, arrive-loop header k m s ∙ rw (other) h, same)
  ]

  serve-HasTaken :
      (j k : Service) (ms : List M) (s : Serving M)
      → HasTaken k ms s
      → HasTaken k ms (serve header j s)
  serve-HasTaken j k ms s (done, [], h, same) = elim (set_loop-cases {M = M} j k) [
    | inl (mine, found) ↦ (
      done,
      [],
      subst (λ i. loop k (serve header i s) ≡ loop_with k done []) (sym mine)
          (ap (loop k) (serve-nil header k done s h) ∙ h),
      same,
    )
    | inr (other, leaves) ↦ (done, [], serve-others header j k s other ∙ h, same)
  ]
  serve-HasTaken j k ms s (done, m ∷ rest, h, same) = elim (set_loop-cases {M = M} j k) [
    | inl (mine, found) ↦ (
      done ++ m ∷ [],
      rest,
      subst (λ i. loop k (serve header i s) ≡ loop_with k (done ++ m ∷ []) rest) (sym mine)
          (serve-cons header k done m rest s h),
      append_assoc done (m ∷ []) rest ∙ same,
    )
    | inr (other, leaves) ↦ (done, m ∷ rest, serve-others header j k s other ∙ h, same)
  ]

  happens_all-HasTaken :
      (k : Service) (es : List (Event M)) (ms : List M) (s : Serving M)
      → HasTaken k ms s
      → HasTaken k (ms ++ arrived_for header k es) (happens_all header es s)
  unfolding happens_all happens
  happens_all-HasTaken k [] ms s t = rw (append-nil ms) t
  happens_all-HasTaken k (serves j ∷ es) ms s t =
      happens_all-HasTaken k es ms (serve header j s) (serve-HasTaken j k ms s t)
  happens_all-HasTaken k (arrives m ∷ es) ms s t =
      let t' = arrives-HasTaken k m ms s t in
      elim (Bool-cases (is_for header k m)) [
        | inl mine ↦
            subst (λ l. HasTaken k l (happens_all header es (arrive header m s).1))
              (append_assoc ms (m ∷ []) (arrived_for header k es) ∙ rw (mine) refl)
              (happens_all-HasTaken k es (ms ++ m ∷ []) (arrive header m s).1 (rw (mine) at t'))
        | inr other ↦
            rw (other) (happens_all-HasTaken k es ms (arrive header m s).1 (rw (other) at t'))
      ]

  new_server-HasTaken : (k : Service) (c : Connection) → HasTaken k [] (new_server header c)
  unfolding new_server arm async_dispatch async_pop
  new_server-HasTaken introspect c = ([], [], refl, refl)
  new_server-HasTaken object_manager c = ([], [], refl, refl)
  new_server-HasTaken method c = ([], [], refl, refl)

  -- After any arrivals and runs of closures on a new server, for each of its three services: the
  -- messages that its handler has been called with, then those that its filter holds, are the messages
  -- for it that arrived, in order; and where the filter holds none, the handler waits, and otherwise one
  -- closure is posted, with the first of them.
  pub happens_all-serves :
      (k : Service) (c : Connection) (es : List (Event M))
      → (done : List M) × (pending : List M) × (loop k (happens_all header es (new_server header c))
          ≡ loop_with k done pending)
        × (done ++ pending ≡ arrived_for header k es)
  happens_all-serves k c es =
      happens_all-HasTaken k es [] (new_server header c) (new_server-HasTaken k c)

  serves_times-loop :
      (k : Service) (n : ℕ) (done pending : List M) (s : Serving M)
      → loop k s ≡ loop_with k done pending
      → length pending ≤ n
      → loop k (happens_all header (serves_times n k) s) ≡ loop_with k (done ++ pending) []
  unfolding happens_all happens
  serves_times-loop k zero done [] s h enough =
      h ∙ ap (λ l. loop_with k l []) (sym (append-nil done))
  serves_times-loop k zero done (m ∷ ms) s h enough = absurd (omega arith)
  serves_times-loop k (suc n) done [] s h enough =
      serves_times-loop k n done [] (serve header k s)
        (ap (loop k) (serve-nil header k done s h) ∙ h) (omega arith)
  serves_times-loop k (suc n) done (m ∷ ms) s h enough =
      serves_times-loop k n (done ++ m ∷ []) ms (serve header k s)
        (serve-cons header k done m ms s h) (omega arith)
      ∙ ap (λ l. loop_with k l []) (append_assoc done (m ∷ []) ms)

  happens_all-append :
      (es fs : List (Event M)) (s : Serving M)
      → happens_all header (es ++ fs) s ≡ happens_all header fs (happens_all header es s)
  unfolding happens_all
  happens_all-append [] fs s = refl
  happens_all-append (e ∷ es) fs s = happens_all-append es fs (happens header e s)

  -- After any arrivals and runs of closures on a new server, and then as many runs of a service's
  -- closures as messages for it arrived, or more: its handler has been called with each of these, in
  -- order, and waits for the next.
  pub happens_all-finishes :
      (k : Service) (c : Connection) (es : List (Event M)) (n : ℕ)
      → length (arrived_for header k es) ≤ n
      → loop k (happens_all header (es ++ serves_times n k) (new_server header c))
        ≡ loop_with k (arrived_for header k es) []
  happens_all-finishes k c es n enough =
      let (done, pending, h, same) = happens_all-serves k c es in
      let few : length done + length pending ≡ length (arrived_for header k es) =
        sym (length-append done pending) ∙ ap length same in
      ap (loop k) (happens_all-append es (serves_times n k) (new_server header c))
      ∙ serves_times-loop k n done pending (happens_all header es (new_server header c)) h
          (omega arith)
      ∙ ap (λ l. loop_with k l []) same
