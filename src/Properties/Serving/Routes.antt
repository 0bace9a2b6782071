-- ===== src/Properties/Serving/Routes.antt =====
-- include/dbus/properties.hpp: which filter of the server gets a message, and which messages its handler
-- is called with.
use boost_dbus.Common.{
  ◌≡◌, refl, sym, ap, ◌∙◌, ◌⊎◌, inl, inr, Bool, true, false, List, [], ◌∷◌, Option, none, some,
  if◌then◌else◌, Bool-cases,
}
use mathlib.Core.Path.{subst}
use boost_dbus.Queue.{push}
use boost_dbus.Filter.{HandlerResult, handled, not_yet_handled, filter_callback}
use boost_dbus.Filter.Offered.{filter_callback-accepts}
use boost_dbus.Properties.Server.{Header, is_introspect, is_get_managed_objects, is_method_call}
use boost_dbus.Properties.Serving.{
  Service, introspect, object_manager, method, Loop, Serving, predicate_of, loop, set_loop,
  filter_of, offer_to, arrive, Event, arrives, serves,
}

-- The service that a message is for.
abbrev pub service_of : Header → Option Service
service_of h =
    if is_introspect h
    then some introspect
    else if is_get_managed_objects h
    then some object_manager
    else if is_method_call h
    then some method
    else none

abbrev pub same_service : Service → Service → Bool
same_service introspect introspect = true
same_service object_manager object_manager = true
same_service method method = true
same_service _ _ = false

module _ {M : Type 0} where
  pub set_loop_same : (k : Service) (l : Loop M) (s : Serving M) → loop k (set_loop k l s) ≡ l
  set_loop_same introspect l s = refl
  set_loop_same object_manager l s = refl
  set_loop_same method l s = refl

  pub set_loop_own : (k : Service) (s : Serving M) → set_loop k (loop k s) s ≡ s
  set_loop_own introspect s = refl
  set_loop_own object_manager s = refl
  set_loop_own method s = refl

  -- Setting one loop leaves the others.
  pub set_loop-cases :
      (j k : Service)
      → ((j ≡ k) × (same_service j k ≡ true))
        ⊎ ((same_service j k ≡ false)
            × ((l : Loop M) (s : Serving M) → loop k (set_loop j l s) ≡ loop k s))
  set_loop-cases introspect introspect = inl (refl, refl)
  set_loop-cases object_manager object_manager = inl (refl, refl)
  set_loop-cases method method = inl (refl, refl)
  set_loop-cases introspect object_manager = inr (refl, λ l s. refl)
  set_loop-cases introspect method = inr (refl, λ l s. refl)
  set_loop-cases object_manager introspect = inr (refl, λ l s. refl)
  set_loop-cases object_manager method = inr (refl, λ l s. refl)
  set_loop-cases method introspect = inr (refl, λ l s. refl)
  set_loop-cases method object_manager = inr (refl, λ l s. refl)

module _ {M : Type 0} (header : M → Header) where
  offer_to-true :
      (k : Service) (m : M) (s : Serving M)
      → predicate_of k (header m) ≡ true
      → offer_to header k m s
        ≡ (handled, set_loop k (record (loop k s) { queue = push m (loop k s).queue }) s)
  unfolding offer_to
  offer_to-true k m s h =
      let f = filter_of header k s in
      let answers : filter_callback m f ≡ (handled, record f { queue = push m f.queue }) =
        filter_callback-accepts m f ∙ rw (h) refl in
      ap (λ r. (r.0, set_loop k (record (loop k s) { queue = r.1.queue }) s)) answers

  offer_to-false :
      (k : Service) (m : M) (s : Serving M)
      → predicate_of k (header m) ≡ false
      → offer_to header k m s ≡ (not_yet_handled, s)
  unfolding offer_to
  offer_to-false k m s h =
      let f = filter_of header k s in
      let answers : filter_callback m f ≡ (not_yet_handled, f) =
        filter_callback-accepts m f ∙ rw (h) refl in
      ap (λ r. (r.0, set_loop k (record (loop k s) { queue = r.1.queue }) s)) answers
      ∙ ap (λ s'. (not_yet_handled, s')) (set_loop_own k s)

  -- A message is queued by the filter of its service and no other one, and by none where it is no method
  -- call; only then it is left to others.
  pub arrive-service_of :
      (m : M) (s : Serving M)
      → arrive header m s ≡ elim (service_of (header m)) as (λ _. HandlerResult × Serving M) [
        | none ↦ (not_yet_handled, s)
        | some k ↦ (handled, set_loop k (record (loop k s) { queue = push m (loop k s).queue }) s)
      ]
  unfolding arrive
  arrive-service_of m s = elim (Bool-cases (is_introspect (header m))) [
    | inl i ↦ rw (offer_to-true introspect m s i, i) refl
    | inr i ↦ elim (Bool-cases (is_get_managed_objects (header m))) [
      | inl g ↦ rw (offer_to-false introspect m s i, i, offer_to-true object_manager m s g, g) refl
      | inr g ↦ elim (Bool-cases (is_method_call (header m))) [
        | inl c ↦
            rw
              (
                offer_to-false introspect m s i,
                i,
                offer_to-false object_manager m s g,
                g,
                offer_to-true method m s c,
                c,
              )
              refl
        | inr c ↦
            rw
              (
                offer_to-false introspect m s i,
                i,
                offer_to-false object_manager m s g,
                g,
                offer_to-false method m s c,
                c,
              )
              refl
      ]
    ]
  ]

  abbrev pub is_for : Service → M → Bool
  is_for k m = elim (service_of (header m)) [ none ↦ false | some j ↦ same_service j k ]

  -- The messages for a service that arrive.
  abbrev pub arrived_for : Service → List (Event M) → List M
  arrived_for k [] = []
  arrived_for k (arrives m ∷ es) = if is_for k m then m ∷ arrived_for k es else arrived_for k es
  arrived_for k (serves j ∷ es) = arrived_for k es

  pub arrive-loop :
      (k : Service) (m : M) (s : Serving M)
      → loop k (arrive header m s).1
        ≡ (if is_for k m then record (loop k s) { queue = push m (loop k s).queue } else loop k s)
  arrive-loop k m s = ap (λ r. loop k r.1) (arrive-service_of m s) ∙ effect (service_of (header m))
    where
      effect :
          (o : Option Service)
          → loop k (
              (elim o as (λ _. HandlerResult × Serving M) [
                | none ↦ (not_yet_handled, s)
                | some j ↦
                    (handled, set_loop j (record (loop j s) { queue = push m (loop j s).queue }) s)
              ]).1)
            ≡ (if elim o [ none ↦ false | some j ↦ same_service j k ]
                then record (loop k s) { queue = push m (loop k s).queue }
                else loop k s)
      effect none = refl
      effect (some j) = elim (set_loop-cases {M = M} j k) [
        | inl (same, found) ↦ rw (found) (
            subst
              (λ i.
                loop k (set_loop i (record (loop i s) { queue = push m (loop i s).queue }) s)
                ≡ record (loop k s) { queue = push m (loop k s).queue })
              (sym same) (set_loop_same k _ s))
        | inr (other, leaves) ↦ rw (other) (leaves _ s)
      ]
