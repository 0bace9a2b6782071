-- ===== src/Filter/Chain.antt =====
-- include/dbus/impl/filter.ipp: the filters of one connection. A filter adds itself when it is made and
-- takes itself away when it is destroyed; libdbus offers a message to each, in the order in which they
-- were added, up to the first that handles it.
--
-- A filter stands beside its address.
use boost_dbus.Common.{
  ℕ, ◌≡◌, refl, ap, ◌∙◌, true, false, List, [], ◌∷◌, ◌++◌, All, ◌==◌, ==_refl, if◌then◌else◌,
}
use boost_dbus.Queue.{push}
use boost_dbus.Filter.{Filter, HandlerResult, handled, not_yet_handled, filter_callback}
use boost_dbus.Filter.Offered.{accepts, filter_callback-accepts}

module _ {M H : Type 0} where
  -- The constructor's `new_filter`, and the destructor's `delete_filter`.
  unfoldable pub add_filter : ℕ → Filter M H → List (ℕ × Filter M H) → List (ℕ × Filter M H)
  add_filter address f fs = fs ++ (address, f) ∷ []

  unfoldable pub delete_filter : ℕ → List (ℕ × Filter M H) → List (ℕ × Filter M H)
  delete_filter address [] = []
  delete_filter address ((a, f) ∷ fs) =
      let rest = delete_filter address fs in if a == address then rest else (a, f) ∷ rest

  -- `result` and the filter are what the callback leaves, `rest` what becomes of the filters behind it.
  abbrev pub stop_or :
      ℕ
      → HandlerResult × Filter M H
      → (fs : List (ℕ × Filter M H)) → HandlerResult × List (ℕ × Filter M H)
      → HandlerResult × List (ℕ × Filter M H)
  stop_or a (handled, f) fs rest = (handled, (a, f) ∷ fs)
  stop_or a (not_yet_handled, f) fs rest = (rest.0, (a, f) ∷ rest.1)

  unfoldable pub offer_all : M → List (ℕ × Filter M H) → HandlerResult × List (ℕ × Filter M H)
  unfolding filter_callback
  offer_all m [] = (not_yet_handled, [])
  offer_all m ((a, f) ∷ fs) = stop_or a (filter_callback m f) fs (offer_all m fs)

  -- None of the filters takes the message.
  abbrev pub NoneAccepts : M → List (ℕ × Filter M H) → Type 0
  NoneAccepts m fs = All (λ e. accepts e.1.predicate m ≡ false) fs

  -- A filter that does not accept a message is passed over.
  pub passed_on :
      (m : M) (a : ℕ) (f : Filter M H) (fs : List (ℕ × Filter M H))
      → accepts f.predicate m ≡ false
      → offer_all m ((a, f) ∷ fs) ≡ ((offer_all m fs).0, (a, f) ∷ (offer_all m fs).1)
  unfolding offer_all
  passed_on m a f fs h =
      let answer : filter_callback m f ≡ (not_yet_handled, f) =
        filter_callback-accepts m f ∙ rw (h) refl in
      ap (λ r. stop_or a r fs (offer_all m fs)) answer

  -- The first filter whose predicate accepts a message queues it, and libdbus takes it for handled; no
  -- filter before it or behind it is touched.
  pub offer_all-first :
      (m : M) (before : List (ℕ × Filter M H)) (a : ℕ) (f : Filter M H)
      → (after : List (ℕ × Filter M H)) → NoneAccepts m before
      → accepts f.predicate m ≡ true
      → offer_all m (before ++ (a, f) ∷ after)
        ≡ (handled, before ++ (a, record f { queue = push m f.queue }) ∷ after)
  unfolding offer_all
  offer_all-first m [] a f after none_before takes =
      let answer : filter_callback m f ≡ (handled, record f { queue = push m f.queue }) =
        filter_callback-accepts m f ∙ rw (takes) refl in
      ap (λ r. stop_or a r after (offer_all m after)) answer
  offer_all-first m ((b, g) ∷ before) a f after none_before takes =
      passed_on m b g (before ++ (a, f) ∷ after) none_before.0
      ∙ ap (λ r. (r.0, (b, g) ∷ r.1)) (offer_all-first m before a f after none_before.1 takes)

  -- A message that no predicate accepts, or for which the predicates throw, is left to others, and no
  -- filter is touched.
  pub offer_all-nobody :
      (m : M) (fs : List (ℕ × Filter M H))
      → NoneAccepts m fs
      → offer_all m fs ≡ (not_yet_handled, fs)
  unfolding offer_all
  offer_all-nobody m [] h = refl
  offer_all-nobody m ((a, f) ∷ fs) h =
      passed_on m a f fs h.0 ∙ ap (λ r. (r.0, (a, f) ∷ r.1)) (offer_all-nobody m fs h.1)

  delete_filter-absent :
      (a : ℕ) (fs : List (ℕ × Filter M H))
      → All (λ e. (e.0 == a) ≡ false) fs
      → delete_filter a fs ≡ fs
  unfolding delete_filter
  delete_filter-absent a [] h = refl
  delete_filter-absent a ((b, g) ∷ fs) h =
      rw (h.0) (ap (◌∷◌ (b, g)) (delete_filter-absent a fs h.1))

  delete_filter-once :
      (before : List (ℕ × Filter M H)) (a : ℕ) (f : Filter M H) (after : List (ℕ × Filter M H))
      → All (λ e. (e.0 == a) ≡ false) before
      → All (λ e. (e.0 == a) ≡ false) after
      → delete_filter a (before ++ (a, f) ∷ after) ≡ before ++ after
  unfolding delete_filter
  delete_filter-once [] a f after h k = rw (==_refl a) (delete_filter-absent a after k)
  delete_filter-once ((b, g) ∷ before) a f after h k =
      rw (h.0) (ap (◌∷◌ (b, g)) (delete_filter-once before a f after h.1 k))

  -- A filter that is destroyed is offered nothing: the answer and the other filters are as if it had not
  -- been there.
  pub offer_all-delete_filter :
      (m : M) (before : List (ℕ × Filter M H)) (a : ℕ) (f : Filter M H)
      → (after : List (ℕ × Filter M H)) → All (λ e. (e.0 == a) ≡ false) before
      → All (λ e. (e.0 == a) ≡ false) after
      → offer_all m (delete_filter a (before ++ (a, f) ∷ after)) ≡ offer_all m (before ++ after)
  offer_all-delete_filter m before a f after h k =
      ap (offer_all m) (delete_filter-once before a f after h k)
