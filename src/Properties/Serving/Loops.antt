-- ===== src/Properties/Serving/Loops.antt =====
-- include/dbus/properties.hpp: the handler of a filter waits again after each run.
use boost_dbus.Common.{◌≡◌, refl, ap, ◌∙◌, inl, inr, false, List, [], ◌∷◌, ◌++◌}
use boost_dbus.Queue.{Closure, push, async_pop}
use boost_dbus.Filter.{async_dispatch}
use boost_dbus.Properties.Server.{Header}
use boost_dbus.Properties.Serving.Routes.{same_service, set_loop_same, set_loop-cases}
use boost_dbus.Properties.Serving.{
  Service, introspect, object_manager, method, Loop, Serving, loop, arm, serve_first, serve,
}

module _ {M : Type 0} where
  -- What a service's loop is, when its handler has been called with `done` and is still to be called
  -- with `pending`: the handler waits, or a closure with the first message is posted and the others
  -- wait.
  abbrev pub loop_with : Service → (done pending : List M) → Loop M
  loop_with k done [] = record {
    queue = record { messages = []; handlers = k ∷ []; posted = [] };
    handled = done;
  }
  loop_with k done (m ∷ ms) = record {
    queue = record {
      messages = ms;
      handlers = [];
      posted = record { handler = k; message = m } ∷ [];
    };
    handled = done;
  }

  -- What a run of the handler does to its loop.
  abbrev pub receive : M → Loop M → Loop M
  receive m l = record l { queue = push m l.queue }

  abbrev rearm : Service → Loop M → Loop M
  rearm k l = record l { queue = async_pop k l.queue }

  abbrev take_first : M → Loop M → Loop M
  take_first m l = record {
    queue = record (l.queue) { posted = [] };
    handled = l.handled ++ m ∷ [];
  }

  pub push-loop_with :
      (k : Service) (m : M) (done pending : List M)
      → record (loop_with k done pending) { queue = push m (loop_with k done pending).queue }
        ≡ loop_with k done (pending ++ m ∷ [])
  unfolding push
  push-loop_with k m done [] = refl
  push-loop_with k m done (p ∷ ps) = refl

module _ {M : Type 0} (header : M → Header) where
  -- Arming, and what it leaves.
  arm-loop :
      (k : Service) (s : Serving M)
      → loop k (arm header k s) ≡ record (loop k s) { queue = async_pop k (loop k s).queue }
  unfolding arm async_dispatch
  arm-loop introspect s = refl
  arm-loop object_manager s = refl
  arm-loop method s = refl

  arm-others :
      (j k : Service) (s : Serving M)
      → same_service j k ≡ false
      → loop k (arm header j s) ≡ loop k s
  unfolding arm async_dispatch
  arm-others introspect introspect s e = absurd (cc)
  arm-others object_manager object_manager s e = absurd (cc)
  arm-others method method s e = absurd (cc)
  arm-others introspect object_manager s e = refl
  arm-others introspect method s e = refl
  arm-others object_manager introspect s e = refl
  arm-others object_manager method s e = refl
  arm-others method introspect s e = refl
  arm-others method object_manager s e = refl

  serve_first-others :
      (j k : Service) (cs : List (Closure M Service)) (s : Serving M)
      → same_service j k ≡ false
      → loop k (serve_first header j cs s) ≡ loop k s
  unfolding serve_first
  serve_first-others j k [] s e = refl
  serve_first-others j k (c ∷ cs) s e = elim (set_loop-cases {M = M} j k) [
    | inl (same, found) ↦ absurd (cc)
    | inr (other, leaves) ↦ arm-others j k _ e ∙ leaves _ s
  ]

  serve_first-cons :
      (k : Service) (done : List M) (m : M) (ms : List M) (s : Serving M)
      → loop k s ≡ loop_with k done (m ∷ ms)
      → loop k (serve_first header k (record { handler = k; message = m } ∷ []) s)
        ≡ loop_with k (done ++ m ∷ []) ms
  unfolding serve_first async_pop
  serve_first-cons k done m ms s h =
      arm-loop k _
      ∙ ap (rearm k) (set_loop_same k _ s)
      ∙ ap (λ l. rearm k (take_first m l)) h
      ∙ rearmed ms
    where
      rearmed :
          (ns : List M)
          → record {
            queue = async_pop k (record { messages = ns; handlers = []; posted = [] });
            handled = done ++ m ∷ [];
          }
            ≡ loop_with k (done ++ m ∷ []) ns
      rearmed [] = refl
      rearmed (n ∷ ns) = refl

  pub serve-others :
      (j k : Service) (s : Serving M)
      → same_service j k ≡ false
      → loop k (serve header j s) ≡ loop k s
  unfolding serve
  serve-others j k s e = serve_first-others j k (loop j s).queue.posted s e

  pub serve-nil :
      (k : Service) (done : List M) (s : Serving M)
      → loop k s ≡ loop_with k done []
      → serve header k s ≡ s
  unfolding serve serve_first
  serve-nil k done s h = ap (λ l. serve_first header k l.queue.posted s) h

  pub serve-cons :
      (k : Service) (done : List M) (m : M) (ms : List M) (s : Serving M)
      → loop k s ≡ loop_with k done (m ∷ ms)
      → loop k (serve header k s) ≡ loop_with k (done ++ m ∷ []) ms
  unfolding serve
  serve-cons k done m ms s h =
      ap (λ l. loop k (serve_first header k l.queue.posted s)) h ∙ serve_first-cons k done m ms s h
