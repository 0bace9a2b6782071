-- ===== src/Connection/Dispatching.antt =====
-- include/dbus/detail/watch_timeout.hpp: how long the dispatch handler goes on.
use boost_dbus.Common.{ℕ, zero, suc, ◌<◌, ◌≡◌, refl, arith}
use boost_dbus.Connection.{Dispatcher, DispatcherLaws, dispatch_handler, run_handlers}

module _ {d : Dispatcher} (laws : DispatcherLaws d) where
  open laws use {waiting, takes, remains, completes}

  -- One handler is posted on a connection where `n` + 1 messages wait and, until then, no more come in:
  -- with fuel for `n` + 1 runs of handlers, or more, in the end no message waits and no handler is
  -- pending.
  pub run_handlers-drains :
      (n fuel : ℕ) (c : d.Conn)
      → waiting c ≡ suc n
      → n < fuel
      → ((run_handlers d fuel 1 c).0 ≡ 0) × (waiting (run_handlers d fuel 1 c).1 ≡ 0)
  unfolding run_handlers dispatch_handler
  run_handlers-drains n zero c h enough = absurd (omega arith)
  run_handlers-drains zero (suc fuel) c h enough =
      let none_left = takes c zero h in
      rw (completes c none_left, run_handlers) (idle fuel (d.dispatch c).1 none_left)
    where
      idle :
          (f : ℕ) (c' : d.Conn)
          → waiting c' ≡ 0
          → ((run_handlers d f 0 c').0 ≡ 0) × (waiting (run_handlers d f 0 c').1 ≡ 0)
      idle zero c' e = (refl, e)
      idle (suc f) c' e = (refl, e)
  run_handlers-drains (suc n) (suc fuel) c h enough =
      let left = takes c (suc n) h in
      rw (remains c n left, run_handlers)
        (run_handlers-drains n fuel (d.dispatch c).1 left (omega arith))
