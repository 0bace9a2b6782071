-- ===== src/Filter.antt =====
-- include/dbus/filter.hpp and include/dbus/impl/filter.ipp: a filter keeps the messages that its
-- predicate accepts in a queue of its own.
--
-- The predicate is a function of the program; `none` says that it throws.
pub mod Offered
pub mod Chain
use boost_dbus.Common.{Bool, true, false, List, [], ◌∷◌, Option, none, some, if◌then◌else◌}
use boost_dbus.Connection.{Connection, start}
use boost_dbus.Queue.{Queue, empty, push, async_pop}

pub record Filter (M H : Type 0) : Type 0 where
  pub connection : Connection
  pub predicate : M → Option Bool
  pub queue : Queue M H

-- DBusHandlerResult
pub data HandlerResult : Type 0 where
  handled not_yet_handled : HandlerResult

module _ {M H : Type 0} where
  abbrev pub new_filter : Connection → (M → Option Bool) → Filter M H
  new_filter c p = record { connection = c; predicate = p; queue = empty }

  -- `none` where the predicate throws.
  unfoldable pub offer : M → Filter M H → Option (Bool × Filter M H)
  offer m f = elim (f.predicate m) [
    | none ↦ none
    | some filtered ↦ some (filtered, if filtered then record f { queue = push m f.queue } else f)
  ]

  unfoldable pub filter_callback : M → Filter M H → HandlerResult × Filter M H
  unfolding offer
  filter_callback m f = elim (offer m f) [
    | none ↦ (not_yet_handled, f)
    | some (true, f') ↦ (handled, f')
    | some (false, f') ↦ (not_yet_handled, f')
  ]

  unfoldable pub async_dispatch : H → Filter M H → Filter M H
  async_dispatch h f = record f { connection = start f.connection; queue = async_pop h f.queue }

-- What happens to a filter: libdbus offers it a message, or the program waits for one.
pub data Event (M H : Type 0) : Type 0 where
  offers : M → Event M H
  dispatches : H → Event M H

module _ {M H : Type 0} where
  unfoldable pub take_event : Event M H → Filter M H → Filter M H
  unfolding filter_callback async_dispatch
  take_event (offers m) f = (filter_callback m f).1
  take_event (dispatches h) f = async_dispatch h f

  unfoldable pub take_events : List (Event M H) → Filter M H → Filter M H
  unfolding take_event
  take_events [] f = f
  take_events (e ∷ es) f = take_events es (take_event e f)
