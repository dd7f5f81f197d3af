-- ===== src/Feed/Client.antt =====
-- What can happen to a Feed of web/src/feed.ts, one event at a time: a frame of the animation (`tick`, then
-- `takeNew`), a control, a message, the end of the connection, the outcome of a fetch. The asynchronous code
-- of the source runs between events only where it waits, so a run is a list of events in any order.
use market_sandbox.Prelude.{Option, List, [], ◌∷◌, ℤ}
use market_sandbox.Feed.{Feed, tick, take_new}
use market_sandbox.Feed.Socket.{Message, on_message, on_close, replay_fetched}
use market_sandbox.Feed.Anchoring.{Control, apply}

pub data Event : Type 0 where
  ticked : ℤ → Event
  taken : Event
  controlled : Control → ℤ → Event
  received : Message → ℤ → Event
  closed : ℤ → Event
  fetched : Option (List Message) → ℤ → Event

unfoldable pub handle : Event → Feed → Feed
handle (ticked now) f = tick now f
handle taken f = (take_new f).0
handle (controlled c now) f = apply c now f
handle (received m now) f = (on_message m now f).0
handle (closed now) f = (on_close now f).0
handle (fetched lines now) f = replay_fetched lines now f

unfoldable pub run : List Event → Feed → Feed
run [] f = f
run (e ∷ es) f = run es (handle e f)
