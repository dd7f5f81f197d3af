-- ===== src/Feed/Invariant/Connection.antt =====
-- A Feed of web/src/feed.ts stays valid through messages, the end of its connection, and any events.
use market_sandbox.Prelude.{
  ◌≡◌, String, refl, Option, none, some, List, [], ◌∷◌, map, Bool, false, arith, ℤ, if◌then◌else◌,
  ◌&&◌, not,
}
use market_sandbox.Wire.{of_batch}
use market_sandbox.Feed.{Feed, Source, ClockMode, is_live, bump, push, reset, set_follow, take_new}
use market_sandbox.Feed.Delivery.{push-cursor-le}
use market_sandbox.Feed.Socket.{
  Message, on_message, dispatch, on_status, on_history, on_frame, on_close, closed_source,
  switch_to_live, is_empty, replay_fetched, read_lines, wants_replay,
}
use market_sandbox.Feed.Client.{
  Event, ticked, taken, controlled, received, closed, fetched, handle, run,
}
use market_sandbox.Feed.Invariant.{
  IsValid, if-IsValid, first-IsValid, push-IsValid, set_follow-IsValid, bump-IsValid, tick-IsValid,
  deliver-IsValid, apply-IsValid,
}

switch_to_live-IsValid : (now : ℤ) (f : Feed) → IsValid (switch_to_live now f)
unfolding bump switch_to_live reset
switch_to_live-IsValid now f = record { fits = omega arith; normal = λ r. refl }

on_status-IsValid :
    (up : Bool) (name : Option String) (now : ℤ) (f : Feed)
    → IsValid f
    → IsValid (on_status up name now f).0
unfolding on_status
on_status-IsValid up name now f h =
    let g = record f { recording = name; exchange_up = up } in
    let kept : IsValid g = record { fits = h.fits; normal = h.normal } in
    let live : IsValid (switch_to_live now g) = switch_to_live-IsValid now g in
    first-IsValid (up && not (is_live f.source)) (switch_to_live now g, false) _ (λ e. live)
      (λ e.
        first-IsValid (not up && is_live f.source && is_empty f.frames) (g, not (is_live f.source))
          (g, false) (λ r. kept) (λ r. kept))

dispatch-IsValid : (m : Message) (now : ℤ) (f : Feed) → IsValid f → IsValid (dispatch m now f).0
unfolding dispatch on_history on_frame
dispatch-IsValid (Message.hello r) now f h = record { fits = h.fits; normal = h.normal }
dispatch-IsValid (Message.status up name) now f h = on_status-IsValid up name now f h
dispatch-IsValid (Message.history bs) now f h =
    let loaded = push (map of_batch bs) f in
    if-IsValid (is_live f.source && is_empty f.frames) (set_follow loaded) f
      (λ e. set_follow-IsValid loaded) (λ e. h)
dispatch-IsValid (Message.batch b) now f h =
    if-IsValid (is_live f.source) _ f (λ e. push-IsValid _ f h) (λ e. h)
dispatch-IsValid (Message.book b) now f h =
    if-IsValid (is_live f.source) _ f (λ e. push-IsValid _ f h) (λ e. h)
dispatch-IsValid (Message.result id r) now f h = h
dispatch-IsValid Message.other now f h = h

paused-IsValid :
    (m : ClockMode) (f : Feed)
    → f.clock_mode ≡ m
    → IsValid f
    → IsValid (elim m [ ClockMode.follow ↦ record f { clock_mode = ClockMode.pause } | _ ↦ f ])
paused-IsValid ClockMode.follow f e h = record { fits = h.fits; normal = λ r. cc }
paused-IsValid ClockMode.play f e h = h
paused-IsValid ClockMode.pause f e h = h

closed_source-IsValid :
    (m : ClockMode) (f : Feed) → f.clock_mode ≡ m → IsValid f → IsValid (closed_source m f).0
unfolding closed_source
closed_source-IsValid m f e h =
    let g = record f { source = Source.replay } in
    let kept : IsValid g = record { fits = h.fits; normal = h.normal } in
    first-IsValid (is_empty f.frames) (g, wants_replay g) _ (λ r. kept)
      (λ r. paused-IsValid m g e kept)

replay_fetched-IsValid :
    (lines : Option (List Message)) (now : ℤ) (f : Feed)
    → IsValid f
    → IsValid (replay_fetched lines now f)
unfolding bump replay_fetched reset
replay_fetched-IsValid none now f h = record { fits = h.fits; normal = h.normal }
replay_fetched-IsValid (some lines) now f h =
    let read = read_lines lines f.roster in
    let g = record f { roster = read.0 } in
    let cleared = reset Source.replay g in
    if-IsValid (is_live f.source) g _ (λ e. record { fits = h.fits; normal = h.normal })
      (λ e. record { fits = push-cursor-le read.1 cleared (omega arith); normal = λ r. cc })

on_close-IsValid : (now : ℤ) (f : Feed) → IsValid f → IsValid (on_close now f).0
unfolding on_close
on_close-IsValid now f h =
    let g = record f { exchange_up = false } in
    let kept : IsValid g = record { fits = h.fits; normal = h.normal } in
    let stopped : IsValid
        (if is_live f.source then closed_source g.clock_mode g else (g, false)).0 =
      first-IsValid (is_live f.source) _ _ (λ e. closed_source-IsValid f.clock_mode g refl kept)
        (λ e. kept) in
    bump-IsValid now _ stopped

handle-IsValid : (e : Event) (f : Feed) → IsValid f → IsValid (handle e f)
unfolding handle take_new on_message
handle-IsValid (ticked now) f h = tick-IsValid now f h
handle-IsValid taken f h = deliver-IsValid f.clock_mode f refl h
handle-IsValid (controlled c now) f h = apply-IsValid c now f h
handle-IsValid (received m now) f h =
    let g = dispatch-IsValid m now f h in record { fits = g.fits; normal = g.normal }
handle-IsValid (closed now) f h = on_close-IsValid now f h
handle-IsValid (fetched lines now) f h = replay_fetched-IsValid lines now f h

-- Whatever happens to a valid Feed, it stays valid: after any events, in any order, its cursor is inside
-- its frames or at their end, and a clock that follows the live market runs at the speed 1.
pub run-IsValid : (es : List Event) (f : Feed) → IsValid f → IsValid (run es f)
unfolding run
run-IsValid [] f h = h
run-IsValid (e ∷ es) f h = run-IsValid es (handle e f) (handle-IsValid e f h)
