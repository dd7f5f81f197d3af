-- ===== src/Feed/Anchoring.antt =====
-- The controls of web/src/feed.ts and the anchor of the playing clock.
use market_sandbox.Prelude.{
  ◌+◌, ◌≢◌, ◌≡◌, refl, Bool-cases, inl, inr, arith, List, [], ◌∷◌, drop, ℤ,
}
use market_sandbox.Wire.{Frame, of_batch, of_book}
use market_sandbox.Feed.{Feed, ClockMode, is_live, bump, set_follow}
use market_sandbox.Feed.Clock.{IsAnchored}
use market_sandbox.Feed.Controls.{
  seek, seek_mode, go_live, toggle_play, toggle_mode, set_speed, speed_mode, step, step_loop,
}

pub follow≢play : ClockMode.follow ≢ ClockMode.play
follow≢play e = cc

-- The page's controls.
pub data Control : Type 0 where
  to_time : ℤ → Control
  to_live : Control
  to_toggle : Control
  to_speed : ℤ → Control
  to_step : Control

unfoldable pub apply : Control → ℤ → Feed → Feed
apply (to_time t) now f = seek t now f
apply to_live now f = go_live now f
apply to_toggle now f = toggle_play now f
apply (to_speed s) now f = set_speed s now f
apply to_step now f = (step now f).0

pub step_pauses :
    (xs : List Frame) (now : ℤ) (f : Feed) → (step_loop xs now f).0.clock_mode ≡ f.clock_mode
unfolding step_loop bump
step_pauses [] now f = refl
step_pauses (of_batch b ∷ xs) now f = refl
step_pauses (of_book b ∷ xs) now f =
    step_pauses xs now (record f { cursor = f.cursor + 1; vt = b.at })

seek_mode-IsAnchored :
    (m : ClockMode) (now : ℤ) (f : Feed)
    → f.clock_mode ≡ m
    → (seek_mode m now f).clock_mode ≡ ClockMode.play
    → IsAnchored now (seek_mode m now f)
unfolding seek_mode
seek_mode-IsAnchored ClockMode.follow now f e h = cc
seek_mode-IsAnchored ClockMode.play now f e h = (refl, refl)
seek_mode-IsAnchored ClockMode.pause now f e h = cc

toggle_mode-IsAnchored :
    (m : ClockMode) (now : ℤ) (f : Feed)
    → (toggle_mode m now f).clock_mode ≡ ClockMode.play
    → IsAnchored now (toggle_mode m now f)
unfolding toggle_mode set_follow
toggle_mode-IsAnchored ClockMode.follow now f h = cc
toggle_mode-IsAnchored ClockMode.play now f h = cc
toggle_mode-IsAnchored ClockMode.pause now f h = ground arith

speed_mode-IsAnchored :
    (m : ClockMode) (now : ℤ) (f : Feed)
    → f.clock_mode ≡ m
    → (speed_mode m now f).clock_mode ≡ ClockMode.play
    → IsAnchored now (speed_mode m now f)
unfolding speed_mode bump
speed_mode-IsAnchored ClockMode.follow now f e h = ground arith
speed_mode-IsAnchored ClockMode.play now f e h = (refl, refl)
speed_mode-IsAnchored ClockMode.pause now f e h = cc

go_live-IsAnchored :
    (now : ℤ) (f : Feed)
    → (go_live now f).clock_mode ≡ ClockMode.play
    → IsAnchored now (go_live now f)
unfolding go_live bump set_follow
go_live-IsAnchored now f h = elim (Bool-cases (is_live f.source)) [
  | inl live ↦ absurd (follow≢play (rw (live, go_live) at h))
  | inr other ↦ rw (other, go_live) (refl, refl)
]

-- A control that leaves the clock playing leaves it anchored: at the time that it shows, at the reading
-- of the page's clock. So no control makes a playing clock jump at the next tick.
pub apply-IsAnchored :
    (c : Control) (now : ℤ) (f : Feed)
    → (apply c now f).clock_mode ≡ ClockMode.play
    → IsAnchored now (apply c now f)
unfolding apply bump seek toggle_play set_speed step
apply-IsAnchored (to_time t) now f h = seek_mode-IsAnchored f.clock_mode now _ refl h
apply-IsAnchored to_live now f h = go_live-IsAnchored now f h
apply-IsAnchored to_toggle now f h = toggle_mode-IsAnchored f.clock_mode now f h
apply-IsAnchored (to_speed s) now f h = speed_mode-IsAnchored f.clock_mode now _ refl h
apply-IsAnchored to_step now f h =
    let paused =
      step_pauses (drop f.cursor f.frames) now (record f { clock_mode = ClockMode.pause }) in
    cc
