-- ===== src/Feed/Invariant.antt =====
-- What holds of a Feed of web/src/feed.ts at any time, and that its clock and its controls keep it.
pub mod Connection
use market_sandbox.Prelude.{
  ℕ, ◌+◌, ◌≤◌, ◌≡◌, ◌≢◌, String, refl, Option, none, some, List, [], ◌∷◌, ◌++◌, length, drop, map,
  Bool, true, false, Bool-cases, inl, inr, arith, ltb, ℤ, pos, negsuc, length-drop, if◌then◌else◌,
  ◌&&◌, not, eq_ℤ, eq_of-eq_ℤ, ap, ◌∙◌, sym, ◌+ℤ◌, ◌-ℤ◌, ◌*ℤ◌,
}
use market_sandbox.Wire.{Frame, of_batch}
use market_sandbox.Feed.{
  Feed, Source, ClockMode, normal_speed, is_live, bump, push, reset, set_follow, advance, tick,
  deliver, take_new, is_over, is_caught_up, max_frames, trim, first_at, last_at,
}
use market_sandbox.Feed.Index.{index_in_bounds}
use market_sandbox.Feed.Controls.{
  seek, seek_mode, go_live, toggle_play, toggle_mode, set_speed, speed_mode, step,
}
use market_sandbox.Feed.Delivery.{push-cursor-le, deliver-rest}
use market_sandbox.Feed.Step.{NextBatch, none_left, found, skip, step_loop-IsStep}
use market_sandbox.Feed.Socket.{
  Message, on_message, dispatch, on_status, on_history, on_frame, on_close, closed_source,
  switch_to_live, is_empty, replay_fetched, read_lines, wants_replay,
}
use market_sandbox.Feed.Anchoring.{
  Control, to_time, to_live, to_toggle, to_speed, to_step, apply, follow≢play,
}
use market_sandbox.Feed.Client.{
  Event, ticked, taken, controlled, received, closed, fetched, handle, run,
}

follow≢pause : ClockMode.follow ≢ ClockMode.pause
follow≢pause e = cc

-- The cursor stands inside the frames or at their end, and a clock that follows has the speed 1.
pub record IsValid (f : Feed) : Type 0 where
  pub fits : f.cursor ≤ length f.frames
  pub normal : f.clock_mode ≡ ClockMode.follow → f.speed ≡ normal_speed

pub if-IsValid :
    (b : Bool) (f g : Feed)
    → (b ≡ true → IsValid f)
    → (b ≡ false → IsValid g)
    → IsValid (if b then f else g)
if-IsValid true f g h k = h refl
if-IsValid false f g h k = k refl

pub first-IsValid :
    (b : Bool) (p q : Feed × Bool)
    → (b ≡ true → IsValid p.0)
    → (b ≡ false → IsValid q.0)
    → IsValid (if b then p else q).0
first-IsValid true p q h k = h refl
first-IsValid false p q h k = k refl

push-clock :
    (new : List Frame) (f : Feed)
    → ((push new f).clock_mode ≡ f.clock_mode) × ((push new f).speed ≡ f.speed)
unfolding push
push-clock new f = elim (Bool-cases (ltb (max_frames + trim) (length (f.frames ++ new)))) [
  | inl over ↦ rw over (refl, refl)
  | inr fits ↦ rw fits (refl, refl)
]

pub push-IsValid : (new : List Frame) (f : Feed) → IsValid f → IsValid (push new f)
push-IsValid new f h =
    let (mode, speed) = push-clock new f in
    record { fits = push-cursor-le new f h.fits; normal = λ e. speed ∙ h.normal (sym mode ∙ e) }

pub set_follow-IsValid : (f : Feed) → IsValid (set_follow f)
unfolding set_follow
set_follow-IsValid f = record { fits = omega arith; normal = λ e. refl }

advance-IsValid :
    (m : ClockMode) (now : ℤ) (f : Feed) → f.clock_mode ≡ m → IsValid f → IsValid (advance m now f)
unfolding advance
advance-IsValid ClockMode.pause now f e h = h
advance-IsValid ClockMode.follow now f e h =
    if-IsValid (eq_ℤ (last_at f) f.vt) f _ (λ s. h)
      (λ s. record { fits = h.fits; normal = h.normal })
advance-IsValid ClockMode.play now f e h =
    let vt = f.anchor.vt +ℤ (now -ℤ f.anchor.wall) *ℤ f.speed in
    if-IsValid (is_over f vt) _ _
      (λ s. record { fits = omega arith; normal = λ r. absurd (follow≢play (sym r ∙ e)) })
      (λ s.
        if-IsValid (is_caught_up f vt) _ _
          (λ r. set_follow-IsValid (record f { vt = vt; dirty = true }))
          (λ r. record { fits = h.fits; normal = h.normal }))

pub bump-IsValid : (now : ℤ) (f : Feed) → IsValid f → IsValid (bump now f)
unfolding bump
bump-IsValid now f h = record { fits = h.fits; normal = h.normal }

pub tick-IsValid : (now : ℤ) (f : Feed) → IsValid f → IsValid (tick now f)
unfolding tick
tick-IsValid now f h =
    let g = advance-IsValid f.clock_mode now f refl h in
    if-IsValid _ _ _ (λ e. bump-IsValid now _ g) (λ e. g)

pub deliver-IsValid :
    (m : ClockMode) (f : Feed) → f.clock_mode ≡ m → IsValid f → IsValid (deliver m f).0
unfolding deliver
deliver-IsValid ClockMode.pause f e h = record { fits = h.fits; normal = h.normal }
deliver-IsValid ClockMode.follow f e h = record {
  fits = (deliver-rest ClockMode.follow f h.fits).1;
  normal = h.normal;
}
deliver-IsValid ClockMode.play f e h = record {
  fits = (deliver-rest ClockMode.play f h.fits).1;
  normal = h.normal;
}

seek_mode-IsValid :
    (m : ClockMode) (now : ℤ) (f : Feed)
    → f.clock_mode ≡ m
    → f.cursor ≤ length f.frames
    → IsValid (seek_mode m now f)
unfolding seek_mode
seek_mode-IsValid ClockMode.follow now f e h = record { fits = h; normal = λ r. cc }
seek_mode-IsValid ClockMode.play now f e h = record { fits = h; normal = λ r. cc }
seek_mode-IsValid ClockMode.pause now f e h = record { fits = h; normal = λ r. cc }

seek-IsValid : (target now : ℤ) (f : Feed) → IsValid (seek target now f)
unfolding seek
seek-IsValid target now f =
    bump-IsValid now _ (seek_mode-IsValid f.clock_mode now _ refl (index_in_bounds f.frames _).1)

go_live-IsValid : (now : ℤ) (f : Feed) → IsValid (go_live now f)
unfolding bump go_live
go_live-IsValid now f =
    let restarted = record f { clock_mode = ClockMode.play; speed = normal_speed } in
    let sought = seek-IsValid (first_at restarted) now restarted in
    if-IsValid (is_live f.source) _ _ (λ e. bump-IsValid now _ (set_follow-IsValid f))
      (λ e. record { fits = sought.fits; normal = sought.normal })

toggle_mode-IsValid :
    (m : ClockMode) (now : ℤ) (f : Feed) → IsValid f → IsValid (toggle_mode m now f)
unfolding toggle_mode
toggle_mode-IsValid ClockMode.follow now f h = record { fits = h.fits; normal = λ r. cc }
toggle_mode-IsValid ClockMode.play now f h = record { fits = h.fits; normal = λ r. cc }
toggle_mode-IsValid ClockMode.pause now f h =
    if-IsValid _ _ _ (λ e. set_follow-IsValid f) (λ e. record { fits = h.fits; normal = λ r. cc })

speed_mode-IsValid :
    (m : ClockMode) (now : ℤ) (f : Feed)
    → f.clock_mode ≡ m
    → f.cursor ≤ length f.frames
    → IsValid (speed_mode m now f)
unfolding bump speed_mode
speed_mode-IsValid ClockMode.follow now f e h =
    if-IsValid (eq_ℤ f.speed normal_speed) _ _
      (λ s. record { fits = h; normal = λ r. eq_of-eq_ℤ f.speed normal_speed s })
      (λ s. record { fits = h; normal = λ r. cc })
speed_mode-IsValid ClockMode.play now f e h = record { fits = h; normal = λ r. cc }
speed_mode-IsValid ClockMode.pause now f e h = record { fits = h; normal = λ r. cc }

passed-le : {xs out : List Frame} {n : ℕ} → NextBatch xs n out → n ≤ length xs
passed-le none_left = omega arith
passed-le (found b rest) = omega arith
passed-le (skip b h) = omega (arith, passed-le h)

step-IsValid : (now : ℤ) (f : Feed) → IsValid f → IsValid (step now f).0
unfolding step
step-IsValid now f h =
    let w =
      step_loop-IsStep (drop f.cursor f.frames) now (record f { clock_mode = ClockMode.pause }) in
    record {
      fits =
          rw (w.frames, w.cursor)
            (omega (arith, h.fits, passed-le w.next, length-drop f.cursor f.frames));
      normal = λ r. absurd (follow≢pause (sym r ∙ w.mode));
    }

pub apply-IsValid : (c : Control) (now : ℤ) (f : Feed) → IsValid f → IsValid (apply c now f)
unfolding apply toggle_play set_speed
apply-IsValid (to_time t) now f h = seek-IsValid t now f
apply-IsValid to_live now f h = go_live-IsValid now f
apply-IsValid to_toggle now f h = bump-IsValid now _ (toggle_mode-IsValid f.clock_mode now f h)
apply-IsValid (to_speed s) now f h = speed_mode-IsValid f.clock_mode now _ refl h.fits
apply-IsValid to_step now f h = step-IsValid now f h
