-- ===== src/Transport/Pressed.antt =====
-- What the controls of web/src/components/Transport.tsx show after one of them was used.
use market_sandbox.Prelude.{
  ◌≡◌, ◌≢◌, ◌≤◌, refl, ap, ◌∙◌, inl, inr, none, some, length, drop, map, true, false, Bool-cases,
  not, if◌then◌else◌, ltb, ℤ, pos, ◌-ℤ◌, ◌+ℤ◌, eq_ℤ, ltb_ℤ, leb_ℤ, max_ℤ, min_ℤ, ◌≤ℤ◌, arith, ◌&&◌,
  eq_of-eq_ℤ, eq_of_parts,
}
use market_sandbox.Feed.{
  Feed, first_of, last_of, ClockMode, ms, is_live, at_live, first_at, last_at, bump, set_follow,
  normal_speed,
}
use market_sandbox.Feed.Controls.{
  toggle_play, toggle_mode, set_speed, speed_mode, seek, seek_mode, go_live, step,
}
use market_sandbox.Feed.Anchoring.{
  step_pauses, Control, to_time, to_live, to_toggle, to_speed, to_step, apply,
}
use market_sandbox.Transport.{
  speeds, clock, span, paused, at, is_at_live, back_to_live, restart, Shown, shown, last_button,
}

-- What the controls show after a press: the first button turned, "Step" that may be pressed again, the speed that was
-- chosen and no other, or the live state.
abbrev pub IsShown : Control → Feed → Shown → Type 0
IsShown to_toggle f v = (v.play_symbol ≡ not (paused f)) × (v.may_step ≡ not (paused f))
IsShown to_step f v = (v.play_symbol ≡ true) × (v.may_step ≡ true)
IsShown (to_speed s) f v = v.chips ≡ map (λ t. (t, eq_ℤ s t)) speeds
IsShown to_live f v =
    (v.play_symbol ≡ false) × (v.last_button ≡ (if is_live f.source then is_at_live else restart))
IsShown (to_time t) f v = (v.least ≡ first_at f) × (v.most ≡ first_at f +ℤ span f)

toggle-IsShown :
    (m : ClockMode) (now : ℤ) (f : Feed)
    → f.clock_mode ≡ m
    → IsShown to_toggle f (shown (bump now (toggle_mode m now f)))
unfolding shown toggle_mode set_follow bump
toggle-IsShown ClockMode.follow now f is = rw is (refl, refl)
toggle-IsShown ClockMode.play now f is = rw is (refl, refl)
toggle-IsShown ClockMode.pause now f is =
    elim (Bool-cases (is_live f.source && leb_ℤ (last_at f) f.vt)) [
      | inl caught_up ↦ rw (caught_up, is, toggle_mode, shown) (refl, refl)
      | inr other ↦ rw (other, is, toggle_mode, shown) (refl, refl)
    ]

paused_of : (f : Feed) → f.clock_mode ≡ ClockMode.pause → paused f ≡ true
paused_of f is = rw is refl

step-IsShown : (now : ℤ) (f : Feed) → IsShown to_step f (shown (step now f).0)
unfolding shown step
step-IsShown now f =
    let still =
      paused_of (step now f).0
        (step_pauses (drop f.cursor f.frames) now (record f { clock_mode = ClockMode.pause })) in
    (still, still)

speed_mode-speed : (m : ClockMode) (now : ℤ) (f : Feed) → (speed_mode m now f).speed ≡ f.speed
unfolding speed_mode bump
speed_mode-speed ClockMode.follow now f = elim (Bool-cases (eq_ℤ f.speed normal_speed)) [
  | inl normal ↦ rw (normal, speed_mode) refl
  | inr other ↦ rw (other, speed_mode) refl
]
speed_mode-speed ClockMode.play now f = refl
speed_mode-speed ClockMode.pause now f = refl

speed-IsShown : (s now : ℤ) (f : Feed) → IsShown (to_speed s) f (shown (set_speed s now f))
unfolding shown set_speed
speed-IsShown s now f =
    ap (λ (x : ℤ). map (λ t. (t, eq_ℤ x t)) speeds)
      (speed_mode-speed f.clock_mode now (record f { speed = s }))

-- What a moved slider leaves.
record IsMoved (t : ℤ) (f g : Feed) : Type 0 where
  frames : g.frames ≡ f.frames
  vt : g.vt ≡ min_ℤ (max_ℤ t (first_at f)) (last_at f)
  source : g.source ≡ f.source
  not_live : at_live g ≡ false

not_following : (f : Feed) → at_live (record f { clock_mode = ClockMode.pause }) ≡ false
not_following f = ground arith

seek_mode-IsMoved :
    (m : ClockMode) (t now : ℤ) (f g : Feed)
    → g.clock_mode ≡ m
    → g.frames ≡ f.frames
    → g.vt ≡ min_ℤ (max_ℤ t (first_at f)) (last_at f)
    → g.source ≡ f.source
    → IsMoved t f (bump now (seek_mode m now g))
unfolding seek_mode bump
seek_mode-IsMoved ClockMode.follow t now f g is h k l = record {
  frames = h;
  vt = k;
  source = l;
  not_live = ground arith;
}
seek_mode-IsMoved ClockMode.play t now f g is h k l = record {
  frames = h;
  vt = k;
  source = l;
  not_live = ground (arith, is);
}
seek_mode-IsMoved ClockMode.pause t now f g is h k l = record {
  frames = h;
  vt = k;
  source = l;
  not_live = ground (arith, is);
}

seek-IsMoved : (t now : ℤ) (f : Feed) → IsMoved t f (seek t now f)
unfolding seek
seek-IsMoved t now f = seek_mode-IsMoved f.clock_mode t now f _ refl refl refl refl

time-IsShown : (t now : ℤ) (f : Feed) → IsShown (to_time t) f (shown (seek t now f))
unfolding shown
time-IsShown t now f =
    let same = (seek-IsMoved t now f).frames in
    (ap first_of same, ap (λ x. first_of x +ℤ max_ℤ (last_of x -ℤ first_of x) (ms 1)) same)

at_live-last_button :
    (f : Feed)
    → is_live f.source ≡ true
    → f.clock_mode ≡ ClockMode.follow
    → last_button f ≡ is_at_live
at_live-last_button f live is = rw (live, is) refl

replay-last_button : (f : Feed) → is_live f.source ≡ false → last_button f ≡ restart
replay-last_button f replay = rw replay refl

-- `goLive` leaves the source, and a clock that follows a live source and plays a recording.
go_live-mode :
    (now : ℤ) (f : Feed)
    → ((go_live now f).source ≡ f.source)
      × ((go_live now f).clock_mode
          ≡ (if is_live f.source then ClockMode.follow else ClockMode.play))
unfolding go_live bump set_follow seek seek_mode
go_live-mode now f = elim (Bool-cases (is_live f.source)) [
  | inl live ↦ rw (live, go_live) (refl, refl)
  | inr other ↦ rw (other, go_live) (refl, refl)
]

live-IsShown : (now : ℤ) (f : Feed) → IsShown to_live f (shown (go_live now f))
unfolding shown
live-IsShown now f =
    let (source, mode) = go_live-mode now f in
    elim (Bool-cases (is_live f.source)) [
      | inl live ↦
          let follows = rw live at mode in
          (
            rw follows refl,
            at_live-last_button (go_live now f) (ap is_live source ∙ live) follows ∙ rw live refl,
          )
      | inr other ↦
          let plays = rw other at mode in
          (
            rw plays refl,
            replay-last_button (go_live now f) (ap is_live source ∙ other) ∙ rw other refl,
          )
    ]

-- The slider shows the time that it was moved to, in the bounds that it had, and so does the text after it.
pub record IsScrubbed (t : ℤ) (f : Feed) (v : Shown) : Type 0 where
  pub least : v.least ≡ first_at f
  pub most : v.most ≡ first_at f +ℤ span f
  pub value : v.value ≡ t
  pub position : v.position ≡ at (clock (t -ℤ first_at f)) (clock (span f))
  pub last_button : v.last_button ≡ (
      if is_live f.source
      then back_to_live (
          let late = max_ℤ (pos 0) (last_at f -ℤ t) in
          if ltb_ℤ (ms 1_500) late then some (clock late) else none)
      else restart)

nonzero : (t : ℤ) → t ≢ pos 0 → eq_ℤ t (pos 0) ≡ false
nonzero t h = elim (Bool-cases (eq_ℤ t (pos 0))) [
  | inl same ↦ absurd (h (eq_of-eq_ℤ t (pos 0) same))
  | inr other ↦ other
]

at_least : (t lo : ℤ) → lo ≤ℤ t → max_ℤ t lo ≡ t
at_least t lo h = elim (Bool-cases (leb_ℤ t lo)) [
  | inl below ↦ rw below (eq_of_parts lo t (ground (arith, h, below)))
  | inr above ↦ rw above refl
]

clamped : (t lo hi : ℤ) → lo ≤ℤ t → t ≤ℤ hi → min_ℤ (max_ℤ t lo) hi ≡ t
clamped t lo hi h k =
    let within : leb_ℤ t hi ≡ true = ground (arith, k) in
    ap (λ x. min_ℤ x hi) (at_least t lo h) ∙ rw within refl

late_button :
    (f g : Feed)
    → g.source ≡ f.source
    → at_live g ≡ false
    → last_button g ≡ (
        if is_live f.source
        then back_to_live (
            let late = max_ℤ (pos 0) (last_at g -ℤ g.vt) in
            if ltb_ℤ (ms 1_500) late then some (clock late) else none)
        else restart)
late_button f g same not_live = elim (Bool-cases (is_live f.source)) [
  | inl live ↦ rw (not_live, same, live) refl
  | inr replay ↦ rw (same, replay) refl
]

scrubbed :
    (t : ℤ) (f g : Feed)
    → IsMoved t f g
    → min_ℤ (max_ℤ t (first_at f)) (last_at f) ≡ t
    → t ≢ pos 0
    → 2 ≤ length f.frames
    → IsScrubbed t f (shown g)
unfolding shown
scrubbed t f g h in_range some_time enough =
    let vt = h.vt ∙ in_range in
    let same = h.frames in
    let many : ltb (length f.frames) 2 ≡ false = ground (arith, enough) in
    record {
      least = ap first_of same;
      most = ap (λ x. first_of x +ℤ max_ℤ (last_of x -ℤ first_of x) (ms 1)) same;
      value = rw (vt, nonzero t some_time) refl;
      position = rw (vt, same, many, h.not_live) refl;
      last_button = late_button f g h.source h.not_live ∙ rw (vt, same) refl;
    }

-- Whatever control is used, the controls then show it: the first button turns from one symbol to the other
-- and "Step" may be pressed exactly in a pause; "Step" leaves a pause; of the speeds the chosen one is
-- checked and no other; the last button leads to a live source that is shown as live, or to a recording that
-- is played; and a moved slider keeps its bounds.
pub apply-IsShown : (c : Control) (now : ℤ) (f : Feed) → IsShown c f (shown (apply c now f))
unfolding apply toggle_play
apply-IsShown (to_time t) now f = time-IsShown t now f
apply-IsShown to_live now f = live-IsShown now f
apply-IsShown to_toggle now f = toggle-IsShown f.clock_mode now f refl
apply-IsShown (to_speed s) now f = speed-IsShown s now f
apply-IsShown to_step now f = step-IsShown now f

-- A slider that is moved to a time of the frames, of which there are at least two, stays where it was put: it
-- shows that time, in the bounds that it had, in whatever mode the clock was, and the text says how far it
-- is from the first frame. A live page can then go back, and is told how late it is from 1.5 seconds on. The
-- time 0, at which the source shows the first frame's time, is excepted.
pub seek-IsScrubbed :
    (t now : ℤ) (f : Feed)
    → first_at f ≤ℤ t
    → t ≤ℤ last_at f
    → t ≢ pos 0
    → 2 ≤ length f.frames
    → IsScrubbed t f (shown (seek t now f))
seek-IsScrubbed t now f after before some_time enough =
    scrubbed t f (seek t now f) (seek-IsMoved t now f)
      (clamped t (first_at f) (last_at f) after before) some_time enough
