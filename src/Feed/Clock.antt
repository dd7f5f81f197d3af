-- ===== src/Feed/Clock.antt =====
-- The playback clock of web/src/feed.ts: what `tick` shows right after a control has set the anchor.
use market_sandbox.Prelude.{
  ◌≢◌, ◌⊎◌, ◌≡◌, refl, sym, subst, ap, ◌∙◌, Bool, true, false, if◌then◌else◌, Bool-cases, inl, inr,
  arith, [], length, ℤ, pos, ◌+ℤ◌, ◌-ℤ◌, ◌*ℤ◌, ◌<ℤ◌, ◌≤ℤ◌, int_laws, zero_mul, +ℤ_zero,
}
use market_sandbox.Feed.{
  Feed, Source, ClockMode, normal_speed, ms, is_over, is_caught_up, bump, first_at, last_at,
  set_follow, advance, tick,
}

-- The clock is anchored at the reading `now`.
abbrev pub IsAnchored : ℤ → Feed → Type 0
IsAnchored now f = (f.anchor.wall ≡ now) × (f.anchor.vt ≡ f.vt)

-- The time that the playing clock shows at the reading `now`.
abbrev pub reached : ℤ → Feed → ℤ
reached now f = f.anchor.vt +ℤ (now -ℤ f.anchor.wall) *ℤ f.speed

still : (vt now speed : ℤ) → vt +ℤ (now -ℤ now) *ℤ speed ≡ vt
still vt now speed =
    ap (λ (d : ℤ). vt +ℤ d *ℤ speed) (let e : now -ℤ now ≡ pos 0 = omega int_laws in e)
    ∙ ap (◌+ℤ◌ vt) (zero_mul speed)
    ∙ +ℤ_zero vt

-- What a tick shows while the clock plays, by what the clock has reached.
pub data Played (now : ℤ) (f g : Feed) : Type 0 where
  restarted :
      f.source ≡ Source.replay
      → f.frames ≢ []
      → last_at f +ℤ ms 1500 <ℤ reached now f
      → g.clock_mode ≡ f.clock_mode
      → g.vt ≡ first_at f
      → g.cursor ≡ 0
      → IsAnchored now g
      → Played now f g
  caught_up :
      f.source ≡ Source.live
      → last_at f ≤ℤ reached now f
      → g.clock_mode ≡ ClockMode.follow
      → g.speed ≡ normal_speed
      → g.vt ≡ last_at f
      → g.cursor ≡ length f.frames
      → Played now f g
  moved :
      (f.source ≡ Source.replay → (f.frames ≡ []) ⊎ (reached now f ≤ℤ last_at f +ℤ ms 1500))
      → (f.source ≡ Source.live → reached now f <ℤ last_at f)
      → g.clock_mode ≡ f.clock_mode
      → g.vt ≡ reached now f
      → g.cursor ≡ f.cursor
      → Played now f g

over_facts :
    (f : Feed) (vt : ℤ)
    → is_over f vt ≡ true
    → (f.source ≡ Source.replay) × (f.frames ≢ []) × (last_at f +ℤ ms 1500 <ℤ vt)
unfolding is_over
over_facts f vt h = ground arith

not_over_facts :
    (f : Feed) (vt : ℤ)
    → is_over f vt ≡ false
    → f.source ≡ Source.replay
    → (f.frames ≡ []) ⊎ (vt ≤ℤ last_at f +ℤ ms 1500)
unfolding is_over
not_over_facts f vt h e = ground arith

caught_up_facts :
    (f : Feed) (vt : ℤ) → is_caught_up f vt ≡ true → (f.source ≡ Source.live) × (last_at f ≤ℤ vt)
unfolding is_caught_up
caught_up_facts f vt h = ground arith

behind_facts :
    (f : Feed) (vt : ℤ) → is_caught_up f vt ≡ false → f.source ≡ Source.live → vt <ℤ last_at f
unfolding is_caught_up
behind_facts f vt h e = ground arith

advance-Played : (now : ℤ) (f : Feed) → Played now f (advance ClockMode.play now f)
unfolding advance set_follow
advance-Played now f = elim (Bool-cases (is_over f (reached now f))) [
  | inl over ↦
      let (a, b, c) = over_facts f (reached now f) over in
      rw (over, advance) (restarted a b c refl refl refl (refl, refl))
  | inr within ↦ elim (Bool-cases (is_caught_up f (reached now f))) [
    | inl up ↦
        let (a, b) = caught_up_facts f (reached now f) up in
        rw (within, up, advance) (caught_up a b refl refl refl refl)
    | inr behind ↦
        rw (within, behind, advance)
          (moved (not_over_facts f (reached now f) within) (behind_facts f (reached now f) behind)
            refl refl refl)
  ]
]

bump_if-Played :
    (b : Bool) (now : ℤ) (f g : Feed) → Played now f g → Played now f (if b then bump now g else g)
unfolding bump
bump_if-Played false now f g h = h
bump_if-Played true now f g (restarted a b c d e k l) = restarted a b c d e k l
bump_if-Played true now f g (caught_up a b c d e k) = caught_up a b c d e k
bump_if-Played true now f g (moved a b c d e) = moved a b c d e

-- While the clock plays, a tick moves it by the time since the anchor at the speed, unless that lies
-- more than 1,500 ms behind the end of a recording, which then starts again from its first frame, or
-- reaches the last frame of a live session, which is then followed.
pub tick-Played : (now : ℤ) (f : Feed) → f.clock_mode ≡ ClockMode.play → Played now f (tick now f)
unfolding tick
tick-Played now f e =
    bump_if-Played _ now f _
      (subst (λ m. Played now f (advance m now f)) (sym e) (advance-Played now f))
