-- ===== src/Transport.antt =====
-- web/src/components/Transport.tsx: the playback controls. Times are in quarters of a millisecond and speeds in quarters, as
-- in web/src/feed.ts; a text is a list of character codes.
pub mod Clock
pub mod Pressed
pub mod Tests
use market_sandbox.Prelude.{
  ℕ, ◌+◌, ◌/◌, ◌%◌, Option, none, some, List, [], ◌∷◌, ◌++◌, length, map, Bool, true, false, not,
  if◌then◌else◌, ltb, ℤ, pos, pos_part, ◌-ℤ◌, ◌+ℤ◌, eq_ℤ, ltb_ℤ, max_ℤ,
}
use market_sandbox.Decimal.{decimal, pad_start}
use market_sandbox.Feed.{Feed, ClockMode, ms, is_live, at_live, first_at, last_at}

-- SPEEDS
abbrev pub speeds : List ℤ
speeds = pos 1 ∷ pos 2 ∷ pos 4 ∷ pos 8 ∷ pos 16 ∷ []

-- `Math.max(0, Math.round(ms / 1000))`
abbrev pub seconds : ℤ → ℕ
seconds v = (pos_part v + 2_000) / 4_000

unfoldable pub clock : ℤ → List ℕ
clock v = decimal (seconds v / 60) ++ b':' ∷ pad_start 2 (decimal (seconds v % 60))

abbrev pub span : Feed → ℤ
span f = max_ℤ (last_at f -ℤ first_at f) (ms 1)

abbrev pub paused : Feed → Bool
paused f = elim f.clock_mode [ ClockMode.pause ↦ true | _ ↦ false ]

abbrev pub behind : Feed → ℤ
behind f = if is_live f.source then max_ℤ (pos 0) (last_at f -ℤ f.vt) else pos 0

-- The text after the slider.
pub data Position : Type 0 where
  waiting live : Position
  at : List ℕ → List ℕ → Position

-- The last button; the time in it is how far the page is behind.
pub data LastButton : Type 0 where
  is_at_live : LastButton
  back_to_live : Option (List ℕ) → LastButton
  restart : LastButton

-- What the controls show: the symbol of the first button, whether "Step" may be pressed, the speeds and whether each
-- is checked, the slider, the position and the last button.
pub record Shown : Type 0 where
  pub play_symbol : Bool
  pub may_step : Bool
  pub chips : List (ℤ × Bool)
  pub least : ℤ
  pub most : ℤ
  pub value : ℤ
  pub may_scrub : Bool
  pub position : Position
  pub last_button : LastButton

-- `f.vt || f.firstAt`
abbrev pub slider_value : Feed → ℤ
slider_value f = if eq_ℤ f.vt (pos 0) then first_at f else f.vt

abbrev pub position : Feed → Position
position f =
    if ltb (length f.frames) 2
    then waiting
    else if at_live f
    then live
    else at (clock (f.vt -ℤ first_at f)) (clock (span f))

abbrev pub last_button : Feed → LastButton
last_button f =
    if is_live f.source
    then (if at_live f
        then is_at_live
        else back_to_live (if ltb_ℤ (ms 1_500) (behind f) then some (clock (behind f)) else none))
    else restart

-- `Transport`
unfoldable pub shown : Feed → Shown
shown f = record {
  play_symbol = paused f;
  may_step = paused f;
  chips = map (λ s. (s, eq_ℤ f.speed s)) speeds;
  least = first_at f;
  most = first_at f +ℤ span f;
  value = slider_value f;
  may_scrub = not (ltb (length f.frames) 2);
  position = position f;
  last_button = last_button f;
}
