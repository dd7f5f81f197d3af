-- ===== src/Scope.antt =====
-- web/src/components/Scope.tsx: the animation of orders on their way through the exchange, without its
-- drawing. A position on the way is a fraction: of `whole` for the boundaries, and a Progress for a packet.
-- A duration is a fraction, too: 2600 / speed is `span` over `rate`, with the speed in quarters.
pub mod Stages
pub mod Order
pub mod Spotlight
pub mod Flight
pub mod Queue
pub mod Pick
pub mod Slots
pub mod Draw
pub mod Heads
pub mod Drawn
pub mod Tests
use market_sandbox.Prelude.{
  ℕ, zero, suc, ◌+◌, ◌-◌, ◌*◌, Option, none, some, List, [], ◌∷◌, ◌++◌, length, Bool, true, false,
  not, ◌&&◌, ◌||◌, if◌then◌else◌, ltb, leb, ℤ, pos, negsuc, pos_part, ◌+ℤ◌, ◌-ℤ◌, ◌*ℤ◌, ltb_ℤ,
  leb_ℤ, eq_ℤ, String, String_discrete, min,
}
use market_sandbox.JsMap
use market_sandbox.JsMap.{JsMap}
use market_sandbox.Wire.{Frame, WireBatch, WireTrade, of_batch, of_book}
use market_sandbox.Feed.{Feed, tick, take_new}

-- The tuple `s` of a packet.
pub record Boundaries : Type 0 where
  pub whole : ℕ
  pub s0 : ℕ
  pub s1 : ℕ
  pub s2 : ℕ
  pub s3 : ℕ

-- `Math.max(v, 1)`
abbrev pub at_least_one : ℤ → ℕ
at_least_one (pos (suc n)) = suc n
at_least_one _ = 1

abbrev pub layout : ℕ → ℕ → ℕ → Boundaries
layout d1 d2 d3 =
    let tot = d1 + d2 + d3 in
    let s0 = 12 * tot in
    let s1 = s0 + 8 * tot + 26 * d1 in
    let s2 = s1 + 8 * tot + 26 * d2 in
    let s3 = s2 + 8 * tot + 26 * d3 in
    record { whole = 100 * tot; s0 = s0; s1 = s1; s2 = s2; s3 = s3 }

unfoldable pub boundaries : WireBatch → Boundaries
boundaries f =
    layout (at_least_one f.trace.enqueue) (at_least_one (f.trace.dequeue -ℤ f.trace.enqueue))
      (at_least_one (f.trace.match_done -ℤ f.trace.dequeue))

pub record Progress : Type 0 where
  pub num : ℤ
  pub den : ℕ

-- `p < s`, for a boundary `s` out of `whole`.
abbrev pub before : Progress → ℕ → ℕ → Bool
before p s whole = ltb_ℤ (p.num *ℤ pos whole) (pos (s * p.den))

-- `stageAt`
unfoldable pub stage_at : Boundaries → Progress → ℤ
stage_at s p =
    if before p s.s0 s.whole
    then negsuc 0
    else if before p s.s1 s.whole
    then pos 0
    else if before p s.s2 s.whole
    then pos 1
    else if before p s.s3 s.whole
    then pos 2
    else pos 3

pub record SpotState : Type 0 where
  pub frame : WireBatch
  pub p : Progress

pub record Packet : Type 0 where
  pub f : WireBatch
  pub start : ℤ
  pub span : ℕ
  pub rate : ℕ
  pub spot : Bool
  pub s : Boundaries

-- `(now - p.start) / p.dur`
abbrev pub progress : ℤ → Packet → Progress
progress now p = record { num = (now -ℤ p.start) *ℤ pos p.rate; den = p.span }
