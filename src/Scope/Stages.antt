-- ===== src/Scope/Stages.antt =====
-- The boundaries of the stages in web/src/components/Scope.tsx.
use market_sandbox.Prelude.{
  ℕ, zero, suc, ◌+◌, ◌-◌, ◌*◌, ◌<◌, ◌≡◌, ap, sym, ◌∙◌, arith, ℤ, pos, negsuc, ◌-ℤ◌,
}
use market_sandbox.Wire.{WireBatch}
use market_sandbox.Scope.{Boundaries, at_least_one, layout, boundaries}

-- Four stages in order, with at least 8 percent of the way for the second to the fourth.
pub record IsLaidOut (d1 d2 d3 : ℕ) (s : Boundaries) : Type 0 where
  pub some_way : 0 < s.whole
  pub start : 100 * s.s0 ≡ 12 * s.whole
  pub handler : 100 * s.s0 + 8 * s.whole < 100 * s.s1
  pub queue : 100 * s.s1 + 8 * s.whole < 100 * s.s2
  pub matching : 100 * s.s2 + 8 * s.whole < 100 * s.s3
  pub reply : 100 * s.s3 ≡ 62 * s.whole
  pub handler_queue :
      d2 * (100 * s.s1 - 100 * s.s0 - 8 * s.whole) ≡ d1 * (100 * s.s2 - 100 * s.s1 - 8 * s.whole)
  pub queue_matching :
      d3 * (100 * s.s2 - 100 * s.s1 - 8 * s.whole) ≡ d2 * (100 * s.s3 - 100 * s.s2 - 8 * s.whole)

pub at_least_one-pos : (v : ℤ) → 0 < at_least_one v
at_least_one-pos (pos zero) = omega arith
at_least_one-pos (pos (suc n)) = omega arith
at_least_one-pos (negsuc n) = omega arith

shares : (a b : ℕ) → b * (2600 * a) ≡ a * (2600 * b)
shares a b = omega arith

pub layout-IsLaidOut :
    (d1 d2 d3 : ℕ) → 0 < d1 → 0 < d2 → 0 < d3 → IsLaidOut d1 d2 d3 (layout d1 d2 d3)
layout-IsLaidOut d1 d2 d3 h1 h2 h3 =
    let s = layout d1 d2 d3 in
    let first : 100 * s.s1 - 100 * s.s0 - 8 * s.whole ≡ 2600 * d1 = omega arith in
    let second : 100 * s.s2 - 100 * s.s1 - 8 * s.whole ≡ 2600 * d2 = omega arith in
    let third : 100 * s.s3 - 100 * s.s2 - 8 * s.whole ≡ 2600 * d3 = omega arith in
    record {
      some_way = omega arith;
      start = omega arith;
      handler = omega arith;
      queue = omega arith;
      matching = omega arith;
      reply = omega arith;
      handler_queue = ap (◌*◌ d2) first ∙ shares d1 d2 ∙ ap (◌*◌ d1) (sym second);
      queue_matching = ap (◌*◌ d3) second ∙ shares d2 d3 ∙ ap (◌*◌ d2) (sym third);
    }

-- The boundaries of every batch, whatever its times: the first stage starts at 12 percent of the way and
-- the last ends at 62 percent; the three stages between get more than 8 percent each, and what each gets
-- beyond that is in proportion to the time measured for it, of which at least 1 is counted.
pub boundaries-IsLaidOut :
    (f : WireBatch)
    → IsLaidOut
        (at_least_one f.trace.enqueue)
        (at_least_one (f.trace.dequeue -ℤ f.trace.enqueue))
        (at_least_one (f.trace.match_done -ℤ f.trace.dequeue))
        (boundaries f)
unfolding boundaries
boundaries-IsLaidOut f =
    layout-IsLaidOut (at_least_one f.trace.enqueue) _ _ (at_least_one-pos _) (at_least_one-pos _)
      (at_least_one-pos _)
