-- ===== src/Scope/Order.antt =====
-- How the stage of a packet of web/src/components/Scope.tsx moves with its progress.
use native.Mathlib.Nat.{mul-le-mul_right}
use market_sandbox.Prelude.{
  ℕ, ◌≤◌, ◌≡◌, Bool, true, arith, if◌then◌else◌, ℤ, pos, negsuc, ◌≤ℤ◌, ◌<ℤ◌, *ℤ_pos_mono,
}
use market_sandbox.Wire.{WireBatch}
use market_sandbox.Scope.Stages.{boundaries-IsLaidOut}
use market_sandbox.Scope.{boundaries, Boundaries, Progress, before, stage_at}

-- The boundaries come one after the other.
pub record IsOrdered (s : Boundaries) : Type 0 where
  pub first : s.s0 ≤ s.s1
  pub second : s.s1 ≤ s.s2
  pub third : s.s2 ≤ s.s3

pub boundaries-IsOrdered : (f : WireBatch) → IsOrdered (boundaries f)
boundaries-IsOrdered f =
    let h = boundaries-IsLaidOut f in
    record {
      first = omega (arith, h.handler);
      second = omega (arith, h.queue);
      third = omega (arith, h.matching);
    }

-- What is not yet at a boundary is not at a later one.
pub before_later :
    (p : Progress) (a b whole : ℕ) → a ≤ b → before p a whole ≡ true → before p b whole ≡ true
before_later p a b whole h e = let scaled = mul-le-mul_right p.den h in ground arith

-- What was before a boundary later was before it earlier.
before_earlier :
    (p q : Progress) (a whole : ℕ)
    → p.den ≡ q.den
    → p.num ≤ℤ q.num
    → before q a whole ≡ true
    → before p a whole ≡ true
before_earlier p q a whole same h e =
    let scaled = *ℤ_pos_mono p.num q.num whole h in rw same (ground arith)

-- The stage by the four tests.
abbrev pub stage_of : Bool → Bool → Bool → Bool → ℤ
stage_of b0 b1 b2 b3 =
    if b0 then negsuc 0 else if b1 then pos 0 else if b2 then pos 1 else if b3 then pos 2 else pos 3

stage_of_mono :
    (a0 a1 a2 a3 b0 b1 b2 b3 : Bool)
    → (b0 ≡ true → a0 ≡ true)
    → (b1 ≡ true → a1 ≡ true)
    → (b2 ≡ true → a2 ≡ true)
    → (b3 ≡ true → a3 ≡ true)
    → stage_of a0 a1 a2 a3 ≤ℤ stage_of b0 b1 b2 b3
stage_of_mono a0 a1 a2 a3 b0 b1 b2 b3 h0 h1 h2 h3 = ground arith

-- A packet never goes back to an earlier stage.
pub stage_mono :
    (s : Boundaries) (p q : Progress)
    → p.den ≡ q.den
    → p.num ≤ℤ q.num
    → stage_at s p ≤ℤ stage_at s q
unfolding stage_at
stage_mono s p q same h =
    let past = λ (a : ℕ). before_earlier p q a s.whole same h in
    stage_of_mono _ _ _ _ _ _ _ _ (past s.s0) (past s.s1) (past s.s2) (past s.s3)

stage_of_low :
    (b0 b1 b2 b3 : Bool)
    → (b0 ≡ true → b3 ≡ true)
    → (b1 ≡ true → b3 ≡ true)
    → (b2 ≡ true → b3 ≡ true)
    → stage_of b0 b1 b2 b3 <ℤ pos 3
    → b3 ≡ true
stage_of_low b0 b1 b2 b3 h0 h1 h2 low = ground arith

-- A packet before the last stage is before the last boundary.
pub stage_low :
    (s : Boundaries) (p : Progress)
    → IsOrdered s
    → stage_at s p <ℤ pos 3
    → before p s.s3 s.whole ≡ true
unfolding stage_at
stage_low s p h low =
    let third = h.third in
    let second = h.second in
    let first = h.first in
    let up = λ (a : ℕ) (le : a ≤ s.s3). before_later p a s.s3 s.whole le in
    stage_of_low _ _ _ _ (up s.s0 (omega arith)) (up s.s1 (omega arith)) (up s.s2 (omega arith)) low
