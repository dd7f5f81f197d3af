-- ===== src/Scope/Queue.antt =====
-- The queue and the engine as web/src/components/Scope.tsx draws them.
use market_sandbox.Prelude.{
  ℕ, zero, suc, ◌+◌, ◌-◌, ◌≤◌, ◌<◌, ◌≡◌, refl, sym, ap, ap₂, subst, ◌∙◌, min, inl, inr, List, [],
  ◌∷◌, length, Bool, true, false, not, Bool-cases, ◌&&◌, ◌||◌, if◌then◌else◌, All, arith, leb, ℤ,
  pos, eq_ℤ,
}
use market_sandbox.Scope.{boundaries, before, stage_at, Packet, progress}
use market_sandbox.Scope.Order.{IsOrdered, boundaries-IsOrdered, before_later, stage_of}
use market_sandbox.Scope.Flight.{keep}

-- `e >= p.s[1] && e < p.s[2]`, and the same for the engine.
abbrev pub in_queue : ℤ → Packet → Bool
in_queue now p =
    not (before (progress now p) p.s.s1 p.s.whole) && before (progress now p) p.s.s2 p.s.whole

abbrev pub in_engine : ℤ → Packet → Bool
in_engine now p =
    not (before (progress now p) p.s.s2 p.s.whole) && before (progress now p) p.s.s3 p.s.whole

-- `inQueue` and `engineBusy`
abbrev pub queue_count : ℤ → List Packet → ℕ
queue_count now ps = length (keep (in_queue now) ps)

abbrev pub engine_busy : ℤ → List Packet → Bool
engine_busy now [] = false
engine_busy now (p ∷ ps) = in_engine now p || engine_busy now ps

-- Is the queue's slot drawn as filled?
abbrev pub is_filled : ℕ → ℕ → Bool
is_filled count i = leb (20 - min count 20) i

-- The packets at a stage.
abbrev pub at_stage : ℤ → ℤ → Packet → Bool
at_stage now st p = eq_ℤ (stage_at p.s (progress now p)) st

abbrev pub any_of : (Packet → Bool) → List Packet → Bool
any_of test [] = false
any_of test (p ∷ ps) = test p || any_of test ps

-- How many of the first `n` slots are filled.
abbrev pub filled_among : ℕ → ℕ → ℕ
filled_among count zero = 0
filled_among count (suc n) = (if is_filled count n then 1 else 0) + filled_among count n

queue_test :
    (b0 b1 b2 b3 : Bool)
    → (b0 ≡ true → b1 ≡ true)
    → (not b1 && b2) ≡ eq_ℤ (stage_of b0 b1 b2 b3) (pos 1)
queue_test b0 b1 b2 b3 h = ground arith

engine_test :
    (b0 b1 b2 b3 : Bool)
    → (b0 ≡ true → b2 ≡ true)
    → (b1 ≡ true → b2 ≡ true)
    → (not b2 && b3) ≡ eq_ℤ (stage_of b0 b1 b2 b3) (pos 2)
engine_test b0 b1 b2 b3 h k = ground arith

module _ (now : ℤ) (p : Packet) (h : IsOrdered p.s) where
  up :
      (a b : ℕ)
      → a ≤ b
      → before (progress now p) a p.s.whole ≡ true
      → before (progress now p) b p.s.whole ≡ true
  up a b le = before_later (progress now p) a b p.s.whole le

  in_queue-stage : in_queue now p ≡ at_stage now (pos 1) p
  unfolding stage_at
  in_queue-stage = queue_test _ _ _ _ (up p.s.s0 p.s.s1 h.first)

  in_engine-stage : in_engine now p ≡ at_stage now (pos 2) p
  unfolding stage_at
  in_engine-stage =
      let first = h.first in
      let second = h.second in
      engine_test _ _ _ _ (up p.s.s0 p.s.s2 (omega arith)) (up p.s.s1 p.s.s2 second)

abbrev pub IsLaidOutAll : List Packet → Type 0
IsLaidOutAll ps = All (λ p. p.s ≡ boundaries p.f) ps

ordered : (p : Packet) → p.s ≡ boundaries p.f → IsOrdered p.s
ordered p e = subst IsOrdered (sym e) (boundaries-IsOrdered p.f)

queue-stages :
    (now : ℤ) (ps : List Packet)
    → IsLaidOutAll ps
    → keep (in_queue now) ps ≡ keep (at_stage now (pos 1)) ps
queue-stages now [] h = refl
queue-stages now (p ∷ ps) h =
    ap₂ (λ (b : Bool) (rest : List Packet). if b then p ∷ rest else rest)
      (in_queue-stage now p (ordered p h.0)) (queue-stages now ps h.1)

engine-stages :
    (now : ℤ) (ps : List Packet)
    → IsLaidOutAll ps
    → engine_busy now ps ≡ any_of (at_stage now (pos 2)) ps
engine-stages now [] h = refl
engine-stages now (p ∷ ps) h =
    ap₂ ◌||◌ (in_engine-stage now p (ordered p h.0)) (engine-stages now ps h.1)

filled_among-eq : (count n : ℕ) → n ≤ 20 → filled_among count n ≡ n - (20 - min count 20)
filled_among-eq count zero h = omega arith
filled_among-eq count (suc n) h =
    let rest = filled_among-eq count n (omega arith) in
    elim (Bool-cases (is_filled count n)) [
      | inl on ↦ let le : 20 - min count 20 ≤ n = ground arith in rw on (omega arith)
      | inr off ↦ let lt : n < 20 - min count 20 = ground arith in rw off (omega arith)
    ]

-- The picture of the queue and the engine agrees with the stages that are reported: the packets counted as
-- queued are those at the stage "Queue", of the 20 slots as many are filled, or all if there are more, and the
-- engine is shown as busy if a packet is at the stage "Matching".
pub queue-stage_at :
    (now : ℤ) (ps : List Packet)
    → IsLaidOutAll ps
    → (queue_count now ps ≡ length (keep (at_stage now (pos 1)) ps))
      × (filled_among (queue_count now ps) 20 ≡ min (queue_count now ps) 20)
      × (engine_busy now ps ≡ any_of (at_stage now (pos 2)) ps)
queue-stage_at now ps h = (
  ap length (queue-stages now ps h),
  filled_among-eq (queue_count now ps) 20 (omega arith) ∙ omega arith,
  engine-stages now ps h,
)
