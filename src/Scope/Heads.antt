-- ===== src/Scope/Heads.antt =====
-- Where web/src/components/Scope.tsx draws a packet, by its stage.
use native.Mathlib.Nat.{add-mul}
use market_sandbox.Prelude.{
  ℕ, ◌+◌, ◌-◌, ◌*◌, ◌≤◌, ◌≡◌, refl, sym, ap, ◌∙◌, subst, inl, inr, Option, none, some, Bool-cases,
  arith, int_laws, ℤ, pos, negsuc, ◌*ℤ◌, ◌≤ℤ◌, ◌<ℤ◌, *ℤ_pos_mono, zero_mul, ltb_ℤ,
}
use market_sandbox.Scope.{Boundaries, boundaries, Progress, before, stage_at, Packet, progress}
use market_sandbox.Scope.Order.{IsOrdered, boundaries-IsOrdered}
use market_sandbox.Scope.Draw.{
  Place, on_line, eased_line, door, grpc_in, queue_in, queue_out, engine, clamp01, part, head,
}

-- A part of a whole that is not all of it.
abbrev pub IsPart : Progress → Type 0
IsPart t = (pos 0 ≤ℤ t.num) × (t.num <ℤ pos t.den)

-- The place of a packet by its stage: on the line that leads through the stage, and nowhere once the reply has begun.
pub data IsHead (s : Boundaries) (p : Progress) : Option Place → Type 0 where
  coming :
      (t : Progress)
      → IsPart t
      → stage_at s p ≡ negsuc 0
      → IsHead s p (some (eased_line door grpc_in t))
  handled :
      (t : Progress)
      → IsPart t
      → stage_at s p ≡ pos 0
      → IsHead s p (some (on_line grpc_in queue_in t))
  queued :
      (t : Progress)
      → IsPart t
      → stage_at s p ≡ pos 1
      → IsHead s p (some (on_line queue_in queue_out t))
  matched :
      (t : Progress)
      → IsPart t
      → stage_at s p ≡ pos 2
      → IsHead s p (some (on_line queue_out engine t))
  replied : stage_at s p ≡ pos 3 → IsHead s p none

part-IsPart :
    (p : Progress) (lo hi whole : ℕ)
    → lo ≤ hi
    → pos (lo * p.den) ≤ℤ p.num *ℤ pos whole
    → p.num *ℤ pos whole <ℤ pos (hi * p.den)
    → IsPart (part p lo hi whole)
part-IsPart p lo hi whole le from to =
    let whole_way : hi ≡ hi - lo + lo = omega (arith, le) in
    let split : hi * p.den ≡ (hi - lo) * p.den + lo * p.den =
      ap (λ k. k * p.den) whole_way ∙ add-mul (hi - lo) lo p.den in
    (omega (int_laws, from), omega (int_laws, split, to))

from_start : (p : Progress) (whole : ℕ) → pos 0 ≤ℤ p.num → pos (0 * p.den) ≤ℤ p.num *ℤ pos whole
from_start p whole h =
    let scaled = *ℤ_pos_mono (pos 0) p.num whole h in
    let nonneg = rw (zero_mul (pos whole)) at scaled in omega (arith, nonneg)

head-IsHead : (s : Boundaries) (p : Progress) → IsOrdered s → pos 0 ≤ℤ p.num → IsHead s p (head s p)
unfolding head stage_at
head-IsHead s p o h = elim (Bool-cases (before p s.s0 s.whole)) [
  | inl b0 ↦
      let is : IsPart (part p 0 s.s0 s.whole) =
        part-IsPart p 0 s.s0 s.whole (omega arith) (from_start p s.whole h) (ground (arith, b0)) in
      rw (b0, head, stage_at) (coming _ is (rw (b0, stage_at) refl))
  | inr n0 ↦ elim (Bool-cases (before p s.s1 s.whole)) [
    | inl b1 ↦
        let is : IsPart (part p s.s0 s.s1 s.whole) =
          part-IsPart p s.s0 s.s1 s.whole o.first (ground (arith, n0)) (ground (arith, b1)) in
        rw (n0, b1, head, stage_at) (handled _ is (rw (n0, b1, stage_at) refl))
    | inr n1 ↦ elim (Bool-cases (before p s.s2 s.whole)) [
      | inl b2 ↦
          let is : IsPart (part p s.s1 s.s2 s.whole) =
            part-IsPart p s.s1 s.s2 s.whole o.second (ground (arith, n1)) (ground (arith, b2)) in
          rw (n0, n1, b2, head, stage_at) (queued _ is (rw (n0, n1, b2, stage_at) refl))
      | inr n2 ↦ elim (Bool-cases (before p s.s3 s.whole)) [
        | inl b3 ↦
            let is : IsPart (part p s.s2 s.s3 s.whole) =
              part-IsPart p s.s2 s.s3 s.whole o.third (ground (arith, n2)) (ground (arith, b3)) in
            rw (n0, n1, n2, b3, head, stage_at) (matched _ is (rw (n0, n1, n2, b3, stage_at) refl))
        | inr n3 ↦
            rw (n0, n1, n2, n3, head, stage_at) (replied (rw (n0, n1, n2, n3, stage_at) refl))
      ]
    ]
  ]
]

clamp01-nonneg : (p : Progress) → pos 0 ≤ℤ (clamp01 p).num
clamp01-nonneg p = elim (Bool-cases (ltb_ℤ p.num (pos 0))) [
  | inl below ↦ rw below (omega arith)
  | inr above ↦ elim (Bool-cases (ltb_ℤ (pos p.den) p.num)) [
    | inl over ↦ rw (above, over) (omega arith)
    | inr within ↦ rw (above, within) (ground (arith, above))
  ]
]

-- A packet with the boundaries of its order.
pub drawn_head :
    (now : ℤ) (q : Packet)
    → q.s ≡ boundaries q.f
    → IsHead q.s (clamp01 (progress now q)) (head q.s (clamp01 (progress now q)))
drawn_head now q is =
    head-IsHead q.s (clamp01 (progress now q)) (subst IsOrdered (sym is) (boundaries-IsOrdered q.f))
      (clamp01-nonneg (progress now q))
