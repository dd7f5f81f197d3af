-- ===== src/Inspector/Row.antt =====
-- The row of the waterfall that web/src/components/Inspector.tsx highlights while the animation follows an order.
use market_sandbox.Prelude.{
  ℕ, zero, suc, ◌+◌, ◌*◌, ◌<◌, ◌≡◌, ◌≢◌, sym, ap, subst, ◌∙◌, ◌⊎◌, inl, inr, Option, none, some,
  List, [], ◌∷◌, Bool, true, not, Bool-cases, ◌||◌, if◌then◌else◌, arith, int_laws, ℤ, pos, negsuc,
  ◌-ℤ◌, ◌+ℤ◌, ◌*ℤ◌, ◌≤ℤ◌, ◌<ℤ◌, ltb_ℤ, *ℤ_pos_mono, mul_one, pos_mul, lt_of-scaled, pos_part,
  neg_part, All,
}
use market_sandbox.Wire.{WireBatch}
use market_sandbox.Scope.{Boundaries, boundaries, Progress, before, stage_at, SpotState, progress}
use market_sandbox.Scope.Stages.{IsLaidOut, boundaries-IsLaidOut}
use market_sandbox.Scope.Order.{boundaries-IsOrdered, before_later, stage_low}
use market_sandbox.Scope.Spotlight.{
  initial, followed, follow, run, IsForward, IsReported, idle, same, moved, over, run-IsReported,
}

-- `traceRow`; the last test is `p < s3 + (1 - s3) * 0.5`.
unfoldable pub trace_row : SpotState → ℕ
trace_row s =
    let b = boundaries s.frame in
    if before s.p b.s1 b.whole || before s.p b.s0 b.whole
    then 0
    else if before s.p b.s2 b.whole
    then 1
    else if before s.p b.s3 b.whole
    then 2
    else if before s.p (b.s3 + b.whole) (2 * b.whole)
    then 3
    else 4

-- The rows by the stage that the animation shows, and whether the second half of the last stage has begun.
abbrev pub row_of : ℤ → Bool → ℕ
row_of (pos (suc zero)) late = 1
row_of (pos (suc (suc zero))) late = 2
row_of (pos (suc (suc (suc n)))) late = if late then 4 else 3
row_of _ late = 0

row_of_tests :
    (b0 b1 b2 b3 late : Bool)
    → (b0 ≡ true → b1 ≡ true)
    → (if b1 || b0 then 0 else if b2 then 1 else if b3 then 2 else if late then 3 else 4)
      ≡ row_of
          (if b0
            then negsuc 0
            else if b1
            then pos 0
            else if b2
            then pos 1
            else if b3
            then pos 2
            else pos 3)
          (not late)
row_of_tests b0 b1 b2 b3 late h = ground arith

-- The row that is highlighted is that of the stage that the animation shows; the animation has one stage
-- for the last two rows, and they share it half and half.
pub trace_row-stage_at :
    (s : SpotState)
    → let b = boundaries s.frame in
      trace_row s ≡ row_of (stage_at b s.p) (not (before s.p (b.s3 + b.whole) (2 * b.whole)))
unfolding trace_row stage_at
trace_row-stage_at s =
    let b = boundaries s.frame in
    let first = (boundaries-IsOrdered s.frame).first in
    row_of_tests (before s.p b.s0 b.whole) (before s.p b.s1 b.whole) (before s.p b.s2 b.whole)
      (before s.p b.s3 b.whole) (before s.p (b.s3 + b.whole) (2 * b.whole))
      (before_later s.p b.s0 b.s1 b.whole first)

-- Times that do not go back, with less than `gap` between them.
abbrev pub IsSteady : ℕ → ℤ → List ℤ → Type 0
IsSteady gap prev [] = Unit
IsSteady gap prev (t ∷ ts) = (prev ≤ℤ t) × (t <ℤ prev +ℤ pos gap) × IsSteady gap t ts

-- The reported states are none of the last row.
abbrev pub IsNotLast : Option SpotState → Type 0
IsNotLast none = Unit
IsNotLast (some s) = trace_row s ≢ 4

lt→ltb_ℤ : (a b : ℤ) → a <ℤ b → ltb_ℤ a b ≡ true
lt→ltb_ℤ a b h = ground arith

-- A progress, in milliseconds of the 9000, at the last boundary and half way from there.
not_yet :
    (d1 d2 d3 : ℕ) (b : Boundaries) (num : ℤ)
    → IsLaidOut d1 d2 d3 b
    → before (record { num = num; den = 9000 }) b.s3 b.whole ≡ true
    → num <ℤ pos 5580
not_yet d1 d2 d3 b num h e =
    let bound : pos (b.s3 * 9000) ≡ pos 5580 *ℤ pos b.whole =
      sym (pos_mul 5580 b.whole ∙ ap pos (omega (arith, h.reply))) in
    lt_of-scaled num (pos 5580) b.whole (rw (← bound) (ground arith))

before_half :
    (d1 d2 d3 : ℕ) (b : Boundaries) (num : ℤ)
    → IsLaidOut d1 d2 d3 b
    → num ≤ℤ pos 7289
    → before (record { num = num; den = 9000 }) (b.s3 + b.whole) (2 * b.whole) ≡ true
before_half d1 d2 d3 b num h le =
    let scaled = *ℤ_pos_mono num (pos 7289) (2 * b.whole) le in
    let top = pos_mul 7289 (2 * b.whole) in
    let room : 7289 * (2 * b.whole) < (b.s3 + b.whole) * 9000 =
      omega (arith, h.reply, h.some_way) in
    lt→ltb_ℤ (num *ℤ pos (2 * b.whole)) (pos ((b.s3 + b.whole) * 9000))
      (omega (arith, scaled, ap pos_part top, ap neg_part top, room))

-- The time on the way, in milliseconds.
elapsed : (f : WireBatch) (start now : ℤ) → (progress now (followed f start)).num ≡ now -ℤ start
elapsed f start now = mul_one (now -ℤ start)

stage_top : (s : Boundaries) (p : Progress) → stage_at s p ≤ℤ pos 3
unfolding stage_at
stage_top s p = ground arith

seen_early :
    (f : WireBatch) (start t : ℤ)
    → stage_at (boundaries f) (progress t (followed f start)) <ℤ pos 3
    → t -ℤ start <ℤ pos 5580
seen_early f start t low =
    let b = boundaries f in
    let early = stage_low b (progress t (followed f start)) (boundaries-IsOrdered f) low in
    rw (elapsed f start t) at (not_yet _ _ _ b _ (boundaries-IsLaidOut f) early)

row_half :
    (b0 b1 b2 b3 : Bool)
    → ◌≢◌ {A = ℕ} (if b1 || b0 then 0 else if b2 then 1 else if b3 then 2 else 3) 4
row_half b0 b1 b2 b3 = ground arith

row_below :
    (f : WireBatch) (start prev now : ℤ)
    → prev -ℤ start <ℤ pos 5580
    → now <ℤ prev +ℤ pos 1710
    → trace_row (record { frame = f; p = progress now (followed f start) }) ≢ 4
unfolding trace_row
row_below f start prev now h gap =
    let b = boundaries f in
    let p = progress now (followed f start) in
    let near : now -ℤ start ≤ℤ pos 7289 = omega int_laws in
    let half = before_half _ _ _ b p.num (boundaries-IsLaidOut f) (rw (elapsed f start now) near) in
    rw half (
      row_half (before p b.s0 b.whole) (before p b.s1 b.whole) (before p b.s2 b.whole)
        (before p b.s3 b.whole))

-- Before the last stage was reported, the way is not at the last boundary.
abbrev IsEarly : ℤ → ℤ → ℤ → Type 0
IsEarly start k prev = (prev -ℤ start <ℤ pos 5580) ⊎ (pos 3 ≤ℤ k)

seen-IsEarly :
    (f : WireBatch) (start now : ℤ)
    → IsEarly start (stage_at (boundaries f) (progress now (followed f start))) now
seen-IsEarly f start now =
    let st = stage_at (boundaries f) (progress now (followed f start)) in
    elim (Bool-cases (ltb_ℤ st (pos 3))) [
      | inl low ↦ let less : st <ℤ pos 3 = ground arith in inl (seen_early f start now less)
      | inr top ↦ inr (ground arith)
    ]

no_last_row :
    (f : WireBatch) (start k prev : ℤ) (ts : List ℤ) (out : List (Option SpotState))
    → IsEarly start k prev
    → IsSteady 1710 prev ts
    → IsReported (followed f start) k prev ts out
    → All IsNotLast out
no_last_row f start _ _ _ _ early h (idle k prev) = tt
no_last_row f start _ _ _ _ early h (same k prev now ts out at_k r) =
    no_last_row f start k now ts out
      (subst (λ (x : ℤ). IsEarly start x now) at_k (seen-IsEarly f start now)) h.2 r
no_last_row f start _ _ _ _ (inl early) h (moved k prev now ts out later r) = (
  row_below f start prev now early h.1,
  no_last_row f start _ now ts out (seen-IsEarly f start now) h.2 r,
)
no_last_row f start _ _ _ _ (inr top) h (moved k prev now ts out later r) =
    absurd (omega (arith, stage_top (boundaries f) (progress now (followed f start))))
no_last_row f start _ _ _ _ early h (over k prev now ts past) = (tt, tt)

IsSteady-IsForward : (gap : ℕ) (prev : ℤ) (ts : List ℤ) → IsSteady gap prev ts → IsForward prev ts
IsSteady-IsForward gap prev [] h = tt
IsSteady-IsForward gap prev (t ∷ ts) h = (h.0, IsSteady-IsForward gap t ts h.2)

-- While the page draws at least every 1,710 ms, the last row is never highlighted: no state that a new
-- spotlight reports is in the second half of the last stage, which is the stage of the publishing.
pub spotlight_skips_last_row :
    (f : WireBatch) (now : ℤ) (ts : List ℤ)
    → IsSteady 1710 now ts
    → All IsNotLast (run ts (follow f now initial)).1
spotlight_skips_last_row f now ts h =
    no_last_row f now (negsuc 1) now ts _ (inl (omega int_laws)) h
      (run-IsReported f now ts (IsSteady-IsForward 1710 now ts h))
