-- ===== src/Workspace/Across.antt =====
-- How far across the price chart of web/src/components/Workspace.tsx the times of a series are drawn.
use market_sandbox.Prelude.{
  inl, inr, Bool-cases, arith, int_laws, ℤ, pos, ◌+ℤ◌, ◌-ℤ◌, ◌*ℤ◌, ◌≤ℤ◌, ◌<ℤ◌, eq_ℤ, *ℤ_parts,
}
use market_sandbox.Workspace.Chart.{Coordinate, or_one, x_at}

-- A place across the plot, which reaches from 8 to 588.
pub record IsAcross (c : Coordinate) : Type 0 where
  pub some_width : pos 0 <ℤ c.den
  pub from_left : c.den *ℤ pos 8 ≤ℤ c.num
  pub to_right : c.num ≤ℤ c.den *ℤ pos 588

-- A time within a span.
abbrev pub IsWithin : ℤ → ℤ → ℤ → Type 0
IsWithin start stop t = (start ≤ℤ t) × (t ≤ℤ stop)

or_one_width : (v : ℤ) → pos 0 ≤ℤ v → (pos 0 <ℤ or_one v) × (v ≤ℤ or_one v)
or_one_width v h = elim (Bool-cases (eq_ℤ v (pos 0))) [
  | inl same ↦ rw same (omega arith, ground (arith, same))
  | inr not_same ↦ rw not_same (ground (arith, not_same, h), omega int_laws)
]

fraction-IsAcross :
    (den rest : ℤ)
    → pos 0 <ℤ den
    → pos 0 ≤ℤ rest
    → rest ≤ℤ den
    → IsAcross (record { num = den *ℤ pos 8 +ℤ rest *ℤ pos 580; den = den })
fraction-IsAcross den rest wide from to =
    let left = *ℤ_parts den (pos 8) in
    let whole = *ℤ_parts den (pos 588) in
    let part = *ℤ_parts rest (pos 580) in
    record {
      some_width = wide;
      from_left = omega (int_laws, left, part);
      to_right = omega (int_laws, left, whole, part);
    }

pub x_at-IsAcross : (start stop t : ℤ) → IsWithin start stop t → IsAcross (x_at start stop t)
unfolding x_at
x_at-IsAcross start stop t (from, to) =
    let nonneg : pos 0 ≤ℤ stop -ℤ start = omega int_laws in
    let (wide, enough) = or_one_width (stop -ℤ start) nonneg in
    let within : t -ℤ start ≤ℤ stop -ℤ start = omega int_laws in
    fraction-IsAcross (or_one (stop -ℤ start)) (t -ℤ start) wide (omega int_laws)
      (omega (arith, within, enough))
