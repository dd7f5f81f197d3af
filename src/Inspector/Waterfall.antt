-- ===== src/Inspector/Waterfall.antt =====
-- The waterfall of web/src/components/Inspector.tsx: one bar for each stage of an order's way, in thousandths
-- of the track.
use mathlib.Core.List.{append_assoc}
use market_sandbox.Prelude.{
  ℕ, suc, ◌≡◌, refl, sym, ap, ◌∙◌, Option, none, some, List, [], ◌∷◌, ◌++◌, take, map, length,
  length-append, All-append, subst, *ℤ_parts, ◌&&◌, if◌then◌else◌, All, inl, inr, Bool-cases, arith,
  ℤ, pos, negsuc, ◌+ℤ◌, ◌*ℤ◌, ◌-ℤ◌, ◌≤ℤ◌, leb_ℤ, eq_ℤ, max_ℤ, int_laws, +ℤ_assoc,
}
use market_sandbox.Wire.{Frame, WireBatch, WireTrace}
use market_sandbox.Normalizer.{Normalizer, normalize, trace_of}
use market_sandbox.Normalizer.Raw.{RawBatch, num, or_else, empty_trace}
use market_sandbox.Inspector.{stage_durations, total, IsOrdered, recent, stage_durations-normalize}
use market_sandbox.Inspector.Row.{trace_row}
use market_sandbox.Scope.{SpotState}

abbrev pub first_of : List WireBatch → Option WireBatch
first_of [] = none
first_of (b ∷ bs) = some b

-- `cur`
abbrev pub current : Option WireBatch → List Frame → ℤ → Option WireBatch
current (some b) frames idx = some b
current none frames idx = first_of (recent frames idx)

-- `row`: the stage that is marked, or -1.
abbrev pub row : Option SpotState → Option WireBatch → ℤ
row (some s) (some b) =
    if eq_ℤ s.frame.seq b.seq && eq_ℤ s.frame.at b.at then pos (trace_row s) else negsuc 0
row _ _ = negsuc 0

-- `left` and `d` of a row of the waterfall.
pub record Bar : Type 0 where
  pub left : ℤ
  pub d : ℤ

-- `durs.map((d, i) => …)`, from `i` on.
unfoldable pub bars_from : List ℤ → ℕ → List ℤ → List Bar
bars_from durs i [] = []
bars_from durs i (d ∷ ds) = record { left = total (take i durs); d = d } ∷ bars_from durs (suc i) ds

-- The rows of the waterfall.
unfoldable pub bars : WireTrace → List Bar
unfolding bars_from stage_durations
bars t = bars_from (stage_durations t) 0 (stage_durations t)

-- The local `total`.
abbrev pub whole : WireTrace → ℤ
whole t = max_ℤ t.publish (pos 1)

-- `Math.max((d / total) * 100, 1.2)`, times 10 and times `total`.
abbrev pub width : ℤ → Bar → ℤ
width all b = max_ℤ (b.d *ℤ pos 1000) (all *ℤ pos 12)

abbrev IsNonnegative : ℤ → Type 0
IsNonnegative v = pos 0 ≤ℤ v

-- A bar on a track of the length `all`.
pub record IsOnTrack (all : ℤ) (b : Bar) : Type 0 where
  pub starts : pos 0 ≤ℤ b.left
  pub ends : b.left +ℤ b.d ≤ℤ all
  pub visible : all *ℤ pos 12 ≤ℤ width all b
  pub drawn : b.left *ℤ pos 1000 +ℤ width all b ≤ℤ all *ℤ pos 1012

max_below : (l a b c : ℤ) → l +ℤ a ≤ℤ c → l +ℤ b ≤ℤ c → l +ℤ max_ℤ a b ≤ℤ c
max_below l a b c below_a below_b = elim (Bool-cases (leb_ℤ a b)) [
  | inl less ↦ rw less below_b
  | inr more ↦ rw more below_a
]

fits :
    (all left d : ℤ)
    → pos 0 ≤ℤ left
    → pos 0 ≤ℤ d
    → left +ℤ d ≤ℤ all
    → left *ℤ pos 1000 +ℤ max_ℤ (d *ℤ pos 1000) (all *ℤ pos 12) ≤ℤ all *ℤ pos 1012
fits all left d h k e =
    let of_left = *ℤ_parts left (pos 1000) in
    let of_d = *ℤ_parts d (pos 1000) in
    let of_all = *ℤ_parts all (pos 12) in
    let of_whole = *ℤ_parts all (pos 1012) in
    max_below (left *ℤ pos 1000) (d *ℤ pos 1000) (all *ℤ pos 12) (all *ℤ pos 1012)
      (omega (int_laws, of_left, of_d, of_all, of_whole))
      (omega (int_laws, of_left, of_d, of_all, of_whole))

bar-IsOnTrack :
    (all left d : ℤ)
    → pos 0 ≤ℤ left
    → pos 0 ≤ℤ d
    → left +ℤ d ≤ℤ all
    → IsOnTrack all (record { left = left; d = d })
bar-IsOnTrack all left d h k e = record {
  starts = h;
  ends = e;
  visible = ground arith;
  drawn = fits all left d h k e;
}

take-length : (xs ys : List ℤ) → take (length xs) (xs ++ ys) ≡ xs
take-length [] ys = refl
take-length (x ∷ xs) ys = ap (◌∷◌ x) (take-length xs ys)

total_nonnegative : (xs : List ℤ) → All IsNonnegative xs → pos 0 ≤ℤ total xs
total_nonnegative [] h = omega arith
total_nonnegative (x ∷ xs) h =
    let first = h.0 in let rest = total_nonnegative xs h.1 in omega (int_laws, first, rest)

total-append : (xs ys : List ℤ) → total (xs ++ ys) ≡ total xs +ℤ total ys
total-append [] ys = omega int_laws
total-append (x ∷ xs) ys = ap (◌+ℤ◌ x) (total-append xs ys) ∙ sym (+ℤ_assoc x (total xs) (total ys))

bars_from-IsOnTrack :
    (all : ℤ) (before ds : List ℤ)
    → All IsNonnegative before
    → All IsNonnegative ds
    → total (before ++ ds) ≤ℤ all
    → All (IsOnTrack all) (bars_from (before ++ ds) (length before) ds)
unfolding bars_from
bars_from-IsOnTrack all before [] hb hd e = tt
bars_from-IsOnTrack all before (d ∷ ds) hb hd e =
    let left = total_nonnegative before hb in
    let rest = total_nonnegative ds hd.1 in
    let split : total before +ℤ total (d ∷ ds) ≤ℤ all =
      subst (λ v. v ≤ℤ all) (total-append before (d ∷ ds)) e in
    let longer : length (before ++ d ∷ []) ≡ suc (length before) =
      omega (arith, length-append before (d ∷ [])) in
    let ends : total before +ℤ d ≤ℤ all = omega (int_laws, split, rest) in
    let joined = append_assoc before (d ∷ []) ds in
    (
      rw (take-length before (d ∷ ds)) (bar-IsOnTrack all (total before) d left hd.0 ends),
      subst (λ n. All (IsOnTrack all) (bars_from (before ++ d ∷ ds) n ds)) longer
          (subst (λ l. All (IsOnTrack all) (bars_from l (length (before ++ d ∷ [])) ds)) joined
            (bars_from-IsOnTrack all (before ++ d ∷ []) ds
              (All-append IsNonnegative before (d ∷ []) hb (hd.0, tt)) hd.1 (rw joined e))),
    )

clamped : (xs : List ℤ) → All IsNonnegative (map (max_ℤ (pos 0)) xs)
clamped [] = tt
clamped (x ∷ xs) = (ground arith, clamped xs)

durations_clamped : (t : WireTrace) → All IsNonnegative (stage_durations t)
unfolding stage_durations
durations_clamped t = clamped (
    t.enqueue
    ∷ (t.dequeue -ℤ t.enqueue)
    ∷ (t.match_done -ℤ t.dequeue)
    ∷ (t.promise_set -ℤ t.match_done)
    ∷ (t.publish -ℤ t.promise_set)
    ∷ [])

max_above : (a b c : ℤ) → max_ℤ (pos 0) (a -ℤ b) ≡ c → a -ℤ b ≤ℤ max_ℤ c (pos 1)
max_above a b c e = ground (arith, e)

-- If the times in a message do not go back, the waterfall of the batch that `normalize` makes of it
-- stays on its track: no bar starts before it, none ends beyond it, and as it is drawn, at least 1.2
-- percent wide, no bar ends beyond 101.2 percent.
pub bars-IsOnTrack :
    (n : Normalizer) (raw : RawBatch) (now : ℤ)
    → IsOrdered (or_else raw.trace empty_trace)
    → let t = (normalize n raw now).1.trace in All (IsOnTrack (whole t)) (bars t)
unfolding normalize bars
bars-IsOnTrack n raw now h =
    let tr = or_else raw.trace empty_trace in
    let t = trace_of tr in
    let sum : total (stage_durations t) ≡ num tr.t_publish -ℤ num tr.t_rpc_in =
      stage_durations-normalize n raw now h in
    let below : total (stage_durations t) ≤ℤ whole t =
      subst (λ v. v ≤ℤ whole t) (sym sum)
        (max_above (num tr.t_publish) (num tr.t_rpc_in) t.publish refl) in
    bars_from-IsOnTrack (whole t) [] (stage_durations t) tt (durations_clamped t) below
