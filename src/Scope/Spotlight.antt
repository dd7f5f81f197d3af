-- ===== src/Scope/Spotlight.antt =====
-- The order that web/src/components/Scope.tsx follows in slow motion, and what it reports to the Inspector.
use market_sandbox.Prelude.{
  ◌*◌, ◌≡◌, refl, sym, ap, ◌∙◌, ◌⊎◌, inl, inr, Option, none, some, List, [], ◌∷◌, ◌++◌, Bool, true,
  false, Bool-cases, ◌&&◌, if◌then◌else◌, arith, int_laws, ℤ, pos, negsuc, ◌-ℤ◌, ◌*ℤ◌, ◌≤ℤ◌, ◌<ℤ◌,
  leb_ℤ, eq_ℤ, eq_ℤ_refl, eq_of-eq_ℤ, *ℤ_pos_mono,
}
use market_sandbox.Wire.{WireBatch}
use market_sandbox.Scope.{Boundaries, boundaries, Progress, stage_at, SpotState, Packet, progress}
use market_sandbox.Scope.Order.{stage_mono}

-- `spotRef` and `lastSpot`, whose text is the order's number and its stage; `none` is the empty text.
pub record Spotlight : Type 0 where
  pub spot : Option Packet
  pub last_spot : Option (ℤ × ℤ)

abbrev pub initial : Spotlight
initial = record { spot = none; last_spot = none }

abbrev pub followed : WireBatch → ℤ → Packet
followed f now = record { f = f; start = now; span = 9000; rate = 1; spot = true; s = boundaries f }

-- The effect on a new `spotlightToken`.
abbrev pub follow : WireBatch → ℤ → Spotlight → Spotlight
follow f now s = record s { spot = some (followed f now) }

-- `prog >= 1.02`
abbrev pub is_over : Progress → Bool
is_over p = leb_ℤ (pos (102 * p.den)) (p.num *ℤ pos 100)

-- `key === lastSpot.current`
abbrev pub is_last : Option (ℤ × ℤ) → ℤ → ℤ → Bool
is_last none seq stage = false
is_last (some (seq', stage')) seq stage = eq_ℤ seq' seq && eq_ℤ stage' stage

-- The end of `draw`: the new state, and the calls of `onSpot`, with `none` for null.
unfoldable pub spot_step : ℤ → Spotlight → Spotlight × List (Option SpotState)
spot_step now s = elim s.spot [
  | none ↦ (s, [])
  | some p ↦
      let prog = progress now p in
      let st = stage_at p.s prog in
      if is_over prog
      then (record s { spot = none; last_spot = none }, none ∷ [])
      else if is_last s.last_spot p.f.seq st
      then (s, [])
      else (
        record s { last_spot = some (p.f.seq, st) },
        some (record { frame = p.f; p = prog }) ∷ [],
      )
]

-- The draws at some times.
unfoldable pub run : List ℤ → Spotlight → Spotlight × List (Option SpotState)
run [] s = (s, [])
run (now ∷ ts) s =
    let (s', out) = spot_step now s in let (end, later) = run ts s' in (end, out ++ later)

-- What is reported of a packet at some times after `prev`, when `k` was reported last: each new stage once,
-- with the progress at which it is first seen, and the end of the way.
pub data IsReported (p : Packet) : ℤ → ℤ → List ℤ → List (Option SpotState) → Type 0 where
  idle : (k prev : ℤ) → IsReported p k prev [] []
  same :
      (k prev now : ℤ) (ts : List ℤ) (out : List (Option SpotState))
      → stage_at p.s (progress now p) ≡ k
      → IsReported p k now ts out
      → IsReported p k prev (now ∷ ts) out
  moved :
      (k prev now : ℤ) (ts : List ℤ) (out : List (Option SpotState))
      → k <ℤ stage_at p.s (progress now p)
      → IsReported p (stage_at p.s (progress now p)) now ts out
      → IsReported p k prev (now ∷ ts) (some (record { frame = p.f; p = progress now p }) ∷ out)
  over :
      (k prev now : ℤ) (ts : List ℤ)
      → pos (102 * p.span) ≤ℤ (progress now p).num *ℤ pos 100
      → IsReported p k prev (now ∷ ts) (none ∷ [])

-- Times that do not go back.
abbrev pub IsForward : ℤ → List ℤ → Type 0
IsForward prev [] = Unit
IsForward prev (t ∷ ts) = (prev ≤ℤ t) × IsForward t ts

-- The last report of a packet: none yet, or its stage.
abbrev IsLast : Option (ℤ × ℤ) → ℤ → ℤ → Type 0
IsLast last seq k = ((last ≡ none) × (k ≡ negsuc 1)) ⊎ (last ≡ some (seq, k))

pub progress_mono : (p : Packet) (t u : ℤ) → t ≤ℤ u → (progress t p).num ≤ℤ (progress u p).num
progress_mono p t u h = *ℤ_pos_mono (t -ℤ p.start) (u -ℤ p.start) p.rate (omega int_laws)

run_quiet :
    (ts : List ℤ) (last : Option (ℤ × ℤ))
    → (run ts (record { spot = none; last_spot = last })).1 ≡ []
unfolding run spot_step
run_quiet [] last = refl
run_quiet (t ∷ ts) last = run_quiet ts last

pub stage_above : (s : Boundaries) (p : Progress) → negsuc 1 <ℤ stage_at s p
unfolding stage_at
stage_above s p = ground arith

module _ (p : Packet) (last : Option (ℤ × ℤ)) (now : ℤ) where
  abbrev lit : Spotlight
  lit = record { spot = some p; last_spot = last }

  step_over : is_over (progress now p) ≡ true → spot_step now lit ≡ (initial, none ∷ [])
  unfolding spot_step
  step_over past = rw past refl

  step_same :
      is_over (progress now p) ≡ false
      → is_last last p.f.seq (stage_at p.s (progress now p)) ≡ true
      → spot_step now lit ≡ (lit, [])
  unfolding spot_step
  step_same under seen = rw (under, seen) refl

  step_moved :
      is_over (progress now p) ≡ false
      → is_last last p.f.seq (stage_at p.s (progress now p)) ≡ false
      → spot_step now lit ≡ (
        record { spot = some p; last_spot = some (p.f.seq, stage_at p.s (progress now p)) },
        some (record { frame = p.f; p = progress now p }) ∷ [],
      )
  unfolding spot_step
  step_moved under fresh = rw (under, fresh) refl

is_last-eq :
    (last : Option (ℤ × ℤ)) (seq k st : ℤ)
    → IsLast last seq k
    → is_last last seq st ≡ true
    → (st ≡ k) × (last ≡ some (seq, k))
is_last-eq none seq k st h e = cc
is_last-eq (some (seq', st')) seq k st (inl (off, low)) e = cc
is_last-eq (some (seq', st')) seq k st (inr on) e =
    let tested : eq_ℤ st' st ≡ true = ground arith in
    let reported : (seq', st') ≡ (seq, k) = cc in
    (sym (eq_of-eq_ℤ st' st tested) ∙ ap (λ (x : ℤ × ℤ). x.1) reported, on)

is_last-lt :
    (last : Option (ℤ × ℤ)) (seq k st : ℤ)
    → IsLast last seq k
    → (last ≡ none) ⊎ (k ≤ℤ st)
    → negsuc 1 <ℤ st
    → is_last last seq st ≡ false
    → k <ℤ st
is_last-lt last seq k st (inl (off, low)) le above e = rw low above
is_last-lt last seq k st (inr on) (inl off) above e = cc
is_last-lt last seq k st (inr on) (inr le) above e =
    let other : (eq_ℤ seq seq && eq_ℤ k st) ≡ false =
      sym (ap (λ (o : Option (ℤ × ℤ)). is_last o seq st) on) ∙ e in
    ground (arith, eq_ℤ_refl seq)

no_back :
    (p : Packet) (last : Option (ℤ × ℤ)) (k prev now : ℤ)
    → (last ≡ none) ⊎ (k ≤ℤ stage_at p.s (progress prev p))
    → prev ≤ℤ now
    → (last ≡ none) ⊎ (k ≤ℤ stage_at p.s (progress now p))
no_back p last k prev now (inl off) h = inl off
no_back p last k prev now (inr le) h =
    let on = stage_mono p.s (progress prev p) (progress now p) refl (progress_mono p prev now h) in
    inr (omega arith)

run_lit :
    (ts : List ℤ) (p : Packet) (last : Option (ℤ × ℤ)) (k prev : ℤ)
    → IsLast last p.f.seq k
    → (last ≡ none) ⊎ (k ≤ℤ stage_at p.s (progress prev p))
    → IsForward prev ts
    → IsReported p k prev ts (run ts (record { spot = some p; last_spot = last })).1
unfolding run
run_lit [] p last k prev h le fwd = idle k prev
run_lit (now ∷ ts) p last k prev h le fwd =
    let st = stage_at p.s (progress now p) in
    elim (Bool-cases (is_over (progress now p))) [
      | inl past ↦
          rw (step_over p last now past, run_quiet ts none) (over k prev now ts (ground arith))
      | inr under ↦ elim (Bool-cases (is_last last p.f.seq st)) [
        | inl seen ↦
            let (at_k, on) = is_last-eq last p.f.seq k st h seen in
            rw (step_same p last now under seen) (
              same k prev now ts _ at_k
                (run_lit ts p last k now h (no_back p last k prev now le fwd.0) fwd.1))
        | inr fresh ↦
            let later =
              is_last-lt last p.f.seq k st h (no_back p last k prev now le fwd.0)
                (stage_above p.s _) fresh in
            rw (step_moved p last now under fresh) (
              moved k prev now ts _ later
                (run_lit ts p (some (p.f.seq, st)) st now (inr refl) (inr (omega arith)) fwd.1))
      ]
    ]

-- However often the page draws, at any times that do not go back, a new spotlight reports each stage of its
-- order at most once, in the order of the stages, at the first draw that sees it, and then, once the way
-- is over, its end, after which it reports nothing.
pub run-IsReported :
    (f : WireBatch) (now : ℤ) (ts : List ℤ)
    → IsForward now ts
    → IsReported (followed f now) (negsuc 1) now ts (run ts (follow f now initial)).1
run-IsReported f now ts fwd =
    run_lit ts (followed f now) none (negsuc 1) now (inl (refl, refl)) (inl refl) fwd
