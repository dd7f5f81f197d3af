-- ===== src/Inspector.antt =====
-- web/src/components/Inspector.tsx: the stages of an order's way through the exchange, and the list of
-- the last orders.
pub mod Row
pub mod Waterfall
pub mod Words
pub mod Tests
use market_sandbox.Prelude.{
  ℕ, zero, suc, ◌+◌, ◌-◌, ◌≡◌, refl, sym, ap, ap₂, ◌∙◌, Option, none, some, List, [], ◌∷◌, ◌++◌,
  length, take, map, Bool-cases, inl, inr, arith, tests, ltb, if◌then◌else◌, All, ℤ, pos, negsuc,
  ◌+ℤ◌, ◌-ℤ◌, ◌≤ℤ◌, leb_ℤ, max_ℤ, int_laws, length-append, take-nil,
}
use mathlib.Core.List.{append_assoc, append-nil}
use market_sandbox.Wire.{Frame, WireBatch, WireTrace, of_batch, of_book}
use market_sandbox.Derive.{back_from}
use market_sandbox.Normalizer.{Normalizer, normalize, trace_of, relative}
use market_sandbox.Normalizer.Raw.{RawTrace, RawBatch, num, or_else, empty_trace}

-- `stageDurations`
unfoldable pub stage_durations : WireTrace → List ℤ
stage_durations t = map (max_ℤ (pos 0)) (
    t.enqueue
    ∷ (t.dequeue -ℤ t.enqueue)
    ∷ (t.match_done -ℤ t.dequeue)
    ∷ (t.promise_set -ℤ t.match_done)
    ∷ (t.publish -ℤ t.promise_set)
    ∷ [])

abbrev pub total : List ℤ → ℤ
total [] = pos 0
total (x ∷ xs) = x +ℤ total xs

-- The clock of the exchange did not go back between two steps.
abbrev pub IsOrdered : RawTrace → Type 0
IsOrdered t =
    (num t.t_rpc_in ≤ℤ num t.t_enqueue)
    × (num t.t_enqueue ≤ℤ num t.t_dequeue)
    × (num t.t_dequeue ≤ℤ num t.t_match_done)
    × (num t.t_match_done ≤ℤ num t.t_promise_set)
    × (num t.t_promise_set ≤ℤ num t.t_publish)

-- The loop of `recent`.
unfoldable recent_loop : ℕ → List Frame → List WireBatch → List WireBatch
recent_loop max [] out = out
recent_loop max (of_book f ∷ fs) out =
    let rest = recent_loop max fs out in if ltb (length out) max then rest else out
recent_loop max (of_batch b ∷ fs) out =
    let rest = recent_loop max fs (out ++ b ∷ []) in if ltb (length out) max then rest else out

unfoldable pub recent : List Frame → ℤ → List WireBatch
unfolding recent_loop
recent frames idx = recent_loop 9 (back_from frames idx) []

-- The batches among some frames.
abbrev pub batches_of : List Frame → List WireBatch
batches_of [] = []
batches_of (of_batch b ∷ fs) = b ∷ batches_of fs
batches_of (of_book f ∷ fs) = batches_of fs

recent_loop-take :
    (max : ℕ) (fs : List Frame) (out : List WireBatch)
    → recent_loop max fs out ≡ out ++ take (max - length out) (batches_of fs)
unfolding recent_loop
recent_loop-take max [] out =
    rw (take-nil {A = WireBatch} (max - length out)) (sym (append-nil out))
recent_loop-take max (of_book f ∷ fs) out = elim (Bool-cases (ltb (length out) max)) [
  | inl room ↦ rw room (recent_loop-take max fs out)
  | inr full ↦ let e : max - length out ≡ 0 = ground arith in rw (full, e) (sym (append-nil out))
]
recent_loop-take max (of_batch b ∷ fs) out = elim (Bool-cases (ltb (length out) max)) [
  | inl room ↦
      let out' = out ++ b ∷ [] in
      let e : max - length out ≡ suc (max - length out') =
        omega (tests, length-append out (b ∷ [])) in
      rw (room, e) (recent_loop-take max fs out' ∙ append_assoc out _ _)
  | inr full ↦ let e : max - length out ≡ 0 = ground arith in rw (full, e) (sym (append-nil out))
]

-- The list of the last orders is the last nine batches up to the index, or all of them if they are
-- fewer, the newest first.
pub recent-take :
    (frames : List Frame) (idx : ℤ) → recent frames idx ≡ take 9 (batches_of (back_from frames idx))
unfolding recent
recent-take frames idx = recent_loop-take 9 (back_from frames idx) []

shift : (r a b : ℤ) → (b -ℤ r) -ℤ (a -ℤ r) ≡ b -ℤ a
shift r a b = omega int_laws

telescope :
    (r a b c d e : ℤ)
    → (a -ℤ r) +ℤ ((b -ℤ a) +ℤ ((c -ℤ b) +ℤ ((d -ℤ c) +ℤ ((e -ℤ d) +ℤ pos 0)))) ≡ e -ℤ r
telescope r a b c d e = omega int_laws

max_nonneg : (x : ℤ) → pos 0 ≤ℤ x → max_ℤ (pos 0) x ≡ x
max_nonneg x h = ground arith

-- A stage from `a` to `b`, both counted from `r`.
stage :
    (r a b : ℤ)
    → r ≤ℤ a
    → a ≤ℤ b
    → max_ℤ (pos 0) (relative r (some b) -ℤ relative r (some a)) ≡ b -ℤ a
stage r a b h k =
    ap₂ (λ (x y : ℤ). max_ℤ (pos 0) (x -ℤ y)) (max_nonneg (b -ℤ r) (omega int_laws))
      (max_nonneg (a -ℤ r) (omega int_laws))
    ∙ ap (max_ℤ (pos 0)) (shift r a b)
    ∙ max_nonneg (b -ℤ a) (omega int_laws)

total_stages :
    (r a b c d e : ℤ)
    → r ≤ℤ a
    → a ≤ℤ b
    → b ≤ℤ c
    → c ≤ℤ d
    → d ≤ℤ e
    → total (
        stage_durations (record {
          enqueue = relative r (some a);
          dequeue = relative r (some b);
          match_done = relative r (some c);
          promise_set = relative r (some d);
          publish = relative r (some e);
        }))
      ≡ e -ℤ r
unfolding stage_durations
total_stages r a b c d e ra ab bc cd de =
    let first : max_ℤ (pos 0) (relative r (some a)) ≡ a -ℤ r =
      ap (max_ℤ (pos 0)) (max_nonneg (a -ℤ r) (omega int_laws))
      ∙ max_nonneg (a -ℤ r) (omega int_laws) in
    ap₂ ◌+ℤ◌ first (
      ap₂ ◌+ℤ◌ (stage r a b ra ab) (
        ap₂ ◌+ℤ◌ (stage r b c (omega arith) bc) (
          ap₂ ◌+ℤ◌ (stage r c d (omega arith) cd)
            (ap (λ (x : ℤ). x +ℤ pos 0) (stage r d e (omega arith) de)))))
    ∙ telescope r a b c d e

-- The stages add up: if the times in a message do not go back, the five stages of the batch that
-- `normalize` makes of it together last from the call of the client to the publishing.
pub stage_durations-normalize :
    (n : Normalizer) (raw : RawBatch) (now : ℤ)
    → IsOrdered (or_else raw.trace empty_trace)
    → let t = or_else raw.trace empty_trace in
      total (stage_durations (normalize n raw now).1.trace) ≡ num t.t_publish -ℤ num t.t_rpc_in
unfolding normalize
stage_durations-normalize n raw now h =
    let t = or_else raw.trace empty_trace in
    total_stages (num t.t_rpc_in) (num t.t_enqueue) (num t.t_dequeue) (num t.t_match_done)
      (num t.t_promise_set) (num t.t_publish) h.0 h.1 h.2 h.3 h.4
