-- ===== src/Performance.antt =====
-- web/src/components/Performance.tsx: the times of the last orders, as `live` works them out.
pub mod Tests
use mathlib.Core.List.{append_assoc, append-nil}
use market_sandbox.Prelude.{
  ℕ, zero, suc, ◌+◌, ◌-◌, ◌*◌, ◌≤◌, ◌<◌, ◌≡◌, refl, sym, ap, ap₂, ◌∙◌, Option, none, some, List, [],
  ◌∷◌, ◌++◌, length, take, map, reverse, Bool-cases, inl, inr, arith, tests, ltb, if◌then◌else◌,
  All, ℤ, pos, ◌-ℤ◌, ◌≤ℤ◌, leb_ℤ, ltb_ℤ, length-append, length-map, take-nil,
}
use market_sandbox.Wire.{Frame, WireBatch, of_batch, of_book}
use market_sandbox.Inspector.{batches_of}
use market_sandbox.Derive.Percentile.{
  percentile, IsSorted, count_below, count_up_to, percentile_rank,
}

-- `sort((a, b) => a - b)`
abbrev pub insert_sorted : ℤ → List ℤ → List ℤ
insert_sorted v [] = v ∷ []
insert_sorted v (x ∷ xs) =
    let rest = insert_sorted v xs in if leb_ℤ v x then v ∷ x ∷ xs else x ∷ rest

abbrev pub sort : List ℤ → List ℤ
sort [] = []
sort (x ∷ xs) = insert_sorted x (sort xs)

-- `f.trace.promiseSet` and `f.trace.dequeue - f.trace.enqueue`
abbrev pub total_of : WireBatch → ℤ
total_of f = f.trace.promise_set

abbrev pub wait_of : WireBatch → ℤ
wait_of f = f.trace.dequeue -ℤ f.trace.enqueue

abbrev pub sample_max : ℕ
sample_max = 3000

-- The loop, over the frames from the last one on: `totals` and `waits`.
unfoldable pub live_loop : List Frame → List ℤ → List ℤ → List ℤ × List ℤ
live_loop [] totals waits = (totals, waits)
live_loop (of_book b ∷ fs) totals waits =
    let rest = live_loop fs totals waits in
    if ltb (length totals) sample_max then rest else (totals, waits)
live_loop (of_batch f ∷ fs) totals waits =
    let rest = live_loop fs (totals ++ total_of f ∷ []) (waits ++ wait_of f ∷ []) in
    if ltb (length totals) sample_max then rest else (totals, waits)

-- `none` is a read past the end of a list.
pub record Live : Type 0 where
  pub n : ℕ
  pub p50 : Option ℤ
  pub p99 : Option ℤ
  pub w50 : Option ℤ
  pub w99 : Option ℤ

unfoldable pub live : List Frame → Live
unfolding live_loop
live frames =
    let (totals, waits) = live_loop (reverse frames) [] [] in
    let sorted_totals = sort totals in
    let sorted_waits = sort waits in
    record {
      n = length sorted_totals;
      p50 = percentile sorted_totals 50;
      p99 = percentile sorted_totals 99;
      w50 = percentile sorted_waits 50;
      w99 = percentile sorted_waits 99;
    }

-- The batches that are measured: the last 3000, the newest first.
abbrev pub measured : List Frame → List WireBatch
measured frames = take sample_max (batches_of (reverse frames))

abbrev pair : List ℤ → List ℤ → List ℤ × List ℤ
pair a b = (a, b)

nothing_more : (totals waits : List ℤ) → pair totals waits ≡ pair (totals ++ []) (waits ++ [])
nothing_more totals waits = ap₂ pair (sym (append-nil totals)) (sym (append-nil waits))

live_loop-take :
    (fs : List Frame) (totals waits : List ℤ)
    → length totals ≡ length waits
    → let bs = take (sample_max - length totals) (batches_of fs) in
      live_loop fs totals waits ≡ (totals ++ map total_of bs, waits ++ map wait_of bs)
unfolding live_loop
live_loop-take [] totals waits h =
    rw (take-nil {A = WireBatch} (sample_max - length totals)) (nothing_more totals waits)
live_loop-take (of_book b ∷ fs) totals waits h =
    elim (Bool-cases (ltb (length totals) sample_max)) [
      | inl room ↦ rw room (live_loop-take fs totals waits h)
      | inr full ↦
          let e : sample_max - length totals ≡ 0 = ground arith in
          rw (full, e) (nothing_more totals waits)
    ]
live_loop-take (of_batch f ∷ fs) totals waits h =
    elim (Bool-cases (ltb (length totals) sample_max)) [
      | inl room ↦
          let totals' = totals ++ total_of f ∷ [] in
          let waits' = waits ++ wait_of f ∷ [] in
          let s1 = length-append totals (total_of f ∷ []) in
          let s2 = length-append waits (wait_of f ∷ []) in
          let e : sample_max - length totals ≡ suc (sample_max - length totals') =
            omega (tests, s1) in
          rw (room, e)
            (live_loop-take fs totals' waits' (omega arith)
              ∙ ap₂ pair (append_assoc totals _ _) (append_assoc waits _ _))
      | inr full ↦
          let e : sample_max - length totals ≡ 0 = ground arith in
          rw (full, e) (nothing_more totals waits)
    ]

-- The value at `p` percent of some numbers: at most `p` percent of them are below it, more than `p` percent
-- are not above it.
abbrev pub IsPercentile : List ℤ → ℕ → Option ℤ → Type 0
IsPercentile xs p r =
    (v : ℤ) × (r ≡ some v)
    × (100 * count_below v xs ≤ p * length xs)
    × (p * length xs < 100 * count_up_to v xs)

insert-count_below :
    (v x : ℤ) (xs : List ℤ) → count_below v (insert_sorted x xs) ≡ count_below v (x ∷ xs)
insert-count_below v x [] = refl
insert-count_below v x (y ∷ ys) = ground (arith, insert-count_below v x ys)

insert-count_up_to :
    (v x : ℤ) (xs : List ℤ) → count_up_to v (insert_sorted x xs) ≡ count_up_to v (x ∷ xs)
insert-count_up_to v x [] = refl
insert-count_up_to v x (y ∷ ys) = ground (arith, insert-count_up_to v x ys)

length-insert_sorted : (x : ℤ) (xs : List ℤ) → length (insert_sorted x xs) ≡ suc (length xs)
length-insert_sorted x [] = refl
length-insert_sorted x (y ∷ ys) = ground (arith, length-insert_sorted x ys)

insert-All :
    (a x : ℤ) (xs : List ℤ) → a ≤ℤ x → All (λ y. a ≤ℤ y) xs → All (λ y. a ≤ℤ y) (insert_sorted x xs)
insert-All a x [] h k = (h, tt)
insert-All a x (y ∷ ys) h k = elim (Bool-cases (leb_ℤ x y)) [
  | inl le ↦ rw le (h, k)
  | inr gt ↦ rw gt (k.0, insert-All a x ys h k.1)
]

weaken : (a b : ℤ) (xs : List ℤ) → a ≤ℤ b → All (λ y. b ≤ℤ y) xs → All (λ y. a ≤ℤ y) xs
weaken a b [] h k = tt
weaken a b (x ∷ xs) h k = (omega (arith, k.0), weaken a b xs h k.1)

insert-IsSorted : (x : ℤ) (xs : List ℤ) → IsSorted xs → IsSorted (insert_sorted x xs)
insert-IsSorted x [] h = (tt, tt)
insert-IsSorted x (y ∷ ys) h = elim (Bool-cases (leb_ℤ x y)) [
  | inl le ↦ let less : x ≤ℤ y = ground arith in rw le ((less, weaken x y ys less h.0), h)
  | inr gt ↦
      let more : y ≤ℤ x = ground arith in
      rw gt (insert-All y x ys more h.0, insert-IsSorted x ys h.1)
]

sort-IsSorted : (xs : List ℤ) → IsSorted (sort xs)
sort-IsSorted [] = tt
sort-IsSorted (x ∷ xs) = insert-IsSorted x (sort xs) (sort-IsSorted xs)

-- Sorting keeps the numbers that a rank is made of.
sort-counts :
    (v : ℤ) (xs : List ℤ)
    → (length (sort xs) ≡ length xs)
      × (count_below v (sort xs) ≡ count_below v xs)
      × (count_up_to v (sort xs) ≡ count_up_to v xs)
sort-counts v [] = (refl, refl, refl)
sort-counts v (x ∷ xs) =
    let (sizes, below, up) = sort-counts v xs in
    (
      length-insert_sorted x (sort xs) ∙ ap suc sizes,
      insert-count_below v x (sort xs) ∙ ap (◌+◌ (if ltb_ℤ x v then 1 else 0)) below,
      insert-count_up_to v x (sort xs) ∙ ap (◌+◌ (if leb_ℤ x v then 1 else 0)) up,
    )

sort-IsPercentile :
    (xs : List ℤ) (p : ℕ) → 0 < length xs → p < 100 → IsPercentile xs p (percentile (sort xs) p)
sort-IsPercentile xs p h k =
    let sizes = (sort-counts (pos 0) xs).0 in
    let (v, found, below, up) = percentile_rank (sort xs) p (sort-IsSorted xs) (omega arith) k in
    let counts = sort-counts v xs in
    (v, found, rw (counts.1, counts.0) at below, rw (counts.2, counts.0) at up)

-- The page shows the median and the 99th percentile, by rank, of the times inside the server and of the
-- waits in the queue, both over the last 3000 batches among the frames, or all if they are fewer; it
-- counts these, and every percentile that it shows exists if there is one.
pub live-IsPercentile :
    (frames : List Frame)
    → 0 < length (measured frames)
    → let r = live frames in
      let totals = map total_of (measured frames) in
      let waits = map wait_of (measured frames) in
      (r.n ≡ length (measured frames))
      × IsPercentile totals 50 r.p50
      × IsPercentile totals 99 r.p99
      × IsPercentile waits 50 r.w50
      × IsPercentile waits 99 r.w99
unfolding live
live-IsPercentile frames h =
    let bs = measured frames in
    let both = live_loop-take (reverse frames) [] [] refl in
    let n1 = length-map total_of bs in
    let n2 = length-map wait_of bs in
    let some_totals : 0 < length (map total_of bs) = omega arith in
    let some_waits : 0 < length (map wait_of bs) = omega arith in
    rw both (
      (sort-counts (pos 0) (map total_of bs)).0 ∙ n1,
      sort-IsPercentile (map total_of bs) 50 some_totals (omega arith),
      sort-IsPercentile (map total_of bs) 99 some_totals (omega arith),
      sort-IsPercentile (map wait_of bs) 50 some_waits (omega arith),
      sort-IsPercentile (map wait_of bs) 99 some_waits (omega arith),
    )
