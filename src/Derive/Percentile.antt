-- ===== src/Derive/Percentile.antt =====
-- `percentile` of web/src/derive.ts, over whole percents.
use market_sandbox.Prelude.{
  ℕ, zero, suc, ◌+◌, ◌-◌, ◌*◌, ◌/◌, ◌≤◌, ◌<◌, ◌≡◌, refl, min, Option, some, List, [], ◌∷◌, All,
  length, get_elem?, get_elem?_of-lt, ltb_ℤ, leb_ℤ, if◌then◌else◌, arith, ℤ, pos, ◌≤ℤ◌,
}

-- `none` is a read past the end.
unfoldable pub percentile : List ℤ → ℕ → Option ℤ
percentile [] p = some (pos 0)
percentile (x ∷ xs) p = get_elem? (x ∷ xs) (min (length (x ∷ xs) - 1) (p * length (x ∷ xs) / 100))

abbrev pub IsSorted : List ℤ → Type 0
IsSorted [] = Unit
IsSorted (x ∷ xs) = All (λ y. x ≤ℤ y) xs × IsSorted xs

-- How many entries lie below a value, and how many do not lie above it.
abbrev pub count_below : ℤ → List ℤ → ℕ
count_below v [] = 0
count_below v (x ∷ xs) = (if ltb_ℤ x v then 1 else 0) + count_below v xs

abbrev pub count_up_to : ℤ → List ℤ → ℕ
count_up_to v [] = 0
count_up_to v (x ∷ xs) = (if leb_ℤ x v then 1 else 0) + count_up_to v xs

count_below-zero : (v : ℤ) (xs : List ℤ) → All (λ y. v ≤ℤ y) xs → count_below v xs ≡ 0
count_below-zero v [] h = refl
count_below-zero v (x ∷ xs) h = ground (arith, count_below-zero v xs h.1)

All-get : (x v : ℤ) (xs : List ℤ) (i : ℕ) → All (λ y. x ≤ℤ y) xs → get_elem? xs i ≡ some v → x ≤ℤ v
All-get x v [] i h e = cc
All-get x v (y ∷ xs) zero h e = ground arith
All-get x v (y ∷ xs) (suc i) h e = All-get x v xs i h.1 e

sorted_rank :
    (xs : List ℤ) (i : ℕ) (v : ℤ)
    → IsSorted xs
    → get_elem? xs i ≡ some v
    → (count_below v xs ≤ i) × (i < count_up_to v xs)
sorted_rank [] i v s e = cc
sorted_rank (x ∷ xs) zero v s e = ground (arith, count_below-zero v xs)
sorted_rank (x ∷ xs) (suc i) v s e = ground (arith, sorted_rank xs i v s.1, All-get x v xs i s.0)

percent_lt : (p n : ℕ) → 0 < n → p < 100 → p * n / 100 < n
percent_lt p n h q = let le : p * n ≤ 99 * n = grind arith in omega arith

-- On a sorted list that is not empty and below the hundredth percent, `percentile` reads inside the list,
-- and its result has at most `p` percent of the entries below it and more than `p` percent up to it.
pub percentile_rank :
    (xs : List ℤ) (p : ℕ)
    → IsSorted xs
    → 0 < length xs
    → p < 100
    → (v : ℤ) × (percentile xs p ≡ some v)
      × (100 * count_below v xs ≤ p * length xs)
      × (p * length xs < 100 * count_up_to v xs)
unfolding percentile
percentile_rank [] p s h q = absurd (omega arith)
percentile_rank (x ∷ xs) p s h q =
    let n = length (x ∷ xs) in
    let small : p * n / 100 < n = percent_lt p n h q in
    let e : min (n - 1) (p * n / 100) ≡ p * n / 100 = omega arith in
    let (v, found) = get_elem?_of-lt (x ∷ xs) (p * n / 100) small in
    let rank = sorted_rank (x ∷ xs) (p * n / 100) v s found in
    (v, rw e found, omega arith, omega arith)
