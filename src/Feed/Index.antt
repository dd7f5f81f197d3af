-- ===== src/Feed/Index.antt =====
-- The binary search `indexAt` of web/src/feed.ts.
use market_sandbox.Prelude.{
  subst, ℕ, zero, suc, ◌+◌, ◌-◌, ◌/◌, ◌≤◌, ◌<◌, ◌≡◌, refl, sym, ap, ◌∙◌, inl, inr, Option, none,
  some, List, [], ◌∷◌, All, length, get_elem?, get_elem?_of-lt, get_elem?_of-le, true, false,
  count_to-pred_ℤ, Bool-cases, arith, leb, ℤ, negsuc, pred_ℤ, count_to, leb_ℤ, ◌≤ℤ◌, ◌<ℤ◌,
}
use market_sandbox.Wire.{Frame, frame_at}
use market_sandbox.Feed.{index_loop, index_in}

-- The first `c` frames are at or before a time, and the others after it.
abbrev pub Splits : List Frame → ℤ → ℕ → Type 0
Splits frames vt c =
    (j : ℕ) (f : Frame)
    → get_elem? frames j ≡ some f
    → (j < c → frame_at f ≤ℤ vt) × (c ≤ j → vt <ℤ frame_at f)

-- Frames stand in the order of their times.
abbrev pub IsSorted : List Frame → Type 0
IsSorted [] = Unit
IsSorted (f ∷ fs) = All (λ g. frame_at f ≤ℤ frame_at g) fs × IsSorted fs

All-get :
    (P : Frame → Type 0) (xs : List Frame) (i : ℕ) (f : Frame)
    → All P xs
    → get_elem? xs i ≡ some f
    → P f
All-get P [] i f h e = cc
All-get P (x ∷ xs) zero f h e = subst P (let q : x ≡ f = cc in q) h.0
All-get P (x ∷ xs) (suc i) f h e = All-get P xs i f h.1 e

sorted_le :
    (xs : List Frame) (i j : ℕ) (f g : Frame)
    → IsSorted xs
    → get_elem? xs i ≡ some f
    → get_elem? xs j ≡ some g
    → i ≤ j
    → frame_at f ≤ℤ frame_at g
sorted_le [] i j f g s e k h = cc
sorted_le (x ∷ xs) zero zero f g s e k h = ground arith
sorted_le (x ∷ xs) zero (suc j) f g s e k h =
    subst (λ y. frame_at y ≤ℤ frame_at g) (let q : x ≡ f = cc in q) (All-get _ xs j g s.0 k)
sorted_le (x ∷ xs) (suc i) zero f g s e k h = absurd (omega arith)
sorted_le (x ∷ xs) (suc i) (suc j) f g s e k h = sorted_le xs i j f g s.1 e k (omega arith)

module _ (frames : List Frame) (vt : ℤ) where
  abbrev Below : ℕ → Type 0
  Below lo = (j : ℕ) (f : Frame) → get_elem? frames j ≡ some f → j < lo → frame_at f ≤ℤ vt

  abbrev Above : ℕ → Type 0
  Above end = (j : ℕ) (f : Frame) → get_elem? frames j ≡ some f → end ≤ j → vt <ℤ frame_at f

  -- What the loop returns from `lo` and `end`, the first index above `hi`.
  record Found (lo end : ℕ) (result : Option ℤ) : Type 0 where
    count : ℕ
    returned : result ≡ some (pred_ℤ count)
    inside : count ≤ length frames
    splits : IsSorted frames → Below lo → Above end → Splits frames vt count

  raise_lo :
      {r : Option ℤ} (mid end : ℕ) (lo : ℕ) (x : Frame)
      → get_elem? frames mid ≡ some x
      → leb_ℤ (frame_at x) vt ≡ true
      → Found (suc mid) end r
      → Found lo end r
  raise_lo mid end lo x e t w = record {
    count = w.count;
    returned = w.returned;
    inside = w.inside;
    splits = λ s b a. w.splits s (λ j f g h. ground (arith, sorted_le frames j mid f x s g e)) a;
  }

  lower_end :
      {r : Option ℤ} (mid end : ℕ) (lo : ℕ) (x : Frame)
      → get_elem? frames mid ≡ some x
      → leb_ℤ (frame_at x) vt ≡ false
      → Found lo mid r
      → Found lo end r
  lower_end mid end lo x e t w = record {
    count = w.count;
    returned = w.returned;
    inside = w.inside;
    splits = λ s b a. w.splits s b (λ j f g h. ground (arith, sorted_le frames mid j x f s e g));
  }

  -- The loop ends within its fuel and inside the frames, whatever their order; on sorted frames it splits
  -- them at the time.
  index_loop-Found :
      (fuel lo end : ℕ)
      → lo ≤ end
      → end ≤ length frames
      → end - lo < fuel
      → Found lo end (index_loop fuel frames vt lo (pred_ℤ end) (pred_ℤ lo))
  unfolding index_loop
  index_loop-Found zero lo end h k m = absurd (omega arith)
  index_loop-Found (suc fuel) lo zero h k m = record {
    count = lo;
    returned = refl;
    inside = omega arith;
    splits = λ s b a j f g. (b j f g, λ q. a j f g (omega arith));
  }
  index_loop-Found (suc fuel) lo (suc hi) h k m = elim (Bool-cases (leb lo hi)) [
    | inr stop ↦ rw stop (record {
      count = lo;
      returned = refl;
      inside = omega arith;
      splits = λ s b a j f g. (b j f g, λ q. a j f g (ground arith));
    })
    | inl go ↦
        let mid = (lo + hi) / 2 in
        let (x, e) = get_elem?_of-lt frames mid (ground arith) in
        elim (Bool-cases (leb_ℤ (frame_at x) vt)) [
          | inl before ↦
              rw (go, e, before)
                (raise_lo mid (suc hi) lo x e before
                  (index_loop-Found fuel (suc mid) (suc hi) (ground arith) k (ground arith)))
          | inr later ↦
              rw (go, e, later)
                (lower_end mid (suc hi) lo x e later
                  (index_loop-Found fuel lo mid (ground arith) (ground arith) (ground arith)))
        ]
  ]

search-Found :
    (frames : List Frame) (vt : ℤ)
    → Found frames vt 0
        (length frames)
        (index_loop (suc (length frames)) frames vt 0 (pred_ℤ (length frames)) (negsuc 0))
search-Found frames vt =
    index_loop-Found frames vt (suc (length frames)) 0 (length frames) (omega arith) (omega arith)
      (omega arith)

index_in-eq :
    (frames : List Frame) (vt : ℤ) → index_in frames vt ≡ pred_ℤ (search-Found frames vt).count
unfolding index_in
index_in-eq frames vt =
    ap (λ (r : Option ℤ). elim r [ none ↦ negsuc 0 | some i ↦ i ]) (search-Found frames vt).returned

index_in-count :
    (frames : List Frame) (vt : ℤ) → count_to (index_in frames vt) ≡ (search-Found frames vt).count
index_in-count frames vt = ap count_to (index_in-eq frames vt) ∙ count_to-pred_ℤ _

-- On any frames, sorted or not, the search of `indexAt` ends within its fuel, reads only inside the
-- frames, and returns at least -1 and less than the number of frames.
pub index_in_bounds :
    (frames : List Frame) (vt : ℤ)
    → (index_loop (suc (length frames)) frames vt 0 (pred_ℤ (length frames)) (negsuc 0)
        ≡ some (index_in frames vt))
      × (count_to (index_in frames vt) ≤ length frames)
index_in_bounds frames vt =
    let w = search-Found frames vt in
    (
      w.returned ∙ sym (ap some (index_in-eq frames vt)),
      omega (arith, index_in-count frames vt, w.inside),
    )

-- On frames in the order of their times `indexAt` returns the last index whose frame is not after the
-- given time: every frame up to it is at or before that time, every frame behind it later.
pub index_in-Splits :
    (frames : List Frame) (vt : ℤ)
    → IsSorted frames
    → Splits frames vt (count_to (index_in frames vt))
index_in-Splits frames vt s =
    let w = search-Found frames vt in
    rw (index_in-count frames vt) (
      w.splits s (λ j f g h. absurd (omega arith))
        (λ j f g h. let out = get_elem?_of-le frames j h in cc))
