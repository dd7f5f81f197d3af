-- ===== src/Workspace/Rows.antt =====
-- What the rows of web/src/components/Workspace.tsx show.
use market_sandbox.Prelude.{
  true, false, Option-cases, inl, inr, ℕ, zero, suc, ◌-◌, ◌≡◌, refl, ap, ◌∙◌, Option, none, some,
  List, [], ◌∷◌, ◌++◌, map, reverse, take, get_elem?, All, All-left, All-right, arith, ℤ, pos, ◌≤ℤ◌,
  max_ℤ,
}
use market_sandbox.Wire.{Frame, WireBatch, TopOfBook, Level, Side, of_batch, of_book, bid, ask}
use market_sandbox.Derive.{up_to, back_from}
use market_sandbox.Derive.Books.{
  book_of, book_at, book_at-LastOf, LastOf, nowhere, last, passes, last_batch_before-LastOf,
}
use market_sandbox.Derive.Stats.{OpenOrder}
use market_sandbox.Derive.Trades.{newest_first, recent_trades, recent_trades-take}
use market_sandbox.Workspace.{
  array_from, asks_of, bids_of, size, largest, row, Shown, ladder, tape_row_of, has_tob, tob_of,
  TapeShown, tape,
}

-- The first entries of a list in `n` slots, the rest of which is empty.
abbrev pub padded {ℓ} : {A : Type ℓ} → ℕ → List A → List (Option A)
padded zero xs = []
padded (suc n) [] = none ∷ padded n []
padded (suc n) (x ∷ xs) = some x ∷ padded n xs

module _ {ℓ} {A : Type ℓ} where
  array_from-nil : (n i : ℕ) → array_from n i (get_elem? {A = A} []) ≡ padded n []
  unfolding array_from
  array_from-nil zero i = refl
  array_from-nil (suc n) i = ap (◌∷◌ none) (array_from-nil n (suc i))

  array_from_shift :
      (n i : ℕ) (x : A) (xs : List A)
      → array_from n (suc i) (get_elem? (x ∷ xs)) ≡ array_from n i (get_elem? xs)
  unfolding array_from
  array_from_shift zero i x xs = refl
  array_from_shift (suc n) i x xs = ap (◌∷◌ (get_elem? xs i)) (array_from_shift n (suc i) x xs)

  array_from-padded : (n : ℕ) (xs : List A) → array_from n 0 (get_elem? xs) ≡ padded n xs
  unfolding array_from
  array_from-padded zero xs = refl
  array_from-padded (suc n) [] = ap (◌∷◌ none) (array_from-nil n 1)
  array_from-padded (suc n) (x ∷ xs) =
      ap (◌∷◌ (some x)) (array_from_shift n 0 x xs ∙ array_from-padded n xs)

array_from-map {ℓ} :
    {A B : Type ℓ} (h : A → B) (f : ℕ → A) (n i : ℕ)
    → array_from n i (λ k. h (f k)) ≡ map h (array_from n i f)
unfolding array_from
array_from-map h f zero i = refl
array_from-map h f (suc n) i = ap (◌∷◌ (h (f i))) (array_from-map h f n (suc i))

array_from_back {ℓ} :
    {A : Type ℓ} (f : ℕ → A) → array_from 8 0 (λ i. f (7 - i)) ≡ reverse (array_from 8 0 f)
unfolding array_from
array_from_back f = refl

pub largest_above : (m : ℤ) (vs : List ℤ) → m ≤ℤ largest m vs
largest_above m [] = omega arith
largest_above m (v ∷ vs) =
    let rest = largest_above (max_ℤ m v) vs in
    let here : m ≤ℤ max_ℤ m v = ground arith in omega arith

pub largest_all : (m : ℤ) (vs : List ℤ) → All (λ v. v ≤ℤ largest m vs) vs
largest_all m [] = tt
largest_all m (v ∷ vs) =
    let rest = largest_above (max_ℤ m v) vs in
    let here : v ≤ℤ max_ℤ m v = ground arith in (omega arith, largest_all (max_ℤ m v) vs)

-- The ladder of a book: the first eight levels of each side, the first ones next to the spread, with empty slots
-- around them, and every bar within the longest one.
pub record IsLadder (open_orders : List OpenOrder) (asks bids : List Level) (s : Shown)
    : Type 0 where
  pub asks_shown : s.asks ≡ reverse (map (row open_orders ask) (padded 8 (take 8 asks)))
  pub bids_shown : s.bids ≡ map (row open_orders bid) (padded 8 (take 8 bids))
  pub some_max : pos 1 ≤ℤ s.max
  pub asks_fit : All (λ v. v ≤ℤ s.max) (map size (take 8 asks))
  pub bids_fit : All (λ v. v ≤ℤ s.max) (map size (take 8 bids))

slots :
    (open_orders : List OpenOrder) (side : Side) (ls : List Level)
    → array_from 8 0 (λ i. row open_orders side (get_elem? ls i))
      ≡ map (row open_orders side) (padded 8 ls)
slots open_orders side ls =
    array_from-map (row open_orders side) (get_elem? ls) 8 0
    ∙ ap (map (row open_orders side)) (array_from-padded 8 ls)

-- The ladder shows the last book up to the index, if there is one: from the spread outwards the first
-- eight levels of each side, or all of them and empty slots after them if they are fewer. The length
-- that stands for a full bar is at least 1, and no level that is shown is larger.
pub ladder-IsLadder :
    (open_orders : List OpenOrder) (frames : List Frame) (idx : ℤ)
    → let book = book_at frames idx in
      LastOf (λ f b. book_of f ≡ some b) (λ f. book_of f ≡ none) (up_to frames idx) book
      × IsLadder open_orders (asks_of book) (bids_of book) (ladder open_orders frames idx)
unfolding ladder
ladder-IsLadder open_orders frames idx =
    let book = book_at frames idx in
    let asks = take 8 (asks_of book) in
    let bids = take 8 (bids_of book) in
    let max = largest (pos 1) (map size asks ++ map size bids) in
    let fit = largest_all (pos 1) (map size asks ++ map size bids) in
    (
      book_at-LastOf frames idx,
      record {
        asks_shown =
            array_from_back (λ i. row open_orders ask (get_elem? asks i))
            ∙ ap reverse (slots open_orders ask asks);
        bids_shown = slots open_orders bid bids;
        some_max = largest_above (pos 1) (map size asks ++ map size bids);
        asks_fit = All-left (λ v. v ≤ℤ max) (map size asks) (map size bids) fit;
        bids_fit = All-right (λ v. v ≤ℤ max) (map size asks) (map size bids) fit;
      },
    )

-- The top of book that a frame carries.
abbrev pub tob_in : Frame → Option TopOfBook
tob_in (of_batch b) = b.tob
tob_in (of_book f) = none

no_tob : (f : Frame) → passes has_tob f ≡ false → tob_in f ≡ none
no_tob (of_book f) h = refl
no_tob (of_batch b) h = elim (Option-cases b.tob) [
  | inl off ↦ off
  | inr (t, on) ↦ absurd (ground (arith, h, on))
]

no_tobs : (fs : List Frame) → All (λ f. passes has_tob f ≡ false) fs → All (λ f. tob_in f ≡ none) fs
no_tobs [] h = tt
no_tobs (f ∷ fs) h = (no_tob f h.0, no_tobs fs h.1)

tob_of-LastOf :
    (fs : List Frame) (r : Option WireBatch)
    → LastOf (λ f b. (f ≡ of_batch b) × (has_tob b ≡ true)) (λ f. passes has_tob f ≡ false) fs r
    → LastOf (λ f t. tob_in f ≡ some t) (λ f. tob_in f ≡ none) fs (tob_of r)
tob_of-LastOf fs _ (nowhere all) = nowhere (no_tobs fs all)
tob_of-LastOf fs _ (last before f after b e (is, has) all) = elim (Option-cases b.tob) [
  | inl off ↦ absurd (ground (arith, has, off))
  | inr (t, on) ↦ rw on (last before f after t e (ap tob_in is ∙ on) (no_tobs after all))
]

-- The tape at an index: the best prices of the last batch that has them, and the newest trades.
pub record IsTape (frames : List Frame) (idx : ℤ) (s : TapeShown) : Type 0 where
  pub best : LastOf (λ f t. tob_in f ≡ some t) (λ f. tob_in f ≡ none) (up_to frames idx) s.tob
  pub newest : s.rows ≡ map tape_row_of (padded 12 (take 12 (newest_first (back_from frames idx))))

-- The tape shows the best prices that the last batch up to the index with any carries, if there is one, and the
-- twelve newest of all trades up to the index, the newest first, or all of them and empty rows after them if
-- they are fewer, each marked if the human is on one of its sides.
pub tape-IsTape : (frames : List Frame) (idx : ℤ) → IsTape frames idx (tape frames idx)
unfolding tape
tape-IsTape frames idx =
    let trades = recent_trades frames idx 12 in
    record {
      best = tob_of-LastOf _ _ (last_batch_before-LastOf frames idx has_tob);
      newest =
          array_from-map tape_row_of (get_elem? trades) 12 0
          ∙ ap (map tape_row_of)
              (array_from-padded 12 trades ∙ ap (padded 12) (recent_trades-take frames idx 12));
    }
