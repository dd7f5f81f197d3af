-- ===== src/Derive/Books.antt =====
-- `bookAt` and `lastBatchBefore` of web/src/derive.ts: the last book, and the last batch that passes a
-- test, among the frames up to an index.
use mathlib.Core.List.{append_assoc, reverse-cons, reverse-reverse}
use market_sandbox.Prelude.{
  ◌≡◌, refl, inl, inr, Bool, true, false, Option, none, some, List, [], ◌∷◌, ◌++◌, All, All-append,
  Option-cases, Bool-cases, reverse, ℤ, if◌then◌else◌,
}
use market_sandbox.Wire.{Frame, WireBatch, WireBook, of_batch, of_book}
use market_sandbox.Derive.{up_to, back_from}

-- `isBatch`
unfoldable pub is_batch : Frame → Bool
is_batch (of_batch b) = true
is_batch (of_book b) = false

-- The book that a frame carries.
abbrev pub book_of : Frame → Option WireBook
book_of (of_batch b) = b.book
book_of (of_book f) = some f.book

first_book : List Frame → Option WireBook
first_book [] = none
first_book (f ∷ fs) = elim (book_of f) [ some b ↦ some b | none ↦ first_book fs ]

pub book_at : List Frame → ℤ → Option WireBook
unfolding first_book
book_at frames idx = first_book (back_from frames idx)

first_batch : (WireBatch → Bool) → List Frame → Option WireBatch
first_batch pred [] = none
first_batch pred (of_batch b ∷ fs) = if pred b then some b else first_batch pred fs
first_batch pred (of_book b ∷ fs) = first_batch pred fs

pub last_batch_before : List Frame → ℤ → (WireBatch → Bool) → Option WireBatch
unfolding first_batch
last_batch_before frames idx pred = first_batch pred (back_from frames idx)

-- The result is what the last entry that hits gives, or none hits.
pub data LastOf {A B : Type 0} (Hit : A → B → Type 0) (Miss : A → Type 0) (xs : List A)
    : Option B → Type 0 where
  nowhere : All Miss xs → LastOf Hit Miss xs none
  last :
      (before : List A) (x : A) (after : List A) (b : B)
      → xs ≡ before ++ (x ∷ after)
      → Hit x b
      → All Miss after
      → LastOf Hit Miss xs (some b)

module _ {A B : Type 0} {Hit : A → B → Type 0} {Miss : A → Type 0} where
  LastOf-snoc :
      (xs : List A) (y : A) (r : Option B)
      → Miss y
      → LastOf Hit Miss xs r
      → LastOf Hit Miss (xs ++ y ∷ []) r
  LastOf-snoc xs y r m (nowhere all) = nowhere (All-append Miss xs (y ∷ []) all (m, tt))
  LastOf-snoc xs y r m (last before x after b e hit all) =
      last before x (after ++ y ∷ []) b (rw e (append_assoc before (x ∷ after) (y ∷ []))) hit
        (All-append Miss after (y ∷ []) all (m, tt))

  LastOf-reversed :
      (xs : List A) (r : Option B) → LastOf Hit Miss (reverse (reverse xs)) r → LastOf Hit Miss xs r
  LastOf-reversed xs r h = rw (reverse-reverse xs) at h

first_book-LastOf :
    (ys : List Frame)
    → LastOf (λ f b. book_of f ≡ some b) (λ f. book_of f ≡ none) (reverse ys) (first_book ys)
unfolding first_book
first_book-LastOf [] = nowhere tt
first_book-LastOf (f ∷ fs) = elim (Option-cases (book_of f)) [
  | inl miss ↦
      rw (miss, first_book, reverse-cons f fs)
        (LastOf-snoc (reverse fs) f (first_book fs) miss (first_book-LastOf fs))
  | inr (b, hit) ↦ rw (hit, first_book) (last (reverse fs) f [] b (reverse-cons f fs) hit tt)
]

-- `bookAt` returns the book of the last frame up to the index that carries one, and `null` exactly when
-- none of those frames does.
pub book_at-LastOf :
    (frames : List Frame) (idx : ℤ)
    → LastOf
        (λ f b. book_of f ≡ some b)
        (λ f. book_of f ≡ none)
        (up_to frames idx)
        (book_at frames idx)
unfolding book_at
book_at-LastOf frames idx = LastOf-reversed _ _ (first_book-LastOf (back_from frames idx))

-- Does a frame pass `isBatch(f) && pred(f)`?
abbrev pub passes : (WireBatch → Bool) → Frame → Bool
passes pred (of_batch b) = pred b
passes pred (of_book b) = false

first_batch-LastOf :
    (pred : WireBatch → Bool) (ys : List Frame)
    → LastOf
        (λ f b. (f ≡ of_batch b) × (pred b ≡ true))
        (λ f. passes pred f ≡ false)
        (reverse ys)
        (first_batch pred ys)
unfolding first_batch
first_batch-LastOf pred [] = nowhere tt
first_batch-LastOf pred (of_book f ∷ fs) =
    rw (reverse-cons (of_book f) fs)
      (LastOf-snoc (reverse fs) (of_book f) _ refl (first_batch-LastOf pred fs))
first_batch-LastOf pred (of_batch b ∷ fs) = elim (Bool-cases (pred b)) [
  | inl hit ↦
      rw hit (last (reverse fs) (of_batch b) [] b (reverse-cons (of_batch b) fs) (refl, hit) tt)
  | inr miss ↦
      rw (miss, reverse-cons (of_batch b) fs)
        (LastOf-snoc (reverse fs) (of_batch b) _ miss (first_batch-LastOf pred fs))
]

-- `lastBatchBefore` returns the last batch up to the index that passes the test, and `null` exactly when
-- no frame there is a batch that passes.
pub last_batch_before-LastOf :
    (frames : List Frame) (idx : ℤ) (pred : WireBatch → Bool)
    → LastOf
        (λ f b. (f ≡ of_batch b) × (pred b ≡ true))
        (λ f. passes pred f ≡ false)
        (up_to frames idx)
        (last_batch_before frames idx pred)
unfolding last_batch_before
last_batch_before-LastOf frames idx pred =
    LastOf-reversed _ _ (first_batch-LastOf pred (back_from frames idx))
