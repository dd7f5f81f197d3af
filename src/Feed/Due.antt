-- ===== src/Feed/Due.antt =====
-- `takeNew` of web/src/feed.ts while the clock plays, and right after `seek`.
use market_sandbox.Prelude.{
  ℕ, ◌≤◌, ◌≡◌, refl, ap, subst, none, some, List, [], ◌∷◌, ◌++◌, All, ◌≤ℤ◌, ◌<ℤ◌, length, drop,
  drop-drop, drop_all, drop_cons_of-get, get_elem?_of-lt, Bool-cases, inl, inr, arith, ℤ, leb_ℤ,
  ltb, max_ℤ, min_ℤ, count_to,
}
use market_sandbox.Wire.{Frame, frame_at}
use market_sandbox.Feed.{
  Feed, ClockMode, bump, due, deliver, take_new, first_at, last_at, index_at, first_of, last_of,
}
use market_sandbox.Feed.Controls.{seek, seek_mode}
use market_sandbox.Feed.Index.{IsSorted, Splits, index_in-Splits, index_in_bounds}
use market_sandbox.Feed.Delivery.{undelivered}

-- The frames after the cursor once `takeNew` has been called.
pub data Rest (l : ℤ) : List Frame → Type 0 where
  done : Rest l []
  later : (x : Frame) (xs : List Frame) → l <ℤ frame_at x → Rest l (x ∷ xs)

due-all : (xs : List Frame) → due none xs ≡ xs
unfolding due
due-all [] = refl
due-all (x ∷ xs) = ap (◌∷◌ x) (due-all xs)

due_stops :
    (l : ℤ) (xs : List Frame)
    → All (λ x. frame_at x ≤ℤ l) (due (some l) xs) × Rest l (drop (length (due (some l) xs)) xs)
unfolding due
due_stops l [] = (tt, done)
due_stops l (x ∷ xs) = elim (Bool-cases (leb_ℤ (frame_at x) l)) [
  | inl now ↦ let (all, rest) = due_stops l xs in rw now ((ground arith, all), rest)
  | inr not_yet ↦ rw not_yet (tt, later x xs (ground arith))
]

-- While the clock plays, `takeNew` adds to the forced frames those from the cursor on that are not after
-- the clock, up to the first that is.
pub take_new_play :
    (f : Feed)
    → f.clock_mode ≡ ClockMode.play
    → (new : List Frame) × ((take_new f).1 ≡ f.forced ++ new)
      × All (λ x. frame_at x ≤ℤ f.vt) new
      × Rest f.vt (undelivered (take_new f).0)
unfolding take_new deliver
take_new_play f e =
    let (all, rest) = due_stops f.vt (undelivered f) in
    let new = due (some f.vt) (undelivered f) in
    (
      new,
      rw (e, deliver) refl,
      all,
      rw (e, deliver) (subst (Rest f.vt) (drop-drop (length new) f.cursor f.frames) rest),
    )

first-le-last : (fs : List Frame) → IsSorted fs → first_of fs ≤ℤ last_of fs
first-le-last [] s = omega arith
first-le-last (x ∷ []) s = omega arith
first-le-last (x ∷ y ∷ fs) s = let next = first-le-last (y ∷ fs) s.1 in omega (arith, s.0.0)

clamp_within :
    (t lo hi : ℤ) → lo ≤ℤ hi → (lo ≤ℤ min_ℤ (max_ℤ t lo) hi) × (min_ℤ (max_ℤ t lo) hi ≤ℤ hi)
clamp_within t lo hi h = ground arith

Splits-Rest :
    (fs : List Frame) (vt : ℤ) (c : ℕ) → c ≤ length fs → Splits fs vt c → Rest vt (drop c fs)
Splits-Rest fs vt c h s = elim (Bool-cases (ltb c (length fs))) [
  | inl inside ↦
      let (x, e) = get_elem?_of-lt fs c (ground arith) in
      rw (drop_cons_of-get fs c x e) (later x _ ((s c x e).1 (omega arith)))
  | inr outside ↦ rw (drop_all c fs (ground arith)) done
]

-- What `seek` leaves: the frames, a clock within them, and a cursor behind the frames that are due.
pub record IsSought (target : ℤ) (f : Feed) (frames : List Frame) (vt : ℤ) (cursor : ℕ)
    : Type 0 where
  pub kept : frames ≡ f.frames
  pub clamped : vt ≡ min_ℤ (max_ℤ target (first_at f)) (last_at f)
  pub within : (first_at f ≤ℤ vt) × (vt ≤ℤ last_at f)
  pub fits : cursor ≤ length frames
  pub passed : Splits frames vt cursor
  pub rest : Rest vt (drop cursor frames)

clamp-IsSought :
    (target : ℤ) (f : Feed)
    → IsSorted f.frames
    → let vt = min_ℤ (max_ℤ target (first_at f)) (last_at f) in
      IsSought target f f.frames vt (count_to (index_at f vt))
clamp-IsSought target f s =
    let vt = min_ℤ (max_ℤ target (first_at f)) (last_at f) in
    let bounds = index_in_bounds f.frames vt in
    let splits = index_in-Splits f.frames vt s in
    record {
      kept = refl;
      clamped = refl;
      within = clamp_within target (first_at f) (last_at f) (first-le-last f.frames s);
      fits = bounds.1;
      passed = splits;
      rest = Splits-Rest f.frames vt _ bounds.1 splits;
    }

seek_mode-IsSought :
    (m : ClockMode) (target now : ℤ) (f g : Feed)
    → IsSought target f g.frames g.vt g.cursor
    → let h = seek_mode m now g in IsSought target f h.frames h.vt h.cursor
unfolding seek_mode
seek_mode-IsSought ClockMode.follow target now f g w = w
seek_mode-IsSought ClockMode.play target now f g w = w
seek_mode-IsSought ClockMode.pause target now f g w = w

-- On frames in the order of their times `seek` sets the clock to the nearest time that the frames cover
-- and the cursor behind the last frame that is not after it, so that nothing is due until the clock moves.
pub seek-IsSought :
    (target now : ℤ) (f : Feed)
    → IsSorted f.frames
    → let g = seek target now f in IsSought target f g.frames g.vt g.cursor
unfolding seek bump
seek-IsSought target now f s =
    seek_mode-IsSought f.clock_mode target now f _ (clamp-IsSought target f s)
