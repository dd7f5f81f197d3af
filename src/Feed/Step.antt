-- ===== src/Feed/Step.antt =====
-- `step` of web/src/feed.ts: one order at a time.
use market_sandbox.Prelude.{ℕ, zero, suc, ◌+◌, ◌≡◌, refl, sym, List, [], ◌∷◌, ◌++◌, arith, ℤ}
use mathlib.Core.List.{append-nil}
use market_sandbox.Wire.{Frame, WireBatch, BookFrame, of_batch, of_book, frame_at}
use market_sandbox.Feed.{Feed, ClockMode, bump}
use market_sandbox.Feed.Controls.{step_loop, step}
use market_sandbox.Feed.Delivery.{undelivered}

-- What follows some book frames: a batch, or nothing.
pub data NextBatch : List Frame → ℕ → List Frame → Type 0 where
  none_left : NextBatch [] 0 []
  found : (b : WireBatch) (rest : List Frame) → NextBatch (of_batch b ∷ rest) 1 (of_batch b ∷ [])
  skip :
      {xs : List Frame} {n : ℕ} {out : List Frame} (b : BookFrame)
      → NextBatch xs n out
      → NextBatch (of_book b ∷ xs) (suc n) out

-- The time of the last of the first `n` frames, or a time before them.
abbrev pub time_after : ℤ → ℕ → List Frame → ℤ
time_after vt zero xs = vt
time_after vt (suc n) [] = vt
time_after vt (suc n) (x ∷ xs) = time_after (frame_at x) n xs

pub record IsStep (xs : List Frame) (f : Feed) (result : Feed × List Frame) : Type 0 where
  pub passed : ℕ
  pub next : NextBatch xs passed result.1
  pub cursor : result.0.cursor ≡ f.cursor + passed
  pub forced : result.0.forced ≡ f.forced ++ result.1
  pub vt : result.0.vt ≡ time_after f.vt passed xs
  pub frames : result.0.frames ≡ f.frames
  pub mode : result.0.clock_mode ≡ f.clock_mode

pub step_loop-IsStep : (xs : List Frame) (now : ℤ) (f : Feed) → IsStep xs f (step_loop xs now f)
unfolding step_loop bump
step_loop-IsStep [] now f = record {
  passed = 0;
  next = none_left;
  cursor = omega arith;
  forced = sym (append-nil f.forced);
  vt = refl;
  frames = refl;
  mode = refl;
}
step_loop-IsStep (of_batch b ∷ xs) now f = record {
  passed = 1;
  next = found b xs;
  cursor = refl;
  forced = refl;
  vt = refl;
  frames = refl;
  mode = refl;
}
step_loop-IsStep (of_book b ∷ xs) now f =
    let w = step_loop-IsStep xs now (record f { cursor = f.cursor + 1; vt = b.at }) in
    record {
      passed = suc w.passed;
      next = skip b w.next;
      cursor = omega (arith, w.cursor);
      forced = w.forced;
      vt = w.vt;
      frames = w.frames;
      mode = w.mode;
    }

-- `step` pauses, passes over the book frames at the cursor, and stops behind the next batch, or at the
-- end if there is none. It returns that batch, hands it to the next `takeNew` as well, and shows the time
-- of the last frame that it passed.
pub step-IsStep :
    (now : ℤ) (f : Feed)
    → IsStep (undelivered f) (record f { clock_mode = ClockMode.pause }) (step now f)
unfolding step
step-IsStep now f = step_loop-IsStep (undelivered f) now (record f { clock_mode = ClockMode.pause })
