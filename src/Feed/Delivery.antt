-- ===== src/Feed/Delivery.antt =====
-- `push` and `takeNew` of web/src/feed.ts: which frames the page's animation gets, and when.
use market_sandbox.Prelude.{
  ap₂, ℕ, ◌+◌, ◌-◌, ◌≤◌, ◌≡◌, refl, sym, ap, ◌∙◌, Option, none, some, List, [], ◌∷◌, ◌++◌, length,
  drop, length-append, length-drop, drop-drop, drop-append_of-le, Bool-cases, inl, inr, arith, ltb,
  ℤ, leb_ℤ,
}
use mathlib.Core.List.{append-nil, append_assoc}
use market_sandbox.Wire.{Frame, frame_at}
use market_sandbox.Feed.{Feed, ClockMode, max_frames, trim, push, due, deliver, take_new, limit_of}

-- The frames that `takeNew` has not handed out.
abbrev pub undelivered : Feed → List Frame
undelivered f = drop f.cursor f.frames

due-prefix :
    (limit : Option ℤ) (xs : List Frame) → due limit xs ++ drop (length (due limit xs)) xs ≡ xs
unfolding due
due-prefix limit [] = refl
due-prefix none (x ∷ xs) = ap (◌∷◌ x) (due-prefix none xs)
due-prefix (some l) (x ∷ xs) = elim (Bool-cases (leb_ℤ (frame_at x) l)) [
  | inl now ↦ rw now (ap (◌∷◌ x) (due-prefix (some l) xs))
  | inr later ↦ rw later
]

-- `push` with no backlog of more than 20,000 frames adds to what is not handed out, and loses none of it,
-- also when it drops the oldest 2,000 frames.
push-undelivered :
    (new : List Frame) (f : Feed)
    → f.cursor ≤ length f.frames
    → length (undelivered f) + length new ≤ max_frames
    → undelivered (push new f) ≡ undelivered f ++ new
unfolding push
push-undelivered new f valid small =
    let all = f.frames ++ new in
    elim (Bool-cases (ltb (max_frames + trim) (length all))) [
      | inl over ↦
          let sizes = length-append f.frames new in
          let rest = length-drop f.cursor f.frames in
          let e : trim + (f.cursor - trim) ≡ f.cursor = ground arith in
          rw over (
            drop-drop (f.cursor - trim) trim all
            ∙ ap (λ (n : ℕ). drop n all) e
            ∙ drop-append_of-le f.cursor f.frames new valid)
      | inr fits ↦ rw fits (drop-append_of-le f.cursor f.frames new valid)
    ]

pub push-cursor-le :
    (new : List Frame) (f : Feed)
    → f.cursor ≤ length f.frames
    → (push new f).cursor ≤ length (push new f).frames
unfolding push
push-cursor-le new f h =
    let all = f.frames ++ new in
    let sizes = length-append f.frames new in
    elim (Bool-cases (ltb (max_frames + trim) (length all))) [
      | inl over ↦ rw over (omega (arith, sizes, length-drop trim all))
      | inr fits ↦ rw fits (omega (arith, sizes))
    ]

push-forced : (new : List Frame) (f : Feed) → (push new f).forced ≡ f.forced
unfolding push
push-forced new f = ground arith

length-due-le : (limit : Option ℤ) (xs : List Frame) → length (due limit xs) ≤ length xs
length-due-le limit xs = omega (
  arith,
  ap length (due-prefix limit xs),
  length-append (due limit xs) (drop (length (due limit xs)) xs),
)

due_fits :
    (limit : Option ℤ) (f : Feed)
    → f.cursor ≤ length f.frames
    → f.cursor + length (due limit (undelivered f)) ≤ length f.frames
due_fits limit f h =
    omega (arith, length-due-le limit (undelivered f), length-drop f.cursor f.frames)

handed_out :
    (limit : Option ℤ) (f : Feed)
    → let new = due limit (undelivered f) in
      (f.forced ++ new) ++ drop (f.cursor + length new) f.frames ≡ f.forced ++ undelivered f
handed_out limit f =
    let new = due limit (undelivered f) in
    append_assoc f.forced new _
    ∙ ap (λ (r : List Frame). f.forced ++ (new ++ r))
        (sym (drop-drop (length new) f.cursor f.frames))
    ∙ ap (◌++◌ f.forced) (due-prefix limit (undelivered f))

deliver_split :
    (m : ClockMode) (f : Feed)
    → (deliver m f).1 ++ undelivered (deliver m f).0 ≡ f.forced ++ undelivered f
unfolding deliver
deliver_split ClockMode.pause f = refl
deliver_split ClockMode.follow f = handed_out (limit_of f) f
deliver_split ClockMode.play f = handed_out (limit_of f) f

pub deliver-rest :
    (m : ClockMode) (f : Feed)
    → f.cursor ≤ length f.frames
    → ((deliver m f).0.frames ≡ f.frames)
      × ((deliver m f).0.cursor ≤ length f.frames)
      × ((deliver m f).0.forced ≡ [])
      × (f.cursor ≤ (deliver m f).0.cursor)
unfolding deliver
deliver-rest ClockMode.pause f h = (refl, h, refl, omega arith)
deliver-rest ClockMode.follow f h = (refl, due_fits (limit_of f) f h, refl, omega arith)
deliver-rest ClockMode.play f h = (refl, due_fits (limit_of f) f h, refl, omega arith)

-- The calls that matter to the animation.
pub data Call : Type 0 where
  pushed : List Frame → Call
  taken : Call

-- A run of such calls, with all that `takeNew` returned.
unfoldable pub run : List Call → Feed → Feed × List Frame
run [] f = (f, [])
run (pushed new ∷ cs) f = run cs (push new f)
run (taken ∷ cs) f = let (g, out) = take_new f in let (h, rest) = run cs g in (h, out ++ rest)

abbrev pub all_pushed : List Call → List Frame
all_pushed [] = []
all_pushed (pushed new ∷ cs) = new ++ all_pushed cs
all_pushed (taken ∷ cs) = all_pushed cs

-- The frames that the next calls of `takeNew` are to hand out.
abbrev pub waiting : Feed → List Frame
waiting f = f.forced ++ undelivered f

take_new-waiting :
    (f : Feed)
    → f.cursor ≤ length f.frames
    → ((take_new f).1 ++ waiting (take_new f).0 ≡ waiting f)
      × ((take_new f).0.cursor ≤ length (take_new f).0.frames)
      × (length (undelivered (take_new f).0) ≤ length (undelivered f))
unfolding take_new
take_new-waiting f h =
    let (same, fits, cleared, grows) = deliver-rest f.clock_mode f h in
    let g = (deliver f.clock_mode f).0 in
    let split = deliver_split f.clock_mode f in
    (
      ap (λ (r : List Frame). (deliver f.clock_mode f).1 ++ (r ++ undelivered g)) cleared ∙ split,
      rw same fits,
      omega (arith, length-drop g.cursor g.frames, length-drop f.cursor f.frames, ap length same),
    )

-- Through any calls of `push` and `takeNew`, in every mode of the clock, the frames handed out, followed by
-- those still waiting, are those waiting at the start followed by those pushed, in order and each once,
-- provided that the frames from the cursor on and the pushed ones are at most 20,000 together: the
-- trimming of old frames loses none of them.
pub run-delivered :
    (cs : List Call) (f : Feed)
    → f.cursor ≤ length f.frames
    → length (undelivered f) + length (all_pushed cs) ≤ max_frames
    → (run cs f).1 ++ waiting (run cs f).0 ≡ waiting f ++ all_pushed cs
unfolding run
run-delivered [] f h small = sym (append-nil (waiting f))
run-delivered (pushed new ∷ cs) f h small =
    let sizes = length-append new (all_pushed cs) in
    let kept = push-undelivered new f h (omega arith) in
    let grown = length-append (undelivered f) new in
    run-delivered cs (push new f) (push-cursor-le new f h) (rw kept (omega arith))
    ∙ ap₂ (λ (a b : List Frame). (a ++ b) ++ all_pushed cs) (push-forced new f) kept
    ∙ simp append_assoc
run-delivered (taken ∷ cs) f h small =
    let (split, fits, less) = take_new-waiting f h in
    append_assoc (take_new f).1 _ _
    ∙ ap (◌++◌ (take_new f).1) (run-delivered cs (take_new f).0 fits (omega arith))
    ∙ sym (append_assoc (take_new f).1 _ _)
    ∙ ap (λ (r : List Frame). r ++ all_pushed cs) split
