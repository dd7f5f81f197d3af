-- ===== src/Feed.antt =====
-- web/src/feed.ts: the page's store of frames and its playback clock. A method takes the reading of the
-- page's clock (`now`, in milliseconds, from `performance.now()`) that the source takes inside. Timeline
-- times (`vt`, `at`) are in quarters of a millisecond and speeds in quarters, so `normal_speed` is 1.
pub mod Controls
pub mod Index
pub mod Delivery
pub mod Due
pub mod Step
pub mod Clock
pub mod Anchoring
pub mod Socket
pub mod Client
pub mod Invariant
pub mod Requests
pub mod Retry
pub mod Orders
pub mod Tests
use market_sandbox.Prelude.{
  ℕ, suc, ◌+◌, ◌-◌, ◌*◌, ◌/◌, zero, Option, none, some, List, [], ◌∷◌, ◌++◌, length, get_elem?,
  drop, Bool, true, false, not, ◌&&◌, if◌then◌else◌, ltb, leb, ℤ, pos, negsuc, pred_ℤ, eq_ℤ, ltb_ℤ,
  leb_ℤ, max_ℤ, min_ℤ, ◌+ℤ◌, ◌-ℤ◌, ◌*ℤ◌, String,
}
use market_sandbox.Wire.{Frame, of_batch, of_book, frame_at, RosterEntry}

pub data Source : Type 0 where
  connecting live replay : Source

pub data ClockMode : Type 0 where
  follow play pause : ClockMode

abbrev pub max_frames : ℕ
max_frames = 20_000

-- TRIM
abbrev pub trim : ℕ
trim = 2_000

abbrev pub normal_speed : ℤ
normal_speed = pos 4

-- A number of milliseconds on the timeline.
abbrev pub ms : ℕ → ℤ
ms n = pos (4 * n)

pub record Anchor : Type 0 where
  pub wall : ℤ
  pub vt : ℤ

pub record Feed : Type 0 where
  pub frames : List Frame
  pub roster : List RosterEntry
  pub source : Source
  pub exchange_up : Bool
  pub recording : Option String
  pub clock_mode : ClockMode
  pub speed : ℤ
  pub vt : ℤ
  pub version : ℕ
  pub cursor : ℕ
  pub forced : List Frame
  pub anchor : Anchor
  pub dirty : Bool
  pub last_notify : ℤ

-- The fields of a new Feed.
abbrev pub initial : Feed
initial = record {
  frames = [];
  roster = [];
  source = Source.connecting;
  exchange_up = false;
  recording = none;
  clock_mode = ClockMode.follow;
  speed = normal_speed;
  vt = pos 0;
  version = 0;
  cursor = 0;
  forced = [];
  anchor = record { wall = pos 0; vt = pos 0 };
  dirty = false;
  last_notify = pos 0;
}

abbrev pub is_live : Source → Bool
is_live Source.live = true
is_live _ = false

abbrev pub is_replay : Source → Bool
is_replay Source.replay = true
is_replay _ = false

-- `bump`; the listeners read the state and do not change it.
unfoldable pub bump : ℤ → Feed → Feed
bump now f = record f { version = f.version + 1; last_notify = now; dirty = false }

abbrev pub first_of : List Frame → ℤ
first_of [] = pos 0
first_of (x ∷ xs) = frame_at x

abbrev pub last_of : List Frame → ℤ
last_of [] = pos 0
last_of (x ∷ []) = frame_at x
last_of (x ∷ y ∷ xs) = last_of (y ∷ xs)

-- `firstAt` and `lastAt`
abbrev pub first_at : Feed → ℤ
first_at f = first_of f.frames

abbrev pub last_at : Feed → ℤ
last_at f = last_of f.frames

-- The loop of `indexAt`, on fuel; `none` is a read outside the frames, or the end of the fuel.
unfoldable pub index_loop : ℕ → List Frame → ℤ → ℕ → ℤ → ℤ → Option ℤ
index_loop zero frames vt lo hi ans = none
index_loop (suc fuel) frames vt lo (negsuc _) ans = some ans
index_loop (suc fuel) frames vt lo (pos hi) ans =
    let mid = (lo + hi) / 2 in
    let right = index_loop fuel frames vt (suc mid) (pos hi) (pos mid) in
    let left = index_loop fuel frames vt lo (pred_ℤ mid) ans in
    let step : Option ℤ = elim (get_elem? frames mid) [
      | none ↦ none
      | some fr ↦ if leb_ℤ (frame_at fr) vt then right else left
    ] in
    if leb lo hi then step else some ans

-- `indexAt`, with more fuel than there are frames.
unfoldable pub index_in : List Frame → ℤ → ℤ
unfolding index_loop
index_in frames vt =
    elim (index_loop (suc (length frames)) frames vt 0 (pred_ℤ (length frames)) (negsuc 0)) [
      | none ↦ negsuc 0
      | some i ↦ i
    ]

abbrev pub index_at : Feed → ℤ → ℤ
index_at f vt = index_in f.frames vt

-- `atLive`
abbrev pub at_live : Feed → Bool
at_live f = is_live f.source && (elim f.clock_mode [ ClockMode.follow ↦ true | _ ↦ false ])

-- `push`
unfoldable pub push : List Frame → Feed → Feed
push new f =
    let all = f.frames ++ new in
    if ltb (max_frames + trim) (length all)
    then record f { frames = drop trim all; cursor = f.cursor - trim; dirty = true }
    else record f { frames = all; dirty = true }

unfoldable pub reset : Source → Feed → Feed
reset source f = record f { frames = []; cursor = 0; source = source; dirty = true }

-- `setFollow`
unfoldable pub set_follow : Feed → Feed
set_follow f = record f {
  clock_mode = ClockMode.follow;
  speed = normal_speed;
  vt = last_at f;
  cursor = length f.frames;
  dirty = true;
}

abbrev pub has_frames : List Frame → Bool
has_frames [] = false
has_frames (x ∷ xs) = true

-- The two tests of `tick` at the time that a playing clock has reached.
unfoldable pub is_over : Feed → ℤ → Bool
is_over f vt = is_replay f.source && has_frames f.frames && ltb_ℤ (last_at f +ℤ ms 1500) vt

unfoldable pub is_caught_up : Feed → ℤ → Bool
is_caught_up f vt = is_live f.source && leb_ℤ (last_at f) vt

-- The first `if` of `tick`, by the clock's mode.
unfoldable pub advance : ClockMode → ℤ → Feed → Feed
unfolding set_follow is_over is_caught_up
advance ClockMode.pause now f = f
advance ClockMode.follow now f =
    if eq_ℤ (last_at f) f.vt then f else record f { vt = last_at f; dirty = true }
advance ClockMode.play now f =
    let vt = f.anchor.vt +ℤ (now -ℤ f.anchor.wall) *ℤ f.speed in
    let moved = record f { vt = vt; dirty = true } in
    if is_over f vt
    then record moved {
      vt = first_at f;
      cursor = 0;
      anchor = record { wall = now; vt = first_at f };
    }
    else if is_caught_up f vt
    then set_follow moved
    else moved

unfoldable pub tick : ℤ → Feed → Feed
unfolding advance bump
tick now f =
    let g = advance f.clock_mode now f in
    if g.dirty && ltb_ℤ (pos 90) (now -ℤ g.last_notify) then bump now g else g

-- The frames that the loop of `takeNew` pushes: from the cursor while they are due; `none` is Infinity.
unfoldable pub due : Option ℤ → List Frame → List Frame
due limit [] = []
due none (x ∷ xs) = x ∷ due none xs
due (some l) (x ∷ xs) = if leb_ℤ (frame_at x) l then x ∷ due (some l) xs else []

abbrev pub limit_of : Feed → Option ℤ
limit_of f = elim f.clock_mode [ ClockMode.follow ↦ none | _ ↦ some f.vt ]

unfoldable pub deliver : ClockMode → Feed → Feed × List Frame
unfolding due
deliver ClockMode.pause f = (record f { forced = [] }, f.forced)
deliver _ f =
    let new = due (limit_of f) (drop f.cursor f.frames) in
    (record f { forced = []; cursor = f.cursor + length new }, f.forced ++ new)

-- `takeNew`
unfoldable pub take_new : Feed → Feed × List Frame
unfolding deliver
take_new f = deliver f.clock_mode f
