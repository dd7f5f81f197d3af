-- ===== src/Feed/Retry.antt =====
-- The connection of web/src/feed.ts from the page's side: `start`, `connect` and `scheduleRetry`. The sockets and
-- timers of the browser are numbers, with the list of those that are not closed, or still run: a socket is closed
-- once, and a timer that was cleared or has fired does not fire again.
use market_sandbox.Prelude.{
  ℕ, ◌+◌, ◌≡◌, refl, Option, none, some, List, [], ◌∷◌, ◌++◌, Bool, true, false, not, if◌then◌else◌,
  ite, arith, ℤ, ℕ_discrete,
}
use market_sandbox.Feed.{Feed, Source}
use market_sandbox.Feed.Socket.{on_close, wants_replay}

pub record Link : Type 0 where
  pub ws : Option ℕ
  pub retry : Option ℕ
  pub sockets : List ℕ
  pub timers : List ℕ
  pub fresh : ℕ

abbrev pub initial : Link
initial = record { ws = none; retry = none; sockets = []; timers = []; fresh = 0 }

abbrev pub without : ℕ → List ℕ → List ℕ
without i [] = []
without i (j ∷ js) = ite (ℕ_discrete j i) (without i js) (j ∷ without i js)

abbrev pub runs : ℕ → List ℕ → Bool
runs i [] = false
runs i (j ∷ js) = ite (ℕ_discrete j i) true (runs i js)

-- `clearTimeout`
abbrev pub cleared : Option ℕ → List ℕ → List ℕ
cleared none timers = timers
cleared (some i) timers = without i timers

-- `scheduleRetry`
unfoldable pub schedule_retry : Link → Link
schedule_retry l = record l {
  timers = cleared l.retry l.timers ++ l.fresh ∷ [];
  retry = some l.fresh;
  fresh = l.fresh + 1;
}

-- `connect`, where making the socket may throw.
unfoldable pub connect : Bool → Link → Link
unfolding schedule_retry
connect throws l =
    if throws
    then schedule_retry l
    else record l { ws = some l.fresh; sockets = l.sockets ++ l.fresh ∷ []; fresh = l.fresh + 1 }

-- The whole of `onclose`: with what it does to the Feed, and whether the recording is fetched.
unfoldable pub socket_closed : ℕ → ℤ → Link × Feed → (Link × Feed) × Bool
unfolding schedule_retry
socket_closed i now (l, f) =
    let (g, fetches) = on_close now f in
    ((schedule_retry (record l { ws = none; sockets = without i l.sockets }), g), fetches)

-- `start`: whether the recording is fetched at once, and otherwise the first socket.
unfoldable pub start : Bool → Bool → Link → Feed → Link × Bool
unfolding connect
start gateway_reachable throws l f =
    if not gateway_reachable then (l, wants_replay f) else (connect throws l, false)

-- The timer of `start`: is the recording fetched?
abbrev pub still_connecting : Feed → Bool
still_connecting f = elim f.source [ Source.connecting ↦ wants_replay f | _ ↦ false ]

pub data Event : Type 0 where
  closes : ℕ → ℤ → Event
  fires : ℕ → Bool → Event

unfoldable pub handle : Event → Link × Feed → Link × Feed
unfolding connect socket_closed
handle (closes i now) (l, f) = if runs i l.sockets then (socket_closed i now (l, f)).0 else (l, f)
handle (fires i throws) (l, f) =
    if runs i l.timers
    then (connect throws (record l { timers = without i l.timers }), f)
    else (l, f)

unfoldable pub run : List Event → Link × Feed → Link × Feed
run [] s = s
run (e ∷ es) s = run es (handle e s)

-- One socket, which `ws` names, or one timer, which `retry` names, but never both or a second one.
pub data IsLinked : Link → Type 0 where
  linked :
      (i : ℕ) (r : Option ℕ) (n : ℕ)
      → IsLinked (record { ws = some i; retry = r; sockets = i ∷ []; timers = []; fresh = n })
  waiting :
      (i n : ℕ)
      → IsLinked (record { ws = none; retry = some i; sockets = []; timers = i ∷ []; fresh = n })

cleared_none : (r : Option ℕ) → cleared r [] ≡ []
cleared_none none = refl
cleared_none (some i) = refl

without_same : (i j : ℕ) → j ≡ i → without i (j ∷ []) ≡ []
without_same i j h = ground arith

runs_same : (i j : ℕ) → j ≡ i → runs i (j ∷ []) ≡ true
runs_same i j h = ground arith

runs_other : (i j : ℕ) → ¬ (j ≡ i) → runs i (j ∷ []) ≡ false
runs_other i j h = ground arith

schedule-IsLinked :
    (r : Option ℕ) (n : ℕ)
    → IsLinked
        (schedule_retry (record { ws = none; retry = r; sockets = []; timers = []; fresh = n }))
unfolding schedule_retry
schedule-IsLinked r n = rw (cleared_none r) (waiting n (n + 1))

connect-IsLinked :
    (throws : Bool) (r : Option ℕ) (n : ℕ)
    → IsLinked
        (connect throws (record { ws = none; retry = r; sockets = []; timers = []; fresh = n }))
unfolding connect
connect-IsLinked true r n = schedule-IsLinked r n
connect-IsLinked false r n = linked n r (n + 1)

handle-IsLinked : (e : Event) (l : Link) (f : Feed) → IsLinked l → IsLinked (handle e (l, f)).0
unfolding handle socket_closed
handle-IsLinked (closes i now) _ f (linked j r n) = elim (ℕ_discrete j i) [
  | yes same ↦ rw (runs_same i j same, without_same i j same) (schedule-IsLinked r n)
  | no other ↦ rw (runs_other i j other) (linked j r n)
]
handle-IsLinked (closes i now) _ f (waiting j n) = waiting j n
handle-IsLinked (fires i throws) _ f (linked j r n) = linked j r n
handle-IsLinked (fires i throws) _ f (waiting j n) = elim (ℕ_discrete j i) [
  | yes same ↦ rw (runs_same i j same, without_same i j same) (connect-IsLinked throws (some j) n)
  | no other ↦ rw (runs_other i j other) (waiting j n)
]

run-IsLinked : (es : List Event) (l : Link) (f : Feed) → IsLinked l → IsLinked (run es (l, f)).0
unfolding run
run-IsLinked [] l f h = h
run-IsLinked (e ∷ es) l f h =
    run-IsLinked es (handle e (l, f)).0 (handle e (l, f)).1 (handle-IsLinked e l f h)

-- Where the gateway is reachable, the page always has exactly one socket, which is its `ws`, or
-- exactly one running timer, which is its `retry`, and never both: after `start`, whichever sockets
-- close and retry timers fire, and wherever making a socket throws.
pub run_start-IsLinked :
    (throws : Bool) (f : Feed) (es : List Event)
    → IsLinked (run es ((start true throws initial f).0, f)).0
unfolding start
run_start-IsLinked throws f es =
    run-IsLinked es (connect throws initial) f (connect-IsLinked throws none 0)
