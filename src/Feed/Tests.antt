-- ===== src/Feed/Tests.antt =====
-- Runs of web/src/feed.ts on the sample session.
use market_sandbox.Prelude.{
  ◌≡◌, refl, ◌≤◌, arith, none, some, [], ◌∷◌, ◌++◌, pos, negsuc, count_to, true, false,
}
use market_sandbox.Samples.{session, placed, sold}
use market_sandbox.Feed.{Feed, Source, ClockMode, initial, index_loop, index_in}
use market_sandbox.Feed.Index.{IsSorted, Splits, index_in_bounds, index_in-Splits}
use market_sandbox.Feed.Delivery.{
  Call, pushed, taken, all_pushed, waiting, undelivered, run-delivered,
}
use market_sandbox.Feed.Anchoring.{to_time}
use market_sandbox.Feed.Socket.{Message}
use market_sandbox.Feed.Client.{Event, ticked, controlled, received, closed}
use market_sandbox.Feed.Delivery
use market_sandbox.Feed.Client
use market_sandbox.Feed.Requests
use market_sandbox.Feed.Retry
use market_sandbox.Feed.Retry.{IsLinked, closes, fires, run_start-IsLinked}
use market_sandbox.Feed.Requests.{asked, timed_out, times}
use market_sandbox.Feed.Requests.Settled.{run_settles-IsOnce, time_out_settles}
use market_sandbox.Feed.Invariant.{IsValid}
use market_sandbox.Feed.Invariant.Connection.{run-IsValid}

-- A recording that plays from its start.
abbrev playing : Feed
playing = record initial {
  frames = session;
  source = Source.replay;
  clock_mode = ClockMode.play;
  vt = pos 20;
}

index_in_bounds_example :
    (index_loop 4 session (pos 20) 0 (pos 2) (negsuc 0) ≡ some (index_in session (pos 20)))
    × (count_to (index_in session (pos 20)) ≤ 3)
index_in_bounds_example = index_in_bounds session (pos 20)

session-IsSorted : IsSorted session
session-IsSorted = ((omega arith, (omega arith, tt)), ((omega arith, tt), (tt, tt)))

index_in-Splits_example : Splits session (pos 20) (count_to (index_in session (pos 20)))
index_in-Splits_example = index_in-Splits session (pos 20) session-IsSorted

run-delivered_example :
    let end = Delivery.run (pushed (placed ∷ []) ∷ taken ∷ pushed (sold ∷ []) ∷ []) playing in
    end.1 ++ waiting end.0 ≡ session ++ placed ∷ sold ∷ []
run-delivered_example =
    run-delivered (pushed (placed ∷ []) ∷ taken ∷ pushed (sold ∷ []) ∷ []) playing (omega arith)
      (omega arith)

run-IsValid_example : IsValid (
    Client.run
      (received (Message.status true none) (pos 1)
        ∷ controlled (to_time (pos 3)) (pos 2)
        ∷ closed (pos 4)
        ∷ [])
      playing)
run-IsValid_example =
    run-IsValid
      (received (Message.status true none) (pos 1)
        ∷ controlled (to_time (pos 3)) (pos 2)
        ∷ closed (pos 4)
        ∷ [])
      playing (record { fits = omega arith; normal = λ e. refl })

run_settles-IsOnce_example :
    Requests.IsOnce
      (Requests.run (asked true ∷ asked true ∷ timed_out 1 ∷ timed_out 1 ∷ []) Requests.initial)
      1
run_settles-IsOnce_example =
    run_settles-IsOnce (asked true ∷ asked true ∷ timed_out 1 ∷ timed_out 1 ∷ []) 1

time_out_settles_example :
    times 1 (Requests.run (asked true ∷ timed_out 1 ∷ timed_out 1 ∷ []) Requests.initial).resolved
    ≡ 1
unfolding Requests.run Requests.handle Requests.request
time_out_settles_example =
    time_out_settles (asked true ∷ []) (timed_out 1 ∷ []) 1 (omega arith) (omega arith)

run_start-IsLinked_example :
    IsLinked
      (Retry.run
        (closes 0 (pos 5) ∷ fires 1 true ∷ fires 2 false ∷ [])
        ((Retry.start true false Retry.initial initial).0, initial)).0
run_start-IsLinked_example =
    run_start-IsLinked false initial (closes 0 (pos 5) ∷ fires 1 true ∷ fires 2 false ∷ [])
