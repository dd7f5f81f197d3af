-- ===== src/Feed/Requests.antt =====
-- The requests of web/src/feed.ts: `request`, its timer, and the answers of the gateway. The promise that
-- a request returns is settled by an entry of `resolved`.
pub mod Settled
use market_sandbox.Prelude.{
  ℕ, zero, suc, ◌+◌, ◌≤◌, ◌<◌, ◌≡◌, refl, sym, ap, ◌∙◌, Option, none, some, Option-cases, List, [],
  ◌∷◌, ◌++◌, Bool, true, false, inl, inr, arith, leb, ◌&&◌, ite, if◌then◌else◌, ℕ_discrete,
}
use market_sandbox.JsMap
use market_sandbox.JsMap.{JsMap}
use market_sandbox.JsMap.Laws.{lookup-insert, lookup-insert_self, lookup-erase}
use market_sandbox.Feed.{Source, is_live}
use market_sandbox.Feed.Socket.{OrderResult}

-- How a promise ends: with the gateway's answer, or with the two results that the page makes itself.
pub data Outcome : Type 0 where
  answered : OrderResult → Outcome
  no_answer : Outcome

-- The callback of a pending request, and the timer of one: each knows its request by the key.
pub data Callback : Type 0 where
  settles : Callback

-- The number of the last request, the map of callbacks, the running timers, and the settled promises.
pub record Requests : Type 0 where
  pub req_id : ℕ
  pub pending : JsMap ℕ Callback
  pub timers : JsMap ℕ Callback
  pub resolved : List (ℕ × Outcome)

abbrev pub initial : Requests
initial = record { req_id = 0; pending = []; timers = []; resolved = [] }

-- `canTrade`, for a socket that is open or not.
abbrev pub can_trade : Source → Bool → Bool → Bool
can_trade source exchange_up is_open = is_live source && exchange_up && is_open

-- `request`: the new request's number, or `none` if the promise is settled at once for want of an exchange.
unfoldable pub request : Bool → Requests → Requests × Option ℕ
request false s = (s, none)
request true s =
    let id = s.req_id + 1 in
    (
      record s {
        req_id = id;
        pending = JsMap.insert ℕ_discrete id settles s.pending;
        timers = JsMap.insert ℕ_discrete id settles s.timers;
      },
      some id,
    )

-- The timer of a request, if it still runs.
unfoldable pub time_out : ℕ → Requests → Requests
time_out id s = elim (JsMap.lookup ℕ_discrete id s.timers) [
  | none ↦ s
  | some u ↦ record s {
    pending = JsMap.erase ℕ_discrete id s.pending;
    timers = JsMap.erase ℕ_discrete id s.timers;
    resolved = s.resolved ++ (id, no_answer) ∷ [];
  }
]

-- The message "result": its callback, if there is one, stops the timer and settles the promise.
unfoldable pub on_result : ℕ → OrderResult → Requests → Requests
on_result id r s = elim (JsMap.lookup ℕ_discrete id s.pending) [
  | none ↦ s
  | some u ↦ record s {
    pending = JsMap.erase ℕ_discrete id s.pending;
    timers = JsMap.erase ℕ_discrete id s.timers;
    resolved = s.resolved ++ (id, answered r) ∷ [];
  }
]

pub data Event : Type 0 where
  asked : Bool → Event
  timed_out : ℕ → Event
  got : ℕ → OrderResult → Event

unfoldable pub handle : Event → Requests → Requests
handle (asked can) s = (request can s).0
handle (timed_out id) s = time_out id s
handle (got id r) s = on_result id r s

unfoldable pub run : List Event → Requests → Requests
run [] s = s
run (e ∷ es) s = run es (handle e s)

-- How often a request's promise is settled.
abbrev pub times : ℕ → List (ℕ × Outcome) → ℕ
times id [] = 0
times id ((j, o) ∷ rs) = ite (ℕ_discrete j id) 1 0 + times id rs

abbrev pub waits : Option Callback → ℕ
waits none = 0
waits (some u) = 1

-- Was a request with the number made?
abbrev pub made : ℕ → ℕ → ℕ
made zero last = 0
made (suc id) last = if leb (suc id) last then 1 else 0

-- A number in use is settled once or still waits, with its timer running.
pub record IsOnce (s : Requests) (id : ℕ) : Type 0 where
  pub once : waits (JsMap.lookup ℕ_discrete id s.pending) + times id s.resolved ≡ made id s.req_id
  pub armed : JsMap.lookup ℕ_discrete id s.timers ≡ JsMap.lookup ℕ_discrete id s.pending
