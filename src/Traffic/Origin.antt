-- ===== src/Traffic/Origin.antt =====
-- The origin of an answer, when several pages use the gateway of web/gateway/server.ts at once.
use market_sandbox.Prelude.{ℕ, ◌+◌, ◌≡◌, some, List, [], ◌∷◌, ite, IsIn, All, String, ℕ_discrete}
use market_sandbox.Feed.Socket.{OrderResult, Message}
use market_sandbox.Feed.Requests.{Requests, Outcome, answered, no_answer, made, IsOnce}
use market_sandbox.Feed.Orders.{Ask, order, cancel, record_on}
use market_sandbox.Gateway.{Gateway, Post, to_all, to_client}
use market_sandbox.Gateway.Orders
use market_sandbox.Gateway.Orders.{on_ask, on_outcome, result_of}
use market_sandbox.Traffic.{Traffic, Log, Ended}

-- The number of a request's message; a recording has none.
abbrev pub number : Ask → ℕ
number (order id side type price qty) = id
number (cancel id order_id) = id
number (record_on on) = 0

-- How often a page sent a message with a number.
abbrev pub count : ℕ → ℕ → List (ℕ × Ask) → ℕ
count c id [] = 0
count c id ((d, m) ∷ log) =
    ite (ℕ_discrete c d) (ite (ℕ_discrete (number m) id) 1 0) 0 + count c id log

-- An answer to a message that the page sent: the gateway's result for what came of the call that this message led to.
pub record IsOrigin (lower : String → String) (log : Log) (c id : ℕ) (r : OrderResult)
    : Type 0 where
  pub m : Ask
  pub outcome : Orders.Outcome
  pub g : Gateway
  pub sent_by : IsIn (c, m) log.sent
  pub came_back : IsIn (record { page = c; message = m; outcome = outcome; gateway = g }) log.ended
  pub numbered : number m ≡ id
  pub result : result_of lower m outcome g ≡ some (id, r)

module _ (lower : String → String) (log : Log) where
  abbrev pub IsPosted : Post → Type 0
  IsPosted (to_client c (Message.result id r)) = IsOrigin lower log c id r
  IsPosted (to_all (Message.result id r)) = ⊥
  IsPosted _ = Unit

  abbrev pub IsSettled : ℕ → ℕ × Outcome → Type 0
  IsSettled c (id, answered r) = IsOrigin lower log c id r
  IsSettled c (id, no_answer) = Unit

  abbrev pub IsSent : ℕ × Ask → Type 0
  IsSent e = IsIn e log.sent

-- A log that has what another one has.
pub record IsWithin (log later : Log) : Type 0 where
  pub sent : (e : ℕ × Ask) → IsIn e log.sent → IsIn e later.sent
  pub ended : (e : Ended) → IsIn e log.ended → IsIn e later.ended

-- A page that settled its requests with its own answers only.
pub record IsOwn (lower : String → String) (log : Log) (c : ℕ) (p : Requests) : Type 0 where
  pub once : (id : ℕ) → IsOnce p id
  pub counted : (id : ℕ) → count c id log.sent ≡ made id p.req_id
  pub settled : All (IsSettled lower log c) p.resolved

-- What holds of the pages, and of all that is on its way.
pub record IsMatched (lower : String → String) (s : Traffic) : Type 0 where
  pub pages : (c : ℕ) → IsOwn lower s.log c (s.pages c)
  pub on_way : All (IsSent lower s.log) s.asked
  pub at_exchange : All (IsSent lower s.log) s.called
  pub on_way_back : All (IsPosted lower s.log) s.posted

pub result_of-number :
    (lower : String → String) (m : Ask) (outcome : Orders.Outcome) (g : Gateway) (id : ℕ)
    (r : OrderResult)
    → result_of lower m outcome g ≡ some (id, r)
    → number m ≡ id
unfolding result_of
result_of-number lower (order i side type price qty) (Orders.failed e) g id r h = cc
result_of-number lower (order i side type price qty) (Orders.order_reply x) g id r h = cc
result_of-number lower (order i side type price qty) (Orders.cancel_reply x) g id r h = cc
result_of-number lower (cancel i o) (Orders.failed e) g id r h = cc
result_of-number lower (cancel i o) (Orders.order_reply x) g id r h = cc
result_of-number lower (cancel i o) (Orders.cancel_reply x) g id r h = cc
result_of-number lower (record_on on) outcome g id r h = cc
