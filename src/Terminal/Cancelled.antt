-- ===== src/Terminal/Cancelled.antt =====
-- The cancellation of a resting order, from its button in web/src/components/Terminal.tsx through web/src/feed.ts and
-- web/gateway/server.ts to the exchange, and its answer back.
use market_sandbox.Prelude.{ℕ, ◌+◌, ◌≡◌, refl, none, some, [], ◌∷◌, ◌++◌, true, false, String}
use market_sandbox.Feed.Socket.{OrderResult, Message}
use market_sandbox.Feed.Requests.{Requests, answered, request, time_out, on_result}
use market_sandbox.Feed.Orders.{sent, failure, cancel as message, cancel_order, ask as ask_gateway}
use market_sandbox.Gateway.{Gateway, to_client}
use market_sandbox.Gateway.Orders
use market_sandbox.Gateway.Orders.{
  failed, order_reply, cancel_reply, on_ask, cancel_result, failed_reason, result_of, on_outcome,
}
use market_sandbox.Terminal.{Ticket, was_cancelled, not_cancelled, cancel, cancelled}
use market_sandbox.Terminal.Answered.{settled_once, late_answer}

-- The exchange answers a cancellation, or the call fails.
abbrev pub IsOfCancel : Orders.Outcome → Type 0
IsOfCancel (order_reply r) = ⊥
IsOfCancel _ = Unit

-- What the ticket says of a cancellation: that it happened only if the exchange said so.
abbrev pub IsToldOf : String → Gateway → Orders.Outcome → OrderResult → Ticket → Type 0
IsToldOf id g (failed e) r t =
    (r ≡ failure (failed_reason e g))
    × (cancelled id r t ≡ record t { msg = some (not_cancelled (failed_reason e g)) })
IsToldOf id g (cancel_reply (some true)) r t =
    (r.ok ≡ true) × (cancelled id r t ≡ record t { msg = some (was_cancelled id) })
IsToldOf id g (cancel_reply _) r t =
    (r.ok ≡ false) × (cancelled id r t ≡ record t { msg = some (not_cancelled "order not found") })
IsToldOf id g (order_reply x) r t = ⊥

-- What becomes of a cancellation, at a gateway that is another one when the call ends.
pub record IsCancelled (id : String) (t : Ticket) (s : Requests) (g later : Gateway) (file : String)
    (lower : String → String) (c : ℕ) (outcome : Orders.Outcome) : Type 0 where
  pub r : OrderResult
  pub asked : cancel true id s ≡ ((request true s).0, sent (message (s.req_id + 1) id))
  pub called :
      on_ask file (message (s.req_id + 1) id) g ≡ ((g, []), some (Orders.cancel_order "human" id))
  pub posted :
      on_outcome lower c (message (s.req_id + 1) id) outcome later
      ≡ to_client c (Message.result (s.req_id + 1) r) ∷ []
  pub told : IsToldOf id later outcome r t
  pub in_time :
      (on_result (s.req_id + 1) r (request true s).0).resolved
      ≡ s.resolved ++ (s.req_id + 1, answered r) ∷ []
  pub late :
      on_result (s.req_id + 1) r (time_out (s.req_id + 1) (request true s).0)
      ≡ time_out (s.req_id + 1) (request true s).0

cancel-asked :
    (id : String) (s : Requests)
    → cancel true id s ≡ ((request true s).0, sent (message (s.req_id + 1) id))
unfolding cancel_order ask_gateway request
cancel-asked id s = refl

on_outcome-IsToldOf :
    (lower : String → String) (g : Gateway) (c : ℕ) (outcome : Orders.Outcome) (n : ℕ) (id : String)
    (t : Ticket)
    → IsOfCancel outcome
    → (r : OrderResult) × (on_outcome lower c (message n id) outcome g
        ≡ to_client c (Message.result n r) ∷ [])
      × IsToldOf id g outcome r t
unfolding on_outcome result_of
on_outcome-IsToldOf lower g c (failed e) n id t h =
    (failure (failed_reason e g), refl, (refl, refl))
on_outcome-IsToldOf lower g c (cancel_reply (some true)) n id t h =
    (cancel_result id (some true), refl, (refl, refl))
on_outcome-IsToldOf lower g c (cancel_reply (some false)) n id t h =
    (cancel_result id (some false), refl, (refl, refl))
on_outcome-IsToldOf lower g c (cancel_reply none) n id t h =
    (cancel_result id none, refl, (refl, refl))
on_outcome-IsToldOf lower g c (order_reply x) n id t h = absurd h

-- Where there is an exchange, the button of a resting order becomes one message with that order's id and,
-- at the gateway, one call that cancels it in the name of the page's user. Whatever comes of the call, a
-- failure or the reply to a cancellation, the page gets exactly one result, under the number of its
-- request, and the ticket says that the order was cancelled if and only if the exchange said so; else it
-- gives the reason. The result settles the promise if it is in time, and changes nothing if the timer was
-- first.
pub cancel-IsCancelled :
    (id : String) (t : Ticket) (s : Requests) (g later : Gateway) (file : String)
    (lower : String → String) (c : ℕ) (outcome : Orders.Outcome)
    → IsOfCancel outcome
    → IsCancelled id t s g later file lower c outcome
unfolding on_ask
cancel-IsCancelled id t s g later file lower c outcome of_cancel =
    let (r, posted, told) =
      on_outcome-IsToldOf lower later c outcome (s.req_id + 1) id t of_cancel in
    record {
      r = r;
      asked = cancel-asked id s;
      called = refl;
      posted = posted;
      told = told;
      in_time = settled_once s r;
      late = late_answer s r;
    }
