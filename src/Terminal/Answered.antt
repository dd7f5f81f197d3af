-- ===== src/Terminal/Answered.antt =====
-- An order from the ticket of web/src/components/Terminal.tsx through web/src/feed.ts and
-- web/gateway/server.ts to the exchange, and its answer back.
use market_sandbox.Prelude.{
  ℕ, ◌+◌, ◌≡◌, refl, ap, ◌∙◌, Option, none, some, [], ◌∷◌, ◌++◌, Bool, true, false, ◌&&◌, ◌||◌,
  if◌then◌else◌, arith, ℤ, pos, ◌<ℤ◌, String, ℕ_discrete,
}
use market_sandbox.JsMap
use market_sandbox.JsMap.Laws.{lookup-insert_self, lookup-erase}
use market_sandbox.Wire.{OrderType, market, limit}
use market_sandbox.Feed.Socket.{OrderResult, Message}
use market_sandbox.Feed.Requests.{
  Requests, answered, no_answer, settles, Callback, request, time_out, on_result,
}
use market_sandbox.Feed.Orders.{Ask, order, sent, ask as ask_gateway, place_order}
use market_sandbox.Gateway.{Gateway, to_client}
use market_sandbox.Gateway.Orders.{
  Call, submit_order, OrderReply, failed, order_reply, cancel_reply, on_ask, or_zero, order_result,
  failed_reason, on_outcome,
}
use market_sandbox.Gateway.Orders
use market_sandbox.Terminal.{
  Ticket, is_market, is_positive, valid, asked_price, submit, went_wrong, notice, settled,
}

-- The price that the exchange gets: positive and the ticket's own, or 0 for a market order.
abbrev pub IsPriced : OrderType → Option ℤ → ℤ → Type 0
IsPriced market p price = price ≡ pos 0
IsPriced limit p price = (pos 0 <ℤ price) × (p ≡ some price)

-- The call that reaches the exchange: the ticket's side, type and price, and a positive quantity.
pub record IsSound (t : Ticket) (call : Call) : Type 0 where
  pub qty : ℤ
  pub price : ℤ
  pub same : call ≡ Orders.place_order "human" t.side t.type price (some qty)
  pub some_qty : pos 0 <ℤ qty
  pub asked_qty : t.q ≡ some qty
  pub priced : IsPriced t.type t.p price

-- The exchange answers a submission, or the call fails.
abbrev pub IsOfOrder : Orders.Outcome → Type 0
IsOfOrder (cancel_reply b) = ⊥
IsOfOrder _ = Unit

-- The page's result for an outcome: a failed call says why, also under the ticket, an answer is passed on.
abbrev pub IsAnswer : (String → String) → Gateway → Orders.Outcome → OrderResult → Type 0
IsAnswer lower g (failed e) r =
    (r.ok ≡ false)
    × (r.reason ≡ some (failed_reason e g))
    × (notice r ≡ went_wrong (failed_reason e g))
IsAnswer lower g (order_reply x) r = (r.ok ≡ true) × (r ≡ order_result lower x)
IsAnswer lower g (cancel_reply b) r = ⊥

-- What becomes of a ticket that is submitted, to a gateway that is another one when the call ends: the message and the call that it leads to, the gateway's one
-- answer to the page, and the promise, which that answer settles unless its timer has.
pub record IsAnswered (t : Ticket) (s : Requests) (g later : Gateway) (file : String)
    (lower : String → String) (c : ℕ) (outcome : Orders.Outcome) : Type 0 where
  pub message : Ask
  pub call : Call
  pub r : OrderResult
  pub submitted :
      submit true t s ≡ (record t { busy = true }, (request true s).0, some (sent message))
  pub called : (on_ask file message g).1 ≡ some call
  pub sound : IsSound t call
  pub posted :
      on_outcome lower c message outcome later ≡ to_client c (Message.result (s.req_id + 1) r) ∷ []
  pub answer : IsAnswer lower later outcome r
  pub in_time :
      (on_result (s.req_id + 1) r (request true s).0).resolved
      ≡ s.resolved ++ (s.req_id + 1, answered r) ∷ []
  pub free : settled r (record t { busy = true }) ≡ record t { busy = false; msg = some (notice r) }
  pub late :
      on_result (s.req_id + 1) r (time_out (s.req_id + 1) (request true s).0)
      ≡ time_out (s.req_id + 1) (request true s).0

pub settled_once :
    (s : Requests) (r : OrderResult)
    → (on_result (s.req_id + 1) r (request true s).0).resolved
      ≡ s.resolved ++ (s.req_id + 1, answered r) ∷ []
unfolding on_result request
settled_once s r =
    rw (lookup-insert_self ℕ_discrete (s.req_id + 1) settles s.pending, on_result, request) refl

on_result_late :
    (id : ℕ) (r : OrderResult) (s : Requests)
    → JsMap.lookup ℕ_discrete id s.pending ≡ none
    → on_result id r s ≡ s
unfolding on_result
on_result_late id r s gone = rw (gone, on_result) refl

timed_out :
    (s : Requests)
    → time_out (s.req_id + 1) (request true s).0 ≡ record s {
      req_id = s.req_id + 1;
      pending =
          JsMap.erase ℕ_discrete
            (s.req_id + 1)
            (JsMap.insert ℕ_discrete (s.req_id + 1) settles s.pending);
      timers =
          JsMap.erase ℕ_discrete
            (s.req_id + 1)
            (JsMap.insert ℕ_discrete (s.req_id + 1) settles s.timers);
      resolved = s.resolved ++ (s.req_id + 1, no_answer) ∷ [];
    }
unfolding time_out request
timed_out s =
    rw (lookup-insert_self ℕ_discrete (s.req_id + 1) settles s.timers, time_out, request) refl

erased :
    (id : ℕ) (m : JsMap.JsMap ℕ Callback)
    → JsMap.lookup ℕ_discrete id (JsMap.erase ℕ_discrete id m) ≡ none
erased id m = let left = lookup-erase ℕ_discrete id id m in ground (arith, left)

pub late_answer :
    (s : Requests) (r : OrderResult)
    → on_result (s.req_id + 1) r (time_out (s.req_id + 1) (request true s).0)
      ≡ time_out (s.req_id + 1) (request true s).0
late_answer s r = on_result_late (s.req_id + 1) r (time_out (s.req_id + 1) (request true s).0) (
    ap (λ (x : Requests). JsMap.lookup ℕ_discrete (s.req_id + 1) x.pending) (timed_out s)
    ∙ erased (s.req_id + 1) (JsMap.insert ℕ_discrete (s.req_id + 1) settles s.pending))

pub positive : (v : Option ℤ) → is_positive v ≡ true → (x : ℤ) × (v ≡ some x) × (pos 0 <ℤ x)
positive none h = absurd (cc h)
positive (some x) h = (x, refl, ground (arith, h))

priced :
    (type : OrderType) (p : Option ℤ)
    → is_market type || is_positive p ≡ true
    → (price : ℤ) × (or_zero (if is_market type then some (pos 0) else p) ≡ price)
      × IsPriced type p price
priced market p h = (pos 0, refl, refl)
priced limit p h = let (x, is, above) = positive p h in (x, ap or_zero is, (above, is))

pub both : (a b : Bool) → a && b ≡ true → (a ≡ true) × (b ≡ true)
both true b h = (refl, h)
both false b h = absurd (cc h)

pub submit-sent :
    (t : Ticket) (s : Requests)
    → valid t ≡ true
    → t.busy ≡ false
    → submit true t s ≡ (
      record t { busy = true },
      (request true s).0,
      some (sent (order (s.req_id + 1) t.side t.type (asked_price t) t.q)),
    )
unfolding submit place_order ask_gateway request
submit-sent t s is_valid free = rw (is_valid, free, submit) refl
