-- ===== src/Gateway/Orders.antt =====
-- The orders of the pages in web/gateway/server.ts: `placeOrder`, and the handler of "message", which waits for
-- the exchange and is two functions here: up to the call, and from its outcome on. The gRPC client is not
-- modelled: a call's outcome is an argument, and so is the library's `toLowerCase`.
use market_sandbox.Prelude.{
  ℕ, Option, none, some, List, [], ◌∷◌, Bool, true, false, if◌then◌else◌, ℤ, String,
}
use market_sandbox.Wire.{Side, OrderType, bid, ask, market, limit}
use market_sandbox.Normalizer.Raw.{num, text, or_else}
use market_sandbox.Feed.Socket.{OrderResult, Message}
use market_sandbox.Feed.Orders.{Ask, order, cancel, record_on, failure}
use market_sandbox.Gateway.{Gateway, Post, to_client, start_recording, stop_recording}

-- What the gateway asks of the exchange.
pub data Call : Type 0 where
  submit_order : String → String → String → ℤ → Option ℤ → Call
  cancel_order : String → String → Call

pub record OrderReply : Type 0 where
  pub order_id : Option String
  pub order_status : Option String
  pub quantity : Option ℤ
  pub avg_price : Option ℤ
  pub rejection_reason : Option String

-- The outcome of a call.
pub data Outcome : Type 0 where
  failed : String → Outcome
  order_reply : OrderReply → Outcome
  cancel_reply : Option Bool → Outcome

-- `placeOrder`
abbrev pub place_order : String → Side → OrderType → ℤ → Option ℤ → Call
place_order node side type price qty =
    submit_order node (elim side [ bid ↦ "BID" | ask ↦ "ASK" ])
      (elim type [ market ↦ "MARKET" | limit ↦ "LIMIT" ]) price qty

-- `Number(m.price) || 0`
abbrev pub or_zero : Option ℤ → ℤ
or_zero v = num v

-- The handler of "message" up to its wait.
unfoldable pub on_ask : String → Ask → Gateway → (Gateway × List Post) × Option Call
on_ask file (order id side type price qty) g =
    ((g, []), some (place_order "human" side type (or_zero price) qty))
on_ask file (cancel id order_id) g = ((g, []), some (cancel_order "human" order_id))
on_ask file (record_on on) g = (if on then start_recording file g else stop_recording g, none)

abbrev pub order_result : (String → String) → OrderReply → OrderResult
order_result lower r = record {
  ok = true;
  order_id = r.order_id;
  status = some (lower (text r.order_status));
  filled = some (num r.quantity);
  avg = some (num r.avg_price);
  reason = some (text r.rejection_reason);
}

abbrev pub cancel_result : String → Option Bool → OrderResult
cancel_result order_id successful = record {
  ok = or_else successful false;
  order_id = some order_id;
  status = none;
  filled = none;
  avg = none;
  reason = some (if or_else successful false then "" else "order not found");
}

-- The reason in the `catch`.
abbrev pub failed_reason : String → Gateway → String
failed_reason message g = if g.exchange_up then message else "exchange is not running"

-- The result for a page's message. A call is answered by a reply of its own kind.
unfoldable pub result_of : (String → String) → Ask → Outcome → Gateway → Option (ℕ × OrderResult)
result_of lower (order id side type price qty) (failed e) g = some (id, failure (failed_reason e g))
result_of lower (order id side type price qty) (order_reply r) g = some (id, order_result lower r)
result_of lower (cancel id order_id) (failed e) g = some (id, failure (failed_reason e g))
result_of lower (cancel id order_id) (cancel_reply b) g = some (id, cancel_result order_id b)
result_of lower _ _ g = none

-- The handler of "message" from the outcome of the call on.
unfoldable pub on_outcome : (String → String) → ℕ → Ask → Outcome → Gateway → List Post
unfolding result_of
on_outcome lower c message outcome g = elim (result_of lower message outcome g) [
  | none ↦ []
  | some (id, r) ↦ to_client c (Message.result id r) ∷ []
]
