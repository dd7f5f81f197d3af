-- ===== src/Feed/Orders.antt =====
-- What web/src/feed.ts sends to the gateway: `placeOrder`, `cancelOrder` and `setRecording`.
use market_sandbox.Prelude.{ℕ, Option, none, some, Bool, false, ℤ, String, if◌then◌else◌}
use market_sandbox.Wire.{Side, OrderType}
use market_sandbox.Feed.Socket.{OrderResult}
use market_sandbox.Feed.Requests.{Requests, request}

-- A message of a page. A price or a quantity is `none` where it is not a number.
pub data Ask : Type 0 where
  order : ℕ → Side → OrderType → Option ℤ → Option ℤ → Ask
  cancel : ℕ → String → Ask
  record_on : Bool → Ask

-- A result with nothing but its reason.
abbrev pub failure : String → OrderResult
failure reason = record {
  ok = false;
  order_id = none;
  status = none;
  filled = none;
  avg = none;
  reason = some reason;
}

-- How a request starts: refused at once, or sent.
pub data Start : Type 0 where
  refused : OrderResult → Start
  sent : Ask → Start

-- `request`, by what becomes of the message once it has its number.
unfoldable pub ask : Bool → (ℕ → Ask) → Requests → Requests × Start
unfolding request
ask can message s =
    let (s', number) = request can s in
    (
      s',
      elim number [
        | none ↦
            refused (failure "The exchange isn't running, so there's nothing to trade against.")
        | some id ↦ sent (message id)
      ],
    )

unfoldable pub place_order :
    Bool → Side → OrderType → Option ℤ → Option ℤ → Requests → Requests × Start
unfolding ask
place_order can side type price qty s = ask can (λ id. order id side type price qty) s

unfoldable pub cancel_order : Bool → String → Requests → Requests × Start
unfolding ask
cancel_order can order_id s = ask can (λ id. cancel id order_id) s

abbrev pub set_recording : Bool → Bool → Option Ask
set_recording can on = if can then some (record_on on) else none
