-- ===== src/Traffic/Tests.antt =====
-- A run of two pages of web/src/feed.ts with requests of the same number.
use market_sandbox.Prelude.{ℕ_discrete, ◌≡◌, refl, inl, none, some, [], ◌∷◌, pos, true}
use market_sandbox.Wire.{bid, limit}
use market_sandbox.Feed.Requests.{times, request, on_result}
use market_sandbox.Feed.Orders.{Ask, order, cancel, place_order, cancel_order}
use market_sandbox.Feed.Socket.{Message}
use market_sandbox.Gateway
use market_sandbox.Gateway.{to_client}
use market_sandbox.Gateway.Orders
use market_sandbox.Gateway.Orders.{on_ask, on_outcome, result_of, cancel_result, order_result}
use market_sandbox.JsMap.{lookup, insert, erase}
use market_sandbox.Traffic.{
  Traffic, initial, to_place, to_cancel, wish, wishes, arrives, ends, gets, Reach, here, next,
}
use market_sandbox.Traffic.Origin.{count, IsOrigin}
use market_sandbox.Traffic.Own.{Reach-IsOrigin}

abbrev bought : Ask
bought = order 1 bid limit (some (pos 100)) (some (pos 5))

-- Page 4 places an order and page 7 cancels one; the gateway calls the exchange for page 7 first, and then for page 4.
abbrev started : Traffic
started =
    wish 7 (to_cancel "h2") true
      (wish 4 (to_place bid limit (some (pos 100)) (some (pos 5))) true (initial Gateway.initial))

abbrev asked : Reach "session.jsonl" (λ s. s) Gateway.initial started
asked =
    next (next here (wishes 4 (to_place bid limit (some (pos 100)) (some (pos 5))) true))
      (wishes 7 (to_cancel "h2") true)

abbrev reply : Orders.OrderReply
reply = record {
  order_id = some "h7";
  order_status = some "filled";
  quantity = some (pos 5);
  avg_price = some (pos 100);
  rejection_reason = none;
}

abbrev answered_7 : (s : Traffic) × Reach "session.jsonl" (λ s. s) Gateway.initial s
unfolding wish place_order cancel_order request on_ask on_outcome result_of ℕ_discrete
answered_7 = (
  _,
  next
      (next
        (next (next asked (arrives 7 (cancel 1 "h2") ((4, bought) ∷ []) [] refl))
          (arrives 4 bought [] [] refl))
        (ends 7 (cancel 1 "h2") (Orders.cancel_reply (some true)) [] ((4, bought) ∷ []) refl))
      (ends 4 bought (Orders.order_reply reply) [] [] refl),
)

abbrev both_got : (s : Traffic) × Reach "session.jsonl" (λ s. s) Gateway.initial s
unfolding wish place_order cancel_order request on_ask on_outcome result_of ℕ_discrete
both_got = (
  _,
  next
      (next answered_7.1 (
        gets (to_client 7 (Message.result 1 (cancel_result "h2" (some true)))) []
          (to_client 4 (Message.result 1 (order_result (λ s. s) reply)) ∷ []) refl))
      (gets (to_client 4 (Message.result 1 (order_result (λ s. s) reply))) [] [] refl),
)

Reach-IsOrigin_example :
    IsOrigin (λ s. s) both_got.0.log 4 1 (order_result (λ s. s) reply)
    × (count 4 1 both_got.0.log.sent ≡ 1)
    × (times 1 (both_got.0.pages 4).resolved ≡ 1)
unfolding wish place_order cancel_order request on_ask on_outcome result_of ℕ_discrete on_result
    lookup insert erase
Reach-IsOrigin_example =
    Reach-IsOrigin "session.jsonl" (λ s. s) Gateway.initial both_got.0 4 1
      (order_result (λ s. s) reply) both_got.1 (inl refl)
