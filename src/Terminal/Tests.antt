-- ===== src/Terminal/Tests.antt =====
-- Runs of an order ticket of web/src/components/Terminal.tsx.
use market_sandbox.Prelude.{refl, ◌≡◌, [], true, none, some, pos, false}
use market_sandbox.Feed.Requests
use market_sandbox.Gateway
use market_sandbox.Gateway.Orders
use market_sandbox.Feed
use market_sandbox.Wire.{bid}
use market_sandbox.Derive.Format.{fmt_price}
use market_sandbox.Feed.Orders.{Ask}
use market_sandbox.Feed.Requests.{request}
use market_sandbox.Terminal.Form.{form, button_text, order_text, at_price}
use market_sandbox.Terminal.Button.{IsAnnounced, message_of, form-submit}
use market_sandbox.Terminal.{Ticket, initial, valid, submit}
use market_sandbox.Terminal.Cancelled.{IsCancelled, cancel-IsCancelled}

-- Buy 5 at 100.126.
abbrev ticket : Ticket
ticket = record initial { p = some (pos 10_012_600_000) }

abbrev reply : Orders.OrderReply
reply = record {
  order_id = some "h7";
  order_status = some "filled";
  quantity = some (pos 5);
  avg_price = some (pos 100);
  rejection_reason = none;
}

cancel-IsCancelled_example :
    IsCancelled "h7" ticket Requests.initial Gateway.initial Gateway.initial "session.jsonl"
      (λ s. s)
      3
      (Orders.cancel_reply (some false))
cancel-IsCancelled_example =
    cancel-IsCancelled "h7" ticket Requests.initial Gateway.initial Gateway.initial "session.jsonl"
      (λ s. s) 3 (Orders.cancel_reply (some false)) tt

form-submit_example :
    let (t', s', start) = submit true ticket Requests.initial in
    ((m : Ask) × (message_of start ≡ some m) × IsAnnounced 1 (button_text ticket) m)
    × (s' ≡ (request true Requests.initial).0)
unfolding form valid
form-submit_example = form-submit Feed.initial true [] none ticket Requests.initial

-- At 100.126 the button reads "Buy 5 at 100.13", and the price that is sent is 100.126.
button_reads : button_text ticket ≡ order_text bid (some (pos 5)) (at_price (pos 10_013_000_000))
unfolding button_text fmt_price
button_reads = refl
