-- ===== src/Page/Tests.antt =====
-- Runs of the page of web/src/App.tsx: a row of the book that is clicked, and an order in the spotlight.
use market_sandbox.Prelude.{◌+ℤ◌, ◌≡◌, refl, some, [], pos, arith, true}
use market_sandbox.Wire.{Level, bid, ask, limit, Status, WireBatch}
use market_sandbox.Samples.{sample_batch, sample_order, sold_trades}
use market_sandbox.Derive.Format.{fmt_price, IsNearestCent}
use market_sandbox.Feed.Requests
use market_sandbox.Feed.Requests.{request}
use market_sandbox.Feed.Orders.{order, sent}
use market_sandbox.Gateway
use market_sandbox.Gateway.Orders
use market_sandbox.Gateway.Orders.{on_ask}
use market_sandbox.Terminal
use market_sandbox.Terminal.{submit}
use market_sandbox.Scope.Spotlight
use market_sandbox.Page.{initial}
use market_sandbox.Page.Pick.{picked_ticket, picked-submit}

abbrev batch : WireBatch
batch =
    sample_batch (pos 30) (sample_order "m1" "mm" ask (pos 100) (pos 4) Status.filled (pos 4))
      sold_trades

-- A row at 101.126.
abbrev row : Level
row = (pos 10_112_600_000, pos 8, pos 2)

picked-submit_example :
    let filled = picked_ticket ask row (pos 9) initial Terminal.initial in
    let message = order 1 bid limit (some (pos 10_113_000_000)) (some (pos 5)) in
    (submit true filled Requests.initial
      ≡ (record filled { busy = true }, (request true Requests.initial).0, some (sent message)))
    × (on_ask "session.jsonl" message Gateway.initial ≡ (
      (Gateway.initial, []),
      some (Orders.submit_order "human" "BID" "LIMIT" (pos 10_113_000_000) (some (pos 5))),
    ))
    × IsNearestCent row.0 (pos 10_113_000_000)
unfolding fmt_price ◌+ℤ◌
picked-submit_example =
    picked-submit ask row (pos 9) (pos 5) initial Terminal.initial Requests.initial Gateway.initial
      "session.jsonl" (omega arith) (omega arith) refl refl
