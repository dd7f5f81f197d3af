-- ===== src/Normalizer/Tests.antt =====
-- Runs of web/gateway/normalize.ts on sample messages.
use market_sandbox.Prelude.{◌≡◌, refl, arith, none, some, List, [], ◌∷◌, ◌++◌, ℤ, pos, true, String}
use market_sandbox.JsMap
use market_sandbox.Normalizer.{Normalizer, initial, normalize}
use market_sandbox.Normalizer.Raw.{RawTrade, RawOrder, RawBook, RawBatch, empty_order}
use market_sandbox.Normalizer.Resting.{RestingMap}
use market_sandbox.Normalizer.Bound.{IsValid, normalize-IsValid}
use market_sandbox.Normalizer.Books.{message, timer, run, last_of, shown, run-latest}

abbrev raw_trade : String → ℤ → RawTrade
raw_trade id qty = record {
  trade_id = some id;
  price = some (pos 100);
  quantity = some qty;
  aggressor_side = some "ASK";
  aggressor_order_id = some "m1";
  resting_order_id = some "h1";
}

abbrev raw_book : RawBook
raw_book = record { bids = some []; asks = none }

abbrev raw_batch : RawOrder → List RawTrade → RawBatch
raw_batch order trades = record {
  timestamp = some (pos 5);
  order = some order;
  trace = none;
  trades = some trades;
  top_of_book = none;
  book = some raw_book;
}

-- A submission that rests, and the cancellation of it.
abbrev queued_order : RawOrder
queued_order = record empty_order {
  op = some "OP_SUBMIT";
  order_id = some "h1";
  node_id = some "human";
  side = some "BID";
  quantity = some (pos 10);
  status = some "QUEUED";
}

abbrev canceled_order : RawOrder
canceled_order = record empty_order {
  op = some "OP_CANCEL";
  order_id = some "h1";
  node_id = some "human";
  cancel_successful = some true;
}

abbrev queued : RawBatch
queued = raw_batch queued_order []

abbrev canceled : RawBatch
canceled = raw_batch canceled_order []

abbrev one_resting : RestingMap
one_resting = ("h1", record { node = "human"; remaining = pos 10 }) ∷ []

abbrev busy : Normalizer
busy = record initial { resting = one_resting }

initial-IsValid : IsValid []
initial-IsValid = record { distinct = tt; bounded = omega arith }

one_resting-IsValid : IsValid one_resting
unfolding JsMap.lookup
one_resting-IsValid = record { distinct = (refl, tt); bounded = omega arith }

normalize-IsValid_example : IsValid (normalize busy canceled (pos 7)).0.resting
normalize-IsValid_example = normalize-IsValid busy canceled (pos 7) one_resting-IsValid

run-latest_example :
    let is = message queued (pos 7) ∷ timer ∷ message canceled (pos 50) ∷ [] in
    let end = run busy is in
    let ticked = run busy (is ++ timer ∷ []) in
    (shown end.0 (last_of none end.1) ≡ some (record { bids = []; asks = [] }))
    × (ticked.0.pending_book ≡ none)
    × (last_of none ticked.1 ≡ some (record { bids = []; asks = [] }))
run-latest_example =
    run-latest busy none (message queued (pos 7) ∷ timer ∷ message canceled (pos 50) ∷ [])
