-- ===== src/Samples.antt =====
-- Sample messages and frames for the tests: two batches with a trade each, and a book in between.
-- A price of 100 here is 100 of the units in which prices are counted.
use market_sandbox.Prelude.{none, some, List, [], ◌∷◌, false, ℤ, pos, String}
use market_sandbox.Wire.{
  Side, Status, WireTrade, WireBook, WireOrder, WireTrace, WireBatch, Frame, RosterEntry, bid, ask,
  limit, submit, of_batch, of_book,
}

abbrev pub sample_book : WireBook
sample_book = record { bids = (pos 99, pos 5, pos 1) ∷ []; asks = (pos 101, pos 4, pos 2) ∷ [] }

abbrev pub no_times : WireTrace
no_times = record {
  enqueue = pos 1;
  dequeue = pos 2;
  match_done = pos 3;
  promise_set = pos 4;
  publish = pos 5;
}

abbrev pub sample_order : String → String → Side → ℤ → ℤ → Status → ℤ → WireOrder
sample_order id node side price qty status filled = record {
  id = id;
  node = node;
  side = some side;
  type = some limit;
  price = price;
  qty = qty;
  status = some status;
  filled = filled;
  avg = price;
  reason = "";
  cancel_ok = false;
}

abbrev pub sample_trade : String → ℤ → ℤ → Side → String → String → String → WireTrade
sample_trade id price qty side aggressor node resting = record {
  id = id;
  price = price;
  qty = qty;
  aggressor_side = side;
  aggressor = aggressor;
  aggressor_node = node;
  resting = resting;
  resting_node = "human";
}

abbrev pub sample_batch : ℤ → WireOrder → List WireTrade → WireBatch
sample_batch at order trades = record {
  at = at;
  seq = at;
  op = submit;
  order = order;
  trace = no_times;
  trades = trades;
  tob = none;
  book = none;
}

-- The human rests a bid for 10 at 100.
abbrev pub placed : Frame
placed = of_batch (
    sample_batch (pos 10) (sample_order "h1" "human" bid (pos 100) (pos 10) Status.queued (pos 0))
      [])

abbrev pub shown_book : Frame
shown_book = of_book (record { at = pos 20; book = sample_book })

-- "mm" sells 4 of it in two trades.
abbrev pub sold_trades : List WireTrade
sold_trades =
    sample_trade "t1" (pos 100) (pos 3) ask "m1" "mm" "h1"
    ∷ sample_trade "t2" (pos 100) (pos 1) ask "m1" "mm" "h1"
    ∷ []

abbrev pub sold : Frame
sold = of_batch (
    sample_batch (pos 30) (sample_order "m1" "mm" ask (pos 100) (pos 4) Status.filled (pos 4))
      sold_trades)

abbrev pub session : List Frame
session = placed ∷ shown_book ∷ sold ∷ []

abbrev pub sample_roster : List RosterEntry
sample_roster = record { id = "mm"; strategy = "maker" } ∷ []
