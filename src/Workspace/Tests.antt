-- ===== src/Workspace/Tests.antt =====
-- Runs of web/src/components/Workspace.tsx on the sample session.
use market_sandbox.Prelude.{arith, ◌≡◌, refl, Option, none, some, List, [], ◌∷◌, ℤ, pos}
use market_sandbox.Wire.{bid}
use market_sandbox.Samples.{session}
use market_sandbox.Derive.{up_to}
use market_sandbox.Derive.Books.{book_of, book_at, LastOf}
use market_sandbox.Derive.Stats.{OpenOrder}
use market_sandbox.Workspace.{asks_of, bids_of, ladder}
use market_sandbox.Derive.Trades.{TradePoint}
use market_sandbox.Derive.Series.{QuotePoint, Series}
use market_sandbox.Workspace.Chart.{Chart, chart}
use market_sandbox.Workspace.Inside.{IsSpanned, IsPlotted, chart-IsPlotted}
use market_sandbox.Workspace.Rows.{IsLadder, ladder-IsLadder}

abbrev resting : List OpenOrder
resting = record { id = "h1"; side = bid; price = pos 99; remaining = pos 6 } ∷ []

ladder-IsLadder_example :
    LastOf
      (λ f b. book_of f ≡ some b)
      (λ f. book_of f ≡ none)
      (up_to session (pos 2))
      (book_at session (pos 2))
    × IsLadder resting
        (asks_of (book_at session (pos 2)))
        (bids_of (book_at session (pos 2)))
        (ladder resting session (pos 2))
ladder-IsLadder_example = ladder-IsLadder resting session (pos 2)

abbrev dealt : ℤ → TradePoint
dealt price = record {
  at = pos 5;
  price = price;
  qty = pos 1;
  aggressor_side = bid;
  aggressor_node = "human";
  resting_node = "mm";
  id = "t1";
}

abbrev quote : Option ℤ → Option ℤ → QuotePoint
quote b a = record { at = pos 5; bid = b; ask = a }

abbrev series : Series
series = record {
  trades = dealt (pos 100) ∷ dealt (pos 103) ∷ [];
  quotes =
      quote (some (pos 99)) none ∷ quote none none ∷ quote (some (pos 98)) (some (pos 101)) ∷ [];
  start = pos 0;
  stop = pos 10;
}

series-IsSpanned : IsSpanned series
series-IsSpanned = record { quotes = ground arith; trades = ground arith }

chart-IsPlotted_example : (c : Chart) × (chart series ≡ some c) × IsPlotted c
chart-IsPlotted_example =
    chart-IsPlotted series (dealt (pos 100)) (dealt (pos 103)) [] refl series-IsSpanned
