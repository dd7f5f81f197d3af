-- ===== src/Derive/Stats/Tests.antt =====
-- Runs of `computeStats` of web/src/derive.ts on the sample session.
use market_sandbox.Prelude.{
  ◌≡◌, refl, arith, [], ◌∷◌, ℤ, pos, ◌+ℤ◌, ◌-ℤ◌, ◌*ℤ◌, String_discrete, true, false, ◌≢◌,
}
use market_sandbox.JsMap
use market_sandbox.Samples.{session, sold_trades, sample_roster}
use market_sandbox.Wire.{WireTrade, bid}
use market_sandbox.Derive.{up_to}
use market_sandbox.Derive.Stats.{
  compute_stats, OpenOrder, trade_loop, trade_step, fill_open, update, tally, mark_all, frame_loop,
  frame_step, batch_step, seat, touch, blank_stat, find_strategy, default_strategy, track_human,
}
use market_sandbox.Derive.Stats.Sums.{total, compute_stats_zero_sum}
use market_sandbox.Derive.Stats.Ledger.{reading, batch_share, sum_batches, no_order, signed_qty}
use market_sandbox.Derive.Stats.Reports.{
  one_fill, qty_of, value_of, minus, last_price_of, all_trades, compute_stats_trades,
  compute_stats_pnl,
}
use market_sandbox.Derive.Stats.Orders.{IsBook, compute_stats-IsBook}
use market_sandbox.Derive.Stats.Fills.{taken, left_of, trade_loop-left_of}

-- The human bought 4 at 100 and has 6 left of the order.
human_position :
    reading (λ s. s.position) "human" (compute_stats session (pos 2) sample_roster).stats ≡ pos 4
unfolding compute_stats tally mark_all frame_loop frame_step batch_step seat touch blank_stat
    find_strategy default_strategy track_human trade_loop trade_step update fill_open JsMap.lookup
    JsMap.insert String_discrete ◌-ℤ◌ ◌*ℤ◌
human_position = refl

compute_stats_zero_sum_example :
    let stats = (compute_stats session (pos 2) sample_roster).stats in
    (total (λ s. s.position) stats ≡ pos 0)
    × (total (λ s. s.cash) stats ≡ pos 0)
    × (total (λ s. s.pnl) stats ≡ pos 0)
compute_stats_zero_sum_example = compute_stats_zero_sum session (pos 2) sample_roster

compute_stats_trades_example :
    let stats = (compute_stats session (pos 2) sample_roster).stats in
    let sum = λ (b r : WireTrade → ℤ).
      sum_batches (batch_share no_order b r "human") (up_to session (pos 2)) in
    (reading (λ s. s.fills) "human" stats ≡ sum one_fill one_fill)
    × (reading (λ s. s.volume) "human" stats ≡ sum qty_of qty_of)
    × (reading (λ s. s.position) "human" stats ≡ sum signed_qty (minus signed_qty))
    × (reading (λ s. s.cash) "human" stats ≡ sum (minus value_of) value_of)
compute_stats_trades_example = compute_stats_trades session (pos 2) sample_roster "human"

compute_stats_pnl_example :
    let s = compute_stats session (pos 2) sample_roster in
    (s.last_price ≡ last_price_of (pos 0) (all_trades (up_to session (pos 2))))
    × (reading (λ s. s.pnl) "mm" s.stats
        ≡ reading (λ s. s.cash) "mm" s.stats
          +ℤ reading (λ s. s.position) "mm" s.stats *ℤ s.last_price)
compute_stats_pnl_example = compute_stats_pnl session (pos 2) sample_roster "mm"

false≢true : false ≢ true
false≢true e = cc

compute_stats-IsBook_example : IsBook (compute_stats session (pos 2) sample_roster).open_orders
compute_stats-IsBook_example =
    compute_stats-IsBook session (pos 2) sample_roster
      ((λ s r. omega arith), (tt, ((λ s r. absurd (false≢true r)), tt)))

-- The human's order before the trades of the second batch.
abbrev bid_order : OpenOrder
bid_order = record { id = "h1"; side = bid; price = pos 100; remaining = pos 10 }

trade_loop-left_of_example :
    JsMap.lookup String_discrete "h1"
      (trade_loop sample_roster
        (record { stats = []; open_orders = ("h1", bid_order) ∷ []; last_price = pos 0 })
        sold_trades).open_orders
    ≡ left_of bid_order (taken "h1" sold_trades)
unfolding JsMap.lookup String_discrete
trade_loop-left_of_example =
    trade_loop-left_of sample_roster "h1"
      (record { stats = []; open_orders = ("h1", bid_order) ∷ []; last_price = pos 0 }) sold_trades
      bid_order (omega arith, (omega arith, tt)) (omega arith) refl
