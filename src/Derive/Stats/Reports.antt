-- ===== src/Derive/Stats/Reports.antt =====
-- The columns that `computeStats` reports, each as a sum over the frames up to the index.
use market_sandbox.Prelude.{
  ◌≡◌, refl, sym, ◌∙◌, ap, List, [], ◌∷◌, ◌++◌, Bool, true, false, arith, ℤ, pos, ◌+ℤ◌, ◌-ℤ◌, ◌*ℤ◌,
  +ℤ_zero, sub_as_add, zero_mul, String,
}
use market_sandbox.JsMap
use market_sandbox.Wire.{Frame, WireTrade, RosterEntry, Op, of_batch, of_book}
use market_sandbox.Derive.{up_to, trades_of}
use market_sandbox.Derive.Stats.{
  BotStat, Stats, Tally, blank_stat, count_order, trade_step, trade_loop, batch_step, frame_step,
  frame_loop, tally, mark_all, compute_stats,
}
use market_sandbox.Derive.Stats.Ledger.{
  IsCounted, reading, batch_share, sum_batches, signed_qty, no_order, no_trade, one_submit,
  one_cancel, direction-signed, compute_stats-reading,
}

orders_counted :
    (op : Op) (c : Bool) (s : BotStat) → (count_order op c s).orders ≡ s.orders +ℤ one_submit op c
orders_counted Op.submit c s = refl
orders_counted Op.cancel true s = sym (+ℤ_zero s.orders)
orders_counted Op.cancel false s = sym (+ℤ_zero s.orders)

cancels_counted :
    (op : Op) (c : Bool) (s : BotStat) → (count_order op c s).cancels ≡ s.cancels +ℤ one_cancel op c
cancels_counted Op.submit c s = sym (+ℤ_zero s.cancels)
cancels_counted Op.cancel true s = refl
cancels_counted Op.cancel false s = sym (+ℤ_zero s.cancels)

-- The fields that only trades change.
TradeFields : (BotStat → ℤ) → Type 0
TradeFields q = (op : Op) (c : Bool) (s : BotStat) → q (count_order op c s) ≡ q s +ℤ pos 0

fills_kept : TradeFields (λ s. s.fills)
unfolding TradeFields
fills_kept Op.submit c s = sym (+ℤ_zero s.fills)
fills_kept Op.cancel true s = sym (+ℤ_zero s.fills)
fills_kept Op.cancel false s = sym (+ℤ_zero s.fills)

volume_kept : TradeFields (λ s. s.volume)
unfolding TradeFields
volume_kept Op.submit c s = sym (+ℤ_zero s.volume)
volume_kept Op.cancel true s = sym (+ℤ_zero s.volume)
volume_kept Op.cancel false s = sym (+ℤ_zero s.volume)

position_kept : TradeFields (λ s. s.position)
unfolding TradeFields
position_kept Op.submit c s = sym (+ℤ_zero s.position)
position_kept Op.cancel true s = sym (+ℤ_zero s.position)
position_kept Op.cancel false s = sym (+ℤ_zero s.position)

cash_kept : TradeFields (λ s. s.cash)
unfolding TradeFields
cash_kept Op.submit c s = sym (+ℤ_zero s.cash)
cash_kept Op.cancel true s = sym (+ℤ_zero s.cash)
cash_kept Op.cancel false s = sym (+ℤ_zero s.cash)

abbrev pub qty_of : WireTrade → ℤ
qty_of t = t.qty

abbrev pub one_fill : WireTrade → ℤ
one_fill t = pos 1

abbrev pub value_of : WireTrade → ℤ
value_of t = signed_qty t *ℤ t.price

abbrev pub minus : (WireTrade → ℤ) → WireTrade → ℤ
minus f t = pos 0 -ℤ f t

module _ (roster : List RosterEntry) where
  orders-IsCounted : IsCounted roster (λ s. s.orders) one_submit no_trade no_trade
  unfolding blank_stat
  orders-IsCounted = record {
    blank = λ id. refl;
    counted = orders_counted;
    bought = λ t s. sym (+ℤ_zero s.orders);
    sold = λ t s. sym (+ℤ_zero s.orders);
    marked = λ p s. refl;
  }

  cancels-IsCounted : IsCounted roster (λ s. s.cancels) one_cancel no_trade no_trade
  unfolding blank_stat
  cancels-IsCounted = record {
    blank = λ id. refl;
    counted = cancels_counted;
    bought = λ t s. sym (+ℤ_zero s.cancels);
    sold = λ t s. sym (+ℤ_zero s.cancels);
    marked = λ p s. refl;
  }

  fills-IsCounted : IsCounted roster (λ s. s.fills) no_order one_fill one_fill
  unfolding blank_stat TradeFields
  fills-IsCounted = record {
    blank = λ id. refl;
    counted = fills_kept;
    bought = λ t s. refl;
    sold = λ t s. refl;
    marked = λ p s. refl;
  }

  volume-IsCounted : IsCounted roster (λ s. s.volume) no_order qty_of qty_of
  unfolding blank_stat TradeFields
  volume-IsCounted = record {
    blank = λ id. refl;
    counted = volume_kept;
    bought = λ t s. refl;
    sold = λ t s. refl;
    marked = λ p s. refl;
  }

  position-IsCounted : IsCounted roster (λ s. s.position) no_order signed_qty (minus signed_qty)
  unfolding blank_stat TradeFields
  position-IsCounted = record {
    blank = λ id. refl;
    counted = position_kept;
    bought = λ t s. ap (λ x. s.position +ℤ x) (direction-signed t.aggressor_side t.qty);
    sold = λ t s.
        ap (λ x. s.position -ℤ x) (direction-signed t.aggressor_side t.qty)
        ∙ sub_as_add s.position (signed_qty t);
    marked = λ p s. refl;
  }

  cash-IsCounted : IsCounted roster (λ s. s.cash) no_order (minus value_of) value_of
  unfolding blank_stat TradeFields
  cash-IsCounted = record {
    blank = λ id. refl;
    counted = cash_kept;
    bought = λ t s.
        ap (λ x. s.cash -ℤ x *ℤ t.price) (direction-signed t.aggressor_side t.qty)
        ∙ sub_as_add s.cash (value_of t);
    sold = λ t s. ap (λ x. s.cash +ℤ x *ℤ t.price) (direction-signed t.aggressor_side t.qty);
    marked = λ p s. refl;
  }

-- For every participant `computeStats` reports as fills the number of sides it took in the trades up to
-- the index, as volume their quantities, as position what it bought less what it sold, and as cash what
-- it was paid less what it paid; a trade with itself counts on both sides.
pub compute_stats_trades :
    (frames : List Frame) (idx : ℤ) (roster : List RosterEntry) (id : String)
    → let stats = (compute_stats frames idx roster).stats in
      let sum =
        λ (b r : WireTrade → ℤ). sum_batches (batch_share no_order b r id) (up_to frames idx) in
      (reading (λ s. s.fills) id stats ≡ sum one_fill one_fill)
      × (reading (λ s. s.volume) id stats ≡ sum qty_of qty_of)
      × (reading (λ s. s.position) id stats ≡ sum signed_qty (minus signed_qty))
      × (reading (λ s. s.cash) id stats ≡ sum (minus value_of) value_of)
compute_stats_trades frames idx roster id = (
  compute_stats-reading roster _ _ _ _ (fills-IsCounted roster) id frames idx,
  compute_stats-reading roster _ _ _ _ (volume-IsCounted roster) id frames idx,
  compute_stats-reading roster _ _ _ _ (position-IsCounted roster) id frames idx,
  compute_stats-reading roster _ _ _ _ (cash-IsCounted roster) id frames idx,
)

-- For every participant `computeStats` reports as orders the number of its submissions up to the index,
-- and as cancels the number of its cancellations there that succeeded.
pub compute_stats_orders :
    (frames : List Frame) (idx : ℤ) (roster : List RosterEntry) (id : String)
    → let stats = (compute_stats frames idx roster).stats in
      let sum = λ (o : Op → Bool → ℤ).
        sum_batches (batch_share o no_trade no_trade id) (up_to frames idx) in
      (reading (λ s. s.orders) id stats ≡ sum one_submit)
      × (reading (λ s. s.cancels) id stats ≡ sum one_cancel)
compute_stats_orders frames idx roster id = (
  compute_stats-reading roster _ _ _ _ (orders-IsCounted roster) id frames idx,
  compute_stats-reading roster _ _ _ _ (cancels-IsCounted roster) id frames idx,
)

-- The price of the last of some trades, or the price before them.
abbrev pub last_price_of : ℤ → List WireTrade → ℤ
last_price_of p [] = p
last_price_of p (t ∷ ts) = last_price_of t.price ts

abbrev pub all_trades : List Frame → List WireTrade
all_trades [] = []
all_trades (f ∷ fs) = trades_of f ++ all_trades fs

last_price_of-append :
    (p : ℤ) (xs ys : List WireTrade)
    → last_price_of p (xs ++ ys) ≡ last_price_of (last_price_of p xs) ys
last_price_of-append p [] ys = refl
last_price_of-append p (x ∷ xs) ys = last_price_of-append x.price xs ys

module _ (roster : List RosterEntry) where
  trade_loop-last :
      (s : Tally) (ts : List WireTrade)
      → (trade_loop roster s ts).last_price ≡ last_price_of s.last_price ts
  unfolding trade_loop trade_step
  trade_loop-last s [] = refl
  trade_loop-last s (t ∷ ts) = trade_loop-last (trade_step roster s t) ts

  frame_loop-last :
      (s : Tally) (fs : List Frame)
      → (frame_loop roster s fs).last_price ≡ last_price_of s.last_price (all_trades fs)
  unfolding frame_loop frame_step batch_step
  frame_loop-last s [] = refl
  frame_loop-last s (of_book f ∷ fs) = frame_loop-last s fs
  frame_loop-last s (of_batch b ∷ fs) =
      frame_loop-last (batch_step roster s b) fs
      ∙ ap (λ (p : ℤ). last_price_of p (all_trades fs)) (trade_loop-last _ b.trades)
      ∙ sym (last_price_of-append s.last_price b.trades (all_trades fs))

mark_all-value :
    (price : ℤ) (id : String) (m : Stats)
    → reading (λ s. s.pnl) id (mark_all price m)
      ≡ reading (λ s. s.cash) id (mark_all price m)
        +ℤ reading (λ s. s.position) id (mark_all price m) *ℤ price
unfolding mark_all JsMap.lookup
mark_all-value price id [] = sym (ap (◌+ℤ◌ (pos 0)) (zero_mul price) ∙ +ℤ_zero (pos 0))
mark_all-value price id ((k, s) ∷ m) = ground (arith, mark_all-value price id m)

-- `computeStats` values every participant at the price of the last trade up to the index, 0 before the
-- first: the profit is the cash and the position at that price.
pub compute_stats_pnl :
    (frames : List Frame) (idx : ℤ) (roster : List RosterEntry) (id : String)
    → let s = compute_stats frames idx roster in
      (s.last_price ≡ last_price_of (pos 0) (all_trades (up_to frames idx)))
      × (reading (λ s. s.pnl) id s.stats
          ≡ reading (λ s. s.cash) id s.stats
            +ℤ reading (λ s. s.position) id s.stats *ℤ s.last_price)
unfolding compute_stats tally
compute_stats_pnl frames idx roster id =
    (frame_loop-last roster _ (up_to frames idx), mark_all-value _ id _)
