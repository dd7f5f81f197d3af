-- ===== src/Derive/Stats/Ledger.antt =====
-- What `computeStats` reports of one participant, against sums over the trades and the orders that name
-- that participant.
use market_sandbox.Prelude.{
  ◌≡◌, refl, sym, ◌∙◌, ap, none, some, List, [], ◌∷◌, Bool, true, false, ite, Option-cases, inl,
  inr, arith, int_laws, ℤ, pos, negsuc, ◌+ℤ◌, ◌-ℤ◌, ◌*ℤ◌, *ℤ_parts, +ℤ_zero, zero_+ℤ, +ℤ_assoc,
  String, String_discrete,
}
use market_sandbox.JsMap
use market_sandbox.JsMap.Laws.{lookup-insert}
use market_sandbox.Wire.{
  Frame, WireBatch, WireTrade, RosterEntry, Op, Side, bid, ask, of_batch, of_book,
}
use market_sandbox.Derive.{up_to}
use market_sandbox.Derive.Stats.{
  BotStat, Stats, Tally, blank_stat, touch, update, direction, buy, sell, trade_step, trade_loop,
  count_order, batch_step, frame_step, frame_loop, seat, tally, mark, mark_all, compute_stats,
}

-- What a field of a participant's entry holds; nothing counts for one who has no entry.
abbrev pub reading : (BotStat → ℤ) → String → Stats → ℤ
reading q id m = elim (JsMap.lookup String_discrete id m) [ none ↦ pos 0 | some s ↦ q s ]

abbrev pub when_same : String → String → ℤ → ℤ
when_same a b x = ite (String_discrete a b) x (pos 0)

-- What one trade counts for a participant, who may stand on both sides.
abbrev pub share : (WireTrade → ℤ) → (WireTrade → ℤ) → String → WireTrade → ℤ
share bought sold id t =
    when_same t.aggressor_node id (bought t) +ℤ when_same t.resting_node id (sold t)

abbrev pub sum_trades : (WireTrade → ℤ) → List WireTrade → ℤ
sum_trades f [] = pos 0
sum_trades f (t ∷ ts) = f t +ℤ sum_trades f ts

-- A sum over the batches among some frames.
abbrev pub sum_batches : (WireBatch → ℤ) → List Frame → ℤ
sum_batches f [] = pos 0
sum_batches f (of_batch b ∷ fs) = f b +ℤ sum_batches f fs
sum_batches f (of_book _ ∷ fs) = sum_batches f fs

reading-update :
    (q : BotStat → ℤ) (roster : List RosterEntry) (id j : String) (f : BotStat → BotStat) (d : ℤ)
    (m : Stats)
    → ((s : BotStat) → q (f s) ≡ q s +ℤ d)
    → q (blank_stat roster id) ≡ pos 0
    → reading q j (update roster id f m) ≡ reading q j m +ℤ when_same id j d
unfolding update
reading-update q roster id j f d m h z = elim (Option-cases (JsMap.lookup String_discrete id m)) [
  | inl e ↦
      let new = blank_stat roster id in
      ground (
        arith,
        lookup-insert String_discrete id j (f new) m,
        h new,
        zero_+ℤ d,
        +ℤ_zero (reading q j m),
      )
  | inr (s, e) ↦
      ground (arith, lookup-insert String_discrete id j (f s) m, h s, +ℤ_zero (reading q j m))
]

reading-touch :
    (q : BotStat → ℤ) (roster : List RosterEntry) (id j : String) (m : Stats)
    → q (blank_stat roster id) ≡ pos 0
    → reading q j (touch roster id m) ≡ reading q j m
unfolding touch
reading-touch q roster id j m z =
    ground (arith, lookup-insert String_discrete id j (blank_stat roster id) m)

-- A quantity that starts at nothing, of which an order counts `o`, a trade `b` for the aggressor and `r`
-- for the resting side, and which is none of the profit.
pub record IsCounted (roster : List RosterEntry) (q : BotStat → ℤ) (o : Op → Bool → ℤ)
    (b r : WireTrade → ℤ) : Type 0 where
  pub blank : (id : String) → q (blank_stat roster id) ≡ pos 0
  pub counted : (op : Op) (c : Bool) (s : BotStat) → q (count_order op c s) ≡ q s +ℤ o op c
  pub bought :
      (t : WireTrade) (s : BotStat)
      → q (buy (direction t.aggressor_side) t.qty t.price s) ≡ q s +ℤ b t
  pub sold :
      (t : WireTrade) (s : BotStat)
      → q (sell (direction t.aggressor_side) t.qty t.price s) ≡ q s +ℤ r t
  pub marked : (price : ℤ) (s : BotStat) → q (mark price s) ≡ q s

-- What one batch counts for a participant.
abbrev pub batch_share :
    (Op → Bool → ℤ) → (WireTrade → ℤ) → (WireTrade → ℤ) → String → WireBatch → ℤ
batch_share o b r id batch =
    when_same batch.order.node id (o batch.op batch.order.cancel_ok)
    +ℤ sum_trades (share b r id) batch.trades

module _ (roster : List RosterEntry) (q : BotStat → ℤ) (o : Op → Bool → ℤ) (b r : WireTrade → ℤ)
    (c : IsCounted roster q o b r) (id : String) where
  trade_step-reading :
      (s : Tally) (t : WireTrade)
      → reading q id (trade_step roster s t).stats ≡ reading q id s.stats +ℤ share b r id t
  unfolding trade_step
  trade_step-reading s t =
      reading-update q roster t.resting_node id _ _ _ (c.sold t) (c.blank t.resting_node)
      ∙ ap (λ (x : ℤ). x +ℤ when_same t.resting_node id (r t))
          (reading-update q roster t.aggressor_node id _ _ s.stats (c.bought t)
            (c.blank t.aggressor_node))
      ∙ +ℤ_assoc _ _ _

  trade_loop-reading :
      (s : Tally) (ts : List WireTrade)
      → reading q id (trade_loop roster s ts).stats
        ≡ reading q id s.stats +ℤ sum_trades (share b r id) ts
  unfolding trade_loop
  trade_loop-reading s [] = sym (+ℤ_zero _)
  trade_loop-reading s (t ∷ ts) =
      trade_loop-reading (trade_step roster s t) ts
      ∙ ap (λ (x : ℤ). x +ℤ sum_trades (share b r id) ts) (trade_step-reading s t)
      ∙ +ℤ_assoc _ _ _

  batch_step-reading :
      (s : Tally) (batch : WireBatch)
      → reading q id (batch_step roster s batch).stats
        ≡ reading q id s.stats +ℤ batch_share o b r id batch
  unfolding batch_step
  batch_step-reading s batch =
      trade_loop-reading _ batch.trades
      ∙ ap (λ (x : ℤ). x +ℤ sum_trades (share b r id) batch.trades)
          (reading-update q roster batch.order.node id _ _ s.stats
            (c.counted batch.op batch.order.cancel_ok) (c.blank batch.order.node))
      ∙ +ℤ_assoc _ _ _

  frame_loop-reading :
      (s : Tally) (fs : List Frame)
      → reading q id (frame_loop roster s fs).stats
        ≡ reading q id s.stats +ℤ sum_batches (batch_share o b r id) fs
  unfolding frame_loop frame_step
  frame_loop-reading s [] = sym (+ℤ_zero _)
  frame_loop-reading s (of_book f ∷ fs) = frame_loop-reading s fs
  frame_loop-reading s (of_batch f ∷ fs) =
      frame_loop-reading (batch_step roster s f) fs
      ∙ ap (λ (x : ℤ). x +ℤ sum_batches (batch_share o b r id) fs) (batch_step-reading s f)
      ∙ +ℤ_assoc _ _ _

  seat-reading :
      (rs : List RosterEntry) (m : Stats) → reading q id (seat roster rs m) ≡ reading q id m
  unfolding seat
  seat-reading [] m = refl
  seat-reading (x ∷ rs) m =
      seat-reading rs (touch roster x.id m) ∙ reading-touch q roster x.id id m (c.blank x.id)

  mark_all-reading : (price : ℤ) (m : Stats) → reading q id (mark_all price m) ≡ reading q id m
  unfolding mark_all JsMap.lookup
  mark_all-reading price [] = refl
  mark_all-reading price ((k, s) ∷ m) = ground (arith, mark_all-reading price m, c.marked price s)

  pub compute_stats-reading :
      (frames : List Frame) (idx : ℤ)
      → reading q id (compute_stats frames idx roster).stats
        ≡ sum_batches (batch_share o b r id) (up_to frames idx)
  unfolding compute_stats tally JsMap.lookup
  compute_stats-reading frames idx =
      let s = tally frames idx roster in
      mark_all-reading s.last_price s.stats
      ∙ frame_loop-reading _ (up_to frames idx)
      ∙ ap (λ (x : ℤ). x +ℤ sum_batches (batch_share o b r id) (up_to frames idx))
          (seat-reading roster [])
      ∙ zero_+ℤ _

-- What one side of the market gains of a quantity: the bid gets it, and the ask gives it away.
abbrev pub signed : Side → ℤ → ℤ
signed bid qty = qty
signed ask qty = pos 0 -ℤ qty

abbrev pub signed_qty : WireTrade → ℤ
signed_qty t = signed t.aggressor_side t.qty

pub direction-signed : (side : Side) (qty : ℤ) → direction side *ℤ qty ≡ signed side qty
direction-signed bid qty = omega (int_laws, *ℤ_parts (pos 1) qty)
direction-signed ask qty = omega (int_laws, *ℤ_parts (negsuc 0) qty)

abbrev pub no_order : Op → Bool → ℤ
no_order op c = pos 0

abbrev pub one_submit : Op → Bool → ℤ
one_submit Op.submit c = pos 1
one_submit Op.cancel c = pos 0

abbrev pub one_cancel : Op → Bool → ℤ
one_cancel Op.submit c = pos 0
one_cancel Op.cancel true = pos 1
one_cancel Op.cancel false = pos 0

abbrev pub no_trade : WireTrade → ℤ
no_trade t = pos 0
