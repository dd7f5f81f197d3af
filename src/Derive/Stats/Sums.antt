-- ===== src/Derive/Stats/Sums.antt =====
-- What a trade gives to one side it takes from the other: the sums over all participants.
use market_sandbox.Prelude.{
  ◌≡◌, refl, sym, ◌∙◌, ap, ap₂, List, [], ◌∷◌, Bool, true, false, +ℤ_zero, zero_+ℤ, +ℤ_swap,
  +ℤ_cancel, +ℤ_interchange, sub_as_add, add_sub_cancel, ℤ, pos, ◌+ℤ◌, ◌-ℤ◌, ◌*ℤ◌, int_laws, +ℤ_mul,
  zero_mul, Option-cases, inl, inr, String, String_discrete,
}
use market_sandbox.JsMap
use market_sandbox.JsMap.{JsMap}
use market_sandbox.JsMap.Laws.{sum_values, sum-insert_present, sum-insert_absent}
use market_sandbox.Wire.{Frame, WireTrade, RosterEntry, Op, of_batch, of_book}
use market_sandbox.Derive.{up_to}
use market_sandbox.Derive.Stats.{
  BotStat, Stats, Tally, blank_stat, touch, update, direction, buy, sell, trade_step, trade_loop,
  count_order, batch_step, frame_step, frame_loop, seat, tally, mark, mark_all, compute_stats,
}

abbrev pub total : (BotStat → ℤ) → Stats → ℤ
total f m = sum_values String_discrete f m

-- An update adds what it adds to the one participant, who counts nothing before it is there.
sum-update :
    (q : BotStat → ℤ) (roster : List RosterEntry) (id : String) (f : BotStat → BotStat) (d : ℤ)
    (m : Stats)
    → ((s : BotStat) → q (f s) ≡ q s +ℤ d)
    → q (blank_stat roster id) ≡ pos 0
    → total q (update roster id f m) ≡ total q m +ℤ d
unfolding update
sum-update q roster id f d m h z = elim (Option-cases (JsMap.lookup String_discrete id m)) [
  | inl e ↦
      rw (e, update)
        (sum-insert_absent String_discrete q id (f (blank_stat roster id)) m e
          ∙ ap (◌+ℤ◌ (total q m)) (h (blank_stat roster id) ∙ ap (λ (z : ℤ). z +ℤ d) z ∙ zero_+ℤ d))
  | inr (s, e) ↦
      rw (e, update)
        (+ℤ_cancel _ _ (q s) (
          sum-insert_present String_discrete q id s (f s) m e
          ∙ ap (◌+ℤ◌ (total q m)) (h s)
          ∙ +ℤ_swap (total q m) (q s) d))
]

sum-touch :
    (q : BotStat → ℤ) (roster : List RosterEntry) (id : String) (m : Stats)
    → q (blank_stat roster id) ≡ pos 0
    → total q (touch roster id m) ≡ total q m
unfolding touch
sum-touch q roster id m z = elim (Option-cases (JsMap.lookup String_discrete id m)) [
  | inl e ↦
      rw (e, touch)
        (sum-insert_absent String_discrete q id (blank_stat roster id) m e
          ∙ ap (◌+ℤ◌ (total q m)) z
          ∙ +ℤ_zero (total q m))
  | inr (s, e) ↦ rw (e, touch)
]

-- A quantity that starts at nothing, is not counted by orders, and of which a trade gives `d` to the
-- aggressor and takes `d` from the resting side.
record IsZeroSum (roster : List RosterEntry) (q : BotStat → ℤ) (d : WireTrade → ℤ) : Type 0 where
  blank : (id : String) → q (blank_stat roster id) ≡ pos 0
  counted : (op : Op) (c : Bool) (s : BotStat) → q (count_order op c s) ≡ q s +ℤ pos 0
  bought :
      (t : WireTrade) (s : BotStat)
      → q (buy (direction t.aggressor_side) t.qty t.price s) ≡ q s +ℤ d t
  sold :
      (t : WireTrade) (s : BotStat)
      → q (sell (direction t.aggressor_side) t.qty t.price s) ≡ q s +ℤ (pos 0 -ℤ d t)

module _ (roster : List RosterEntry) (q : BotStat → ℤ) (d : WireTrade → ℤ)
    (z : IsZeroSum roster q d) where
  trade_step-total :
      (s : Tally) (t : WireTrade) → total q (trade_step roster s t).stats ≡ total q s.stats
  unfolding trade_step
  trade_step-total s t =
      sum-update q roster t.resting_node _ _ _ (z.sold t) (z.blank t.resting_node)
      ∙ ap (λ (x : ℤ). x +ℤ (pos 0 -ℤ d t))
          (sum-update q roster t.aggressor_node _ _ s.stats (z.bought t) (z.blank t.aggressor_node))
      ∙ add_sub_cancel (total q s.stats) (d t)

  trade_loop-total :
      (s : Tally) (ts : List WireTrade) → total q (trade_loop roster s ts).stats ≡ total q s.stats
  unfolding trade_loop
  trade_loop-total s [] = refl
  trade_loop-total s (t ∷ ts) = trade_loop-total (trade_step roster s t) ts ∙ trade_step-total s t

  frame_step-total :
      (s : Tally) (f : Frame) → total q (frame_step roster s f).stats ≡ total q s.stats
  unfolding frame_step batch_step
  frame_step-total s (of_book f) = refl
  frame_step-total s (of_batch b) =
      trade_loop-total _ b.trades
      ∙ sum-update q roster b.order.node _ _ s.stats (z.counted b.op b.order.cancel_ok)
          (z.blank b.order.node)
      ∙ +ℤ_zero _

  frame_loop-total :
      (s : Tally) (fs : List Frame) → total q (frame_loop roster s fs).stats ≡ total q s.stats
  unfolding frame_loop
  frame_loop-total s [] = refl
  frame_loop-total s (f ∷ fs) = frame_loop-total (frame_step roster s f) fs ∙ frame_step-total s f

  seat-total : (rs : List RosterEntry) (m : Stats) → total q (seat roster rs m) ≡ total q m
  unfolding seat
  seat-total [] m = refl
  seat-total (r ∷ rs) m =
      seat-total rs (touch roster r.id m) ∙ sum-touch q roster r.id m (z.blank r.id)

  tally-total : (frames : List Frame) (idx : ℤ) → total q (tally frames idx roster).stats ≡ pos 0
  unfolding tally
  tally-total frames idx = frame_loop-total _ (up_to frames idx) ∙ seat-total roster []

abbrev shift : WireTrade → ℤ
shift t = direction t.aggressor_side *ℤ t.qty

count_position : (op : Op) (c : Bool) (s : BotStat) → (count_order op c s).position ≡ s.position
count_position Op.submit c s = refl
count_position Op.cancel true s = refl
count_position Op.cancel false s = refl

count_cash : (op : Op) (c : Bool) (s : BotStat) → (count_order op c s).cash ≡ s.cash
count_cash Op.submit c s = refl
count_cash Op.cancel true s = refl
count_cash Op.cancel false s = refl

position-IsZeroSum : (roster : List RosterEntry) → IsZeroSum roster (λ s. s.position) shift
unfolding blank_stat
position-IsZeroSum roster = record {
  blank = λ id. refl;
  counted = λ op c s. count_position op c s ∙ sym (+ℤ_zero s.position);
  bought = λ t s. refl;
  sold = λ t s. sub_as_add s.position (shift t);
}

cash-IsZeroSum :
    (roster : List RosterEntry) → IsZeroSum roster (λ s. s.cash) (λ t. pos 0 -ℤ shift t *ℤ t.price)
unfolding blank_stat
cash-IsZeroSum roster = record {
  blank = λ id. refl;
  counted = λ op c s. count_cash op c s ∙ sym (+ℤ_zero s.cash);
  bought = λ t s. sub_as_add s.cash (shift t *ℤ t.price);
  sold = λ t s. omega int_laws;
}

mark_all-total :
    (q : BotStat → ℤ) (price : ℤ) (m : Stats)
    → ((s : BotStat) → q (mark price s) ≡ q s)
    → total q (mark_all price m) ≡ total q m
unfolding mark_all
mark_all-total q price [] h = refl
mark_all-total q price ((k, s) ∷ m) h = ap₂ ◌+ℤ◌ (h s) (mark_all-total q price m h)

mark_all-pnl :
    (price : ℤ) (m : Stats)
    → total (λ s. s.pnl) (mark_all price m)
      ≡ total (λ s. s.cash) m +ℤ total (λ s. s.position) m *ℤ price
unfolding mark_all
mark_all-pnl price [] = sym (ap (◌+ℤ◌ (pos 0)) (zero_mul price) ∙ +ℤ_zero (pos 0))
mark_all-pnl price ((k, s) ∷ m) =
    ap (◌+ℤ◌ (s.cash +ℤ s.position *ℤ price)) (mark_all-pnl price m)
    ∙ +ℤ_interchange s.cash (s.position *ℤ price) (total (λ s. s.cash) m) _
    ∙ ap (◌+ℤ◌ (s.cash +ℤ total (λ s. s.cash) m))
        (sym (+ℤ_mul s.position (total (λ s. s.position) m) price))

-- Over all participants the positions, the cash and the profits that `computeStats` reports each add
-- up to zero, whatever the frames, the index and the roster.
pub compute_stats_zero_sum :
    (frames : List Frame) (idx : ℤ) (roster : List RosterEntry)
    → let stats = (compute_stats frames idx roster).stats in
      (total (λ s. s.position) stats ≡ pos 0)
      × (total (λ s. s.cash) stats ≡ pos 0)
      × (total (λ s. s.pnl) stats ≡ pos 0)
unfolding compute_stats
compute_stats_zero_sum frames idx roster =
    let s = tally frames idx roster in
    let positions = tally-total roster _ _ (position-IsZeroSum roster) frames idx in
    let cash = tally-total roster _ _ (cash-IsZeroSum roster) frames idx in
    (
      mark_all-total (λ s. s.position) s.last_price s.stats (λ s. refl) ∙ positions,
      mark_all-total (λ s. s.cash) s.last_price s.stats (λ s. refl) ∙ cash,
      mark_all-pnl s.last_price s.stats
          ∙ ap₂ ◌+ℤ◌ cash (ap (λ (x : ℤ). x *ℤ s.last_price) positions ∙ zero_mul s.last_price)
          ∙ +ℤ_zero (pos 0),
    )
