-- ===== src/Derive/Stats.antt =====
-- `computeStats` of web/src/derive.ts: every participant's counters, position, cash and profit, and the
-- human's resting orders, from the frames up to an index. A BotStat that the source reaches through two
-- names is one entry of the map, read again at each use.
pub mod Sums
pub mod Ledger
pub mod Reports
pub mod Orders
pub mod Fills
pub mod Seats
pub mod Tests
use market_sandbox.Prelude.{
  ℕ, ◌+◌, Option, none, some, List, [], ◌∷◌, map, Bool, true, false, ◌||◌, ite, if◌then◌else◌, ℤ,
  pos, negsuc, ◌+ℤ◌, ◌-ℤ◌, ◌*ℤ◌, leb_ℤ, String, String_discrete,
}
use market_sandbox.JsMap
use market_sandbox.JsMap.{JsMap}
use market_sandbox.Wire.{
  Frame, WireBatch, WireOrder, WireTrade, RosterEntry, Side, Op, Status, bid, ask, of_batch,
  of_book,
}
use market_sandbox.Derive.{up_to}

pub record BotStat : Type 0 where
  pub id : String
  pub strategy : String
  pub orders : ℤ
  pub cancels : ℤ
  pub fills : ℤ
  pub volume : ℤ
  pub position : ℤ
  pub cash : ℤ
  pub pnl : ℤ

pub record OpenOrder : Type 0 where
  pub id : String
  pub side : Side
  pub price : ℤ
  pub remaining : ℤ

-- `roster.find((r) => r.id === id)?.strategy`
pub find_strategy : String → List RosterEntry → Option String
find_strategy id [] = none
find_strategy id (r ∷ rs) = ite (String_discrete r.id id) (some r.strategy) (find_strategy id rs)

pub default_strategy : String → String
default_strategy id = ite (String_discrete id "human") "you" id

pub blank_stat : List RosterEntry → String → BotStat
unfolding find_strategy default_strategy
blank_stat roster id = record {
  id = id;
  strategy = elim (find_strategy id roster) [ some s ↦ s | none ↦ default_strategy id ];
  orders = pos 0;
  cancels = pos 0;
  fills = pos 0;
  volume = pos 0;
  position = pos 0;
  cash = pos 0;
  pnl = pos 0;
}

abbrev pub Stats : Type 0
Stats = JsMap String BotStat

-- `get(id)`: adds the participant when it is not there.
pub touch : List RosterEntry → String → Stats → Stats
unfolding blank_stat
touch roster id stats = elim (JsMap.lookup String_discrete id stats) [
  | some s ↦ stats
  | none ↦ JsMap.insert String_discrete id (blank_stat roster id) stats
]

-- An assignment to fields of `get(id)`.
pub update : List RosterEntry → String → (BotStat → BotStat) → Stats → Stats
unfolding blank_stat
update roster id f stats = elim (JsMap.lookup String_discrete id stats) [
  | some s ↦ JsMap.insert String_discrete id (f s) stats
  | none ↦ JsMap.insert String_discrete id (f (blank_stat roster id)) stats
]

pub record Tally : Type 0 where
  pub stats : Stats
  pub open_orders : JsMap String OpenOrder
  pub last_price : ℤ

-- `dir`
abbrev pub direction : Side → ℤ
direction bid = pos 1
direction ask = negsuc 0

abbrev pub buy : ℤ → ℤ → ℤ → BotStat → BotStat
buy dir qty price s = record s {
  fills = s.fills +ℤ pos 1;
  volume = s.volume +ℤ qty;
  position = s.position +ℤ dir *ℤ qty;
  cash = s.cash -ℤ dir *ℤ qty *ℤ price;
}

abbrev pub sell : ℤ → ℤ → ℤ → BotStat → BotStat
sell dir qty price s = record s {
  fills = s.fills +ℤ pos 1;
  volume = s.volume +ℤ qty;
  position = s.position -ℤ dir *ℤ qty;
  cash = s.cash +ℤ dir *ℤ qty *ℤ price;
}

-- A fill of one of the human's resting orders.
pub fill_open : String → ℤ → JsMap String OpenOrder → JsMap String OpenOrder
fill_open id qty orders = elim (JsMap.lookup String_discrete id orders) [
  | none ↦ orders
  | some o ↦
      let left = o.remaining -ℤ qty in
      if leb_ℤ left (pos 0)
      then JsMap.erase String_discrete id orders
      else JsMap.insert String_discrete id (record o { remaining = left }) orders
]

pub trade_step : List RosterEntry → Tally → WireTrade → Tally
unfolding update fill_open
trade_step roster s t =
    let dir = direction t.aggressor_side in
    let stats = update roster t.aggressor_node (buy dir t.qty t.price) s.stats in
    record s {
      last_price = t.price;
      stats = update roster t.resting_node (sell dir t.qty t.price) stats;
      open_orders = fill_open t.resting t.qty s.open_orders;
    }

pub trade_loop : List RosterEntry → Tally → List WireTrade → Tally
trade_loop roster s [] = s
trade_loop roster s (t ∷ ts) = trade_loop roster (trade_step roster s t) ts

-- `me.orders++` or `me.cancels++`
abbrev pub count_order : Op → Bool → BotStat → BotStat
count_order Op.submit cancel_ok s = record s { orders = s.orders +ℤ pos 1 }
count_order Op.cancel true s = record s { cancels = s.cancels +ℤ pos 1 }
count_order Op.cancel false s = s

-- `o.status === "queued" || o.status === "partial"`
abbrev pub is_resting : Option Status → Bool
is_resting (some Status.queued) = true
is_resting (some Status.partial) = true
is_resting _ = false

-- The human's own order at the end of a batch.
pub track_human : Op → WireOrder → JsMap String OpenOrder → JsMap String OpenOrder
track_human Op.submit o orders = elim o.side [
  | none ↦ orders
  | some side ↦
      if is_resting o.status
      then JsMap.insert String_discrete o.id
          (record { id = o.id; side = side; price = o.price; remaining = o.qty -ℤ o.filled }) orders
      else orders
]
track_human Op.cancel o orders =
    if o.cancel_ok then JsMap.erase String_discrete o.id orders else orders

pub batch_step : List RosterEntry → Tally → WireBatch → Tally
unfolding update trade_loop trade_step track_human
batch_step roster s b =
    let counted = record s {
      stats = update roster b.order.node (count_order b.op b.order.cancel_ok) s.stats;
    } in
    let traded = trade_loop roster counted b.trades in
    record traded {
      open_orders =
          ite (String_discrete b.order.node "human") (track_human b.op b.order traded.open_orders)
            traded.open_orders;
    }

pub frame_step : List RosterEntry → Tally → Frame → Tally
unfolding batch_step
frame_step roster s (of_batch b) = batch_step roster s b
frame_step roster s (of_book f) = s

pub frame_loop : List RosterEntry → Tally → List Frame → Tally
frame_loop roster s [] = s
frame_loop roster s (f ∷ fs) = frame_loop roster (frame_step roster s f) fs

-- `for (const r of roster) get(r.id)`
pub seat : List RosterEntry → List RosterEntry → Stats → Stats
unfolding touch
seat roster [] stats = stats
seat roster (r ∷ rs) stats = seat roster rs (touch roster r.id stats)

-- The tally before profits are worked out.
pub tally : List Frame → ℤ → List RosterEntry → Tally
unfolding frame_loop frame_step seat
tally frames idx roster =
    let start : Tally = record {
      stats = seat roster roster [];
      open_orders = [];
      last_price = pos 0;
    } in
    frame_loop roster start (up_to frames idx)

-- `s.pnl = s.cash + s.position * lastPrice`
abbrev pub mark : ℤ → BotStat → BotStat
mark price s = record s { pnl = s.cash +ℤ s.position *ℤ price }

pub mark_all : ℤ → Stats → Stats
mark_all price [] = []
mark_all price ((k, s) ∷ m) = (k, mark price s) ∷ mark_all price m

pub compute_stats : List Frame → ℤ → List RosterEntry → Tally
unfolding tally mark_all
compute_stats frames idx roster =
    let s = tally frames idx roster in record s { stats = mark_all s.last_price s.stats }
