-- ===== src/Terminal/Form.antt =====
-- What the order ticket of web/src/components/Terminal.tsx shows: its notice, its fields and buttons, the text of the button
-- that submits, the resting orders with their buttons, and the user's position.
use market_sandbox.Prelude.{
  Option, none, some, List, map, Bool, true, false, not, ◌||◌, if◌then◌else◌, ℤ, pos, String,
}
use market_sandbox.Wire.{Side, OrderType, market, limit}
use market_sandbox.Feed.{Feed, is_replay}
use market_sandbox.Derive.Format.{fmt_price}
use market_sandbox.Derive.Stats.{BotStat, OpenOrder}
use market_sandbox.Terminal.{
  Ticket, Notice, went_wrong, was_rejected, was_filled, was_partly_filled, is_resting,
  was_cancelled, not_cancelled, is_market, is_positive, valid,
}

-- The notice where there is no exchange.
pub data Offline : Type 0 where
  watching_recording connecting : Offline

-- The end of the button's text, with the price that it shows.
pub data PriceText : Type 0 where
  at_price : ℤ → PriceText
  at_market nothing : PriceText

-- The button's text; a quantity that is not positive is left out.
pub data ButtonText : Type 0 where
  sending : ButtonText
  order_text : Side → Option ℤ → PriceText → ButtonText

-- A resting order, with the price that is shown; its button cancels the order with its id.
pub record OpenRow : Type 0 where
  pub id : String
  pub side : Side
  pub remaining : ℤ
  pub price : ℤ

pub record Form : Type 0 where
  pub offline : Option Offline
  pub side : Side
  pub type : OrderType
  pub price : Option ℤ
  pub may_price : Bool
  pub qty : Option ℤ
  pub may_submit : Bool
  pub button : ButtonText
  pub result : Option (Bool × Notice)
  pub rows : List OpenRow
  pub position : ℤ
  pub pnl : ℤ

-- The handlers of the fields and of the two pairs of buttons.
pub data Edit : Type 0 where
  to_side : Side → Edit
  to_type : OrderType → Edit
  to_price : Option ℤ → Edit
  to_qty : Option ℤ → Edit

unfoldable pub edit : Edit → Ticket → Ticket
edit (to_side side) t = record t { side = side }
edit (to_type type) t = record t { type = type }
edit (to_price p) t = record t { p = p }
edit (to_qty q) t = record t { q = q }

-- `v > 0 ? v : ""`
abbrev pub if_positive : Option ℤ → Option ℤ
if_positive v = if is_positive v then v else none

abbrev pub limit_text : Option ℤ → PriceText
limit_text none = nothing
limit_text (some p) = at_price (fmt_price p)

abbrev pub price_text : OrderType → Option ℤ → PriceText
price_text limit p = limit_text (if_positive p)
price_text market p = at_market

unfoldable pub button_text : Ticket → ButtonText
button_text t =
    if t.busy then sending else order_text t.side (if_positive t.q) (price_text t.type t.p)

-- `msg.ok`
abbrev pub is_good : Notice → Bool
is_good (went_wrong r) = false
is_good (was_rejected r) = false
is_good (was_filled q p) = true
is_good (was_partly_filled q) = true
is_good (is_resting id) = true
is_good (was_cancelled id) = true
is_good (not_cancelled r) = false

abbrev pub result_of : Option Notice → Option (Bool × Notice)
result_of none = none
result_of (some n) = some (is_good n, n)

abbrev pub open_row : OpenOrder → OpenRow
open_row o = record { id = o.id; side = o.side; remaining = o.remaining; price = fmt_price o.price }

-- `Terminal`
unfoldable pub form : Feed → Bool → List OpenOrder → Option BotStat → Ticket → Form
unfolding button_text valid
form f can open_orders me t = record {
  offline =
      if can then none else some (if is_replay f.source then watching_recording else connecting);
  side = t.side;
  type = t.type;
  price = if is_market t.type then none else t.p;
  may_price = not (is_market t.type);
  qty = t.q;
  may_submit = not (not can || not (valid t) || t.busy);
  button = button_text t;
  result = result_of t.msg;
  rows = map open_row open_orders;
  position = elim me [ none ↦ pos 0 | some b ↦ b.position ];
  pnl = elim me [ none ↦ pos 0 | some b ↦ b.pnl ];
}
