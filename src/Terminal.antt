-- ===== src/Terminal.antt =====
-- web/src/components/Terminal.tsx: the order ticket. A text field stands for the number that it holds: the price
-- and the whole part of the quantity, `none` where the text is not a number.
pub mod Answered
pub mod Cancelled
pub mod Form
pub mod Button
pub mod Tests
use market_sandbox.Prelude.{
  ℕ, zero, Option, none, some, Bool, true, false, not, ◌&&◌, ◌||◌, if◌then◌else◌, ite, ℤ, pos,
  ltb_ℤ, String, String_discrete,
}
use market_sandbox.Wire.{Side, OrderType, bid, market, limit}
use market_sandbox.Derive.Format.{fmt_price}
use market_sandbox.Feed.Socket.{OrderResult}
use market_sandbox.Feed.Requests.{Requests}
use market_sandbox.Feed.Orders.{Ask, Start, refused, sent, place_order, cancel_order}

-- A message under the ticket, with the values that its text names; an average price is kept as it is before
-- `fmtPrice`.
pub data Notice : Type 0 where
  went_wrong : String → Notice
  was_rejected : String → Notice
  was_filled : Option ℤ → ℤ → Notice
  was_partly_filled : Option ℤ → Notice
  is_resting : Option String → Notice
  was_cancelled : String → Notice
  not_cancelled : String → Notice

pub record Ticket : Type 0 where
  pub side : Side
  pub type : OrderType
  pub p : Option ℤ
  pub q : Option ℤ
  pub busy : Bool
  pub msg : Option Notice

abbrev pub initial : Ticket
initial = record {
  side = bid;
  type = limit;
  p = some (pos 0);
  q = some (pos 5);
  busy = false;
  msg = none;
}

-- The effect on a new `prefill`; the field gets the price as `fmtPrice` shows it.
abbrev pub prefilled : Side → ℤ → Ticket → Ticket
prefilled side price t = record t { side = side; type = limit; p = some (fmt_price price) }

abbrev pub is_market : OrderType → Bool
is_market market = true
is_market limit = false

-- `v > 0`
abbrev pub is_positive : Option ℤ → Bool
is_positive none = false
is_positive (some v) = ltb_ℤ (pos 0) v

unfoldable pub valid : Ticket → Bool
valid t = is_positive t.q && (is_market t.type || is_positive t.p)

-- The price that is sent.
abbrev pub asked_price : Ticket → Option ℤ
asked_price t = if is_market t.type then some (pos 0) else t.p

-- `submit` up to its wait; without a valid ticket, or with one on its way, nothing happens.
unfoldable pub submit : Bool → Ticket → Requests → Ticket × Requests × Option Start
unfolding valid place_order
submit can t s =
    if not (valid t) || t.busy
    then (t, s, none)
    else (let (s', start) = place_order can t.side t.type (asked_price t) t.q s in
        (record t { busy = true }, s', some start))

abbrev pub reason_or : String → OrderResult → String
reason_or d r = elim r.reason [ none ↦ d | some s ↦ s ]

abbrev pub has_status : String → OrderResult → Bool
has_status s r = elim r.status [ none ↦ false | some t ↦ ite (String_discrete t s) true false ]

unfoldable pub notice : OrderResult → Notice
notice r =
    if not r.ok
    then went_wrong (reason_or "The order didn't go through." r)
    else if has_status "rejected" r
    then was_rejected (reason_or "Rejected." r)
    else if has_status "filled" r
    then was_filled r.filled (elim r.avg [ none ↦ pos 0 | some v ↦ v ])
    else if has_status "partial" r
    then was_partly_filled r.filled
    else is_resting r.order_id

-- `submit` from its answer on.
unfoldable pub settled : OrderResult → Ticket → Ticket
unfolding notice
settled r t = record t { busy = false; msg = some (notice r) }

-- `cancel` up to its wait; it does not ask whether another order is on its way.
abbrev pub cancel : Bool → String → Requests → Requests × Start
cancel can id s = cancel_order can id s

-- `cancel` from its answer on.
abbrev pub cancelled : String → OrderResult → Ticket → Ticket
cancelled id r t = record t {
  msg = some (if r.ok then was_cancelled id else not_cancelled (reason_or "Couldn't cancel." r));
}
