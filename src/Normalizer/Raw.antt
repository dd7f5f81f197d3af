-- ===== src/Normalizer/Raw.antt =====
-- The raw telemetry messages that `normalize` reads, and its tables and its `num` (web/gateway/normalize.ts).
use market_sandbox.Prelude.{Option, none, some, List, Bool, ite, ℤ, pos, String, String_discrete}
use market_sandbox.Wire.{Side, OrderType, Status, bid, ask, market, limit}

pub record RawTrade : Type 0 where
  pub trade_id : Option String
  pub price : Option ℤ
  pub quantity : Option ℤ
  pub aggressor_side : Option String
  pub aggressor_order_id : Option String
  pub resting_order_id : Option String

pub record RawOrder : Type 0 where
  pub op : Option String
  pub order_id : Option String
  pub node_id : Option String
  pub side : Option String
  pub type : Option String
  pub price : Option ℤ
  pub quantity : Option ℤ
  pub status : Option String
  pub filled_quantity : Option ℤ
  pub avg_price : Option ℤ
  pub rejection_reason : Option String
  pub cancel_successful : Option Bool

pub record RawTrace : Type 0 where
  pub seq : Option ℤ
  pub t_rpc_in : Option ℤ
  pub t_enqueue : Option ℤ
  pub t_dequeue : Option ℤ
  pub t_match_done : Option ℤ
  pub t_promise_set : Option ℤ
  pub t_publish : Option ℤ

pub record RawTop : Type 0 where
  pub bid_price : Option ℤ
  pub bid_quantity : Option ℤ
  pub ask_price : Option ℤ
  pub ask_quantity : Option ℤ

pub record RawLevel : Type 0 where
  pub price : Option ℤ
  pub quantity : Option ℤ
  pub orders : Option ℤ

pub record RawBook : Type 0 where
  pub bids : Option (List RawLevel)
  pub asks : Option (List RawLevel)

pub record RawBatch : Type 0 where
  pub timestamp : Option ℤ
  pub order : Option RawOrder
  pub trace : Option RawTrace
  pub trades : Option (List RawTrade)
  pub top_of_book : Option RawTop
  pub book : Option RawBook

-- `v ?? d`
abbrev pub or_else {ℓ} : {A : Type ℓ} → Option A → A → A
or_else none d = d
or_else (some a) d = a

abbrev pub num : Option ℤ → ℤ
num none = pos 0
num (some v) = v

abbrev pub text : Option String → String
text v = or_else v ""

-- `raw.order ?? {}` and `raw.trace ?? {}`
abbrev pub empty_order : RawOrder
empty_order = record {
  op = none;
  order_id = none;
  node_id = none;
  side = none;
  type = none;
  price = none;
  quantity = none;
  status = none;
  filled_quantity = none;
  avg_price = none;
  rejection_reason = none;
  cancel_successful = none;
}

abbrev pub empty_trace : RawTrace
empty_trace = record {
  seq = none;
  t_rpc_in = none;
  t_enqueue = none;
  t_dequeue = none;
  t_match_done = none;
  t_promise_set = none;
  t_publish = none;
}

-- The tables SIDE, TYPE and STATUS.
abbrev pub side_named : String → Option Side
side_named s =
    ite (String_discrete s "BID") (some bid) (ite (String_discrete s "ASK") (some ask) none)

abbrev pub type_named : String → Option OrderType
type_named s =
    ite (String_discrete s "MARKET") (some market)
      (ite (String_discrete s "LIMIT") (some limit) none)

abbrev pub status_named : String → Option Status
status_named s = ite (String_discrete s "FILLED") (some Status.filled) (
    ite (String_discrete s "PARTIAL") (some Status.partial) (
      ite (String_discrete s "QUEUED") (some Status.queued)
        (ite (String_discrete s "REJECTED") (some Status.rejected) none)))

abbrev pub side_of : Option String → Option Side
side_of none = none
side_of (some s) = side_named s

abbrev pub type_of : Option String → Option OrderType
type_of none = none
type_of (some s) = type_named s

abbrev pub status_of : Option String → Option Status
status_of none = none
status_of (some s) = status_named s
