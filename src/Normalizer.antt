-- ===== src/Normalizer.antt =====
-- web/gateway/normalize.ts: the gateway's translation of the exchange's telemetry. The raw message is what
-- the protobuf loader hands over with `defaults: false`: every field may be missing, and `none` is
-- `undefined`. `now` is the argument that the source takes from `Date.now()`.
pub mod Raw
pub mod Resting
pub mod Bound
pub mod Attribution
pub mod Memory
pub mod Books
pub mod Tests
use market_sandbox.Prelude.{
  ℕ, ◌+◌, Option, none, some, List, [], ◌∷◌, map, length, Bool, true, false, not, ◌&&◌, ◌||◌, ite,
  if◌then◌else◌, ltb, ℤ, pos, ◌-ℤ◌, leb_ℤ, max_ℤ, String, String_discrete,
}
use market_sandbox.JsMap
use market_sandbox.JsMap.{JsMap}
use market_sandbox.Wire.{
  WireTrade, WireBook, WireOrder, WireTrace, WireBatch, TopOfBook, Level, Status, Op, submit,
  cancel,
}
use Raw.{
  RawTrade, RawOrder, RawTrace, RawTop, RawLevel, RawBook, RawBatch, num, text, or_else,
  empty_order, empty_trace, side_of, type_of, status_of,
}
use Resting.{RestingMap, attribute, remember, forget, is_resting}

pub record Normalizer : Type 0 where
  pub resting : RestingMap
  pub last_book_at : ℤ
  pub pending_book : Option WireBook

abbrev pub initial : Normalizer
initial = record { resting = []; last_book_at = pos 0; pending_book = none }

-- `flushBook`
unfoldable pub flush_book : Normalizer → Normalizer × Option WireBook
flush_book n = (record n { pending_book = none }, n.pending_book)

-- `rel`
abbrev pub relative : ℤ → Option ℤ → ℤ
relative rpc_in v = max_ℤ (pos 0) (num v -ℤ rpc_in)

abbrev pub top_of : RawTop → TopOfBook
top_of t = record {
  bid = elim t.bid_price [ none ↦ none | some p ↦ some p ];
  bid_qty = num t.bid_quantity;
  ask = elim t.ask_price [ none ↦ none | some p ↦ some p ];
  ask_qty = num t.ask_quantity;
}

-- `lv`
abbrev pub level : RawLevel → Level
level l = (num l.price, num l.quantity, num l.orders)

abbrev pub book_of : RawBook → WireBook
book_of b = record { bids = map level (or_else b.bids []); asks = map level (or_else b.asks []) }

abbrev pub trace_of : RawTrace → WireTrace
trace_of tr =
    let rpc_in = num tr.t_rpc_in in
    record {
      enqueue = relative rpc_in tr.t_enqueue;
      dequeue = relative rpc_in tr.t_dequeue;
      match_done = relative rpc_in tr.t_match_done;
      promise_set = relative rpc_in tr.t_promise_set;
      publish = relative rpc_in tr.t_publish;
    }

-- `o.op === "OP_CANCEL"`, as the operation that the batch names.
abbrev pub op_of : RawOrder → Op
op_of o = elim o.op [ none ↦ submit | some s ↦ ite (String_discrete s "OP_CANCEL") cancel submit ]

abbrev pub order_of : RawOrder → WireOrder
order_of o = record {
  id = text o.order_id;
  node = text o.node_id;
  side = side_of o.side;
  type = type_of o.type;
  price = num o.price;
  qty = num o.quantity;
  status = status_of o.status;
  filled = num o.filled_quantity;
  avg = num o.avg_price;
  reason = text o.rejection_reason;
  cancel_ok = or_else o.cancel_successful false;
}

-- The order's own entry, after the trades of its batch.
unfoldable pub settle : Op → WireOrder → RestingMap → RestingMap
settle submit o m =
    if is_resting o.status
    then remember o.id (record { node = o.node; remaining = o.qty -ℤ o.filled }) m
    else m
settle cancel o m = if o.cancel_ok then forget o.id m else m

-- `trades.length > 0`
has_trades : List WireTrade → Bool
has_trades [] = false
has_trades (t ∷ ts) = true

-- The book of a batch: sent with it when it has trades or 33 ms have passed since the last one, and
-- withheld otherwise.
unfoldable pub offer_book :
    Option RawBook → List WireTrade → ℤ → Normalizer → Normalizer × Option WireBook
unfolding has_trades
offer_book none trades now n = (n, none)
offer_book (some b) trades now n =
    if has_trades trades || leb_ℤ (pos 33) (now -ℤ n.last_book_at)
    then (record n { last_book_at = now; pending_book = none }, some (book_of b))
    else (record n { pending_book = some (book_of b) }, none)

unfoldable pub normalize : Normalizer → RawBatch → ℤ → Normalizer × WireBatch
unfolding settle offer_book
normalize n raw now =
    let o = or_else raw.order empty_order in
    let tr = or_else raw.trace empty_trace in
    let op = op_of o in
    let order = order_of o in
    let (filled, trades) = attribute order.node (or_else raw.trades []) n.resting in
    let (n', book) =
      offer_book raw.book trades now (record n { resting = settle op order filled }) in
    (
      n',
      record {
        at = num raw.timestamp;
        seq = num tr.seq;
        op = op;
        order = order;
        trace = trace_of tr;
        trades = trades;
        tob = elim raw.top_of_book [ none ↦ none | some t ↦ some (top_of t) ];
        book = book;
      },
    )
