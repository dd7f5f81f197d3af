-- ===== src/Normalizer/Resting.antt =====
-- The map of resting orders in web/gateway/normalize.ts: who owns an order and what is left of it.
use market_sandbox.Prelude.{
  ℕ, Option, none, some, List, [], ◌∷◌, Bool, true, false, if◌then◌else◌, ltb, ℤ, pos, ◌-ℤ◌, leb_ℤ,
  String, String_discrete,
}
use market_sandbox.JsMap
use market_sandbox.JsMap.{JsMap}
use market_sandbox.Wire.{WireTrade, Status, bid}
use market_sandbox.Normalizer.Raw.{RawTrade, num, text, or_else, side_of}

pub record Resting : Type 0 where
  pub node : String
  pub remaining : ℤ

abbrev pub RestingMap : Type 0
RestingMap = JsMap String Resting

-- `entry.remaining -= num(t.quantity)`, and the deletion of an entry with nothing left.
unfoldable pub take_fill : String → ℤ → RestingMap → RestingMap
take_fill id qty m = elim (JsMap.lookup String_discrete id m) [
  | none ↦ m
  | some e ↦
      let left = e.remaining -ℤ qty in
      if leb_ℤ left (pos 0)
      then JsMap.erase String_discrete id m
      else JsMap.insert String_discrete id (record e { remaining = left }) m
]

-- `entry?.node ?? "?"`
abbrev pub owner_of : Option Resting → String
owner_of none = "?"
owner_of (some e) = e.node

-- The object that the callback of `map` returns.
abbrev pub wire_trade : String → RawTrade → String → WireTrade
wire_trade node t resting_node = record {
  id = text t.trade_id;
  price = num t.price;
  qty = num t.quantity;
  aggressor_side = or_else (side_of t.aggressor_side) bid;
  aggressor = text t.aggressor_order_id;
  aggressor_node = node;
  resting = text t.resting_order_id;
  resting_node = resting_node;
}

-- The trades of a batch in order, each with the effect of its callback on the map.
unfoldable pub attribute : String → List RawTrade → RestingMap → RestingMap × List WireTrade
unfolding take_fill
attribute node [] m = (m, [])
attribute node (t ∷ ts) m =
    let id = text t.resting_order_id in
    let first = wire_trade node t (owner_of (JsMap.lookup String_discrete id m)) in
    let (m', rest) = attribute node ts (take_fill id (num t.quantity) m) in (m', first ∷ rest)

abbrev pub resting_max : ℕ
resting_max = 50_000

-- `this.resting.keys().next().value`, deleted.
unfoldable pub drop_first : RestingMap → RestingMap
drop_first [] = []
drop_first ((k, e) ∷ m) = JsMap.erase String_discrete k ((k, e) ∷ m)

unfoldable pub remember : String → Resting → RestingMap → RestingMap
unfolding drop_first
remember id e m =
    let m' = JsMap.insert String_discrete id e m in
    if ltb resting_max (JsMap.size m') then drop_first m' else m'

unfoldable pub forget : String → RestingMap → RestingMap
forget id m = JsMap.erase String_discrete id m

-- `status === "queued" || status === "partial"`
abbrev pub is_resting : Option Status → Bool
is_resting (some Status.queued) = true
is_resting (some Status.partial) = true
is_resting _ = false
