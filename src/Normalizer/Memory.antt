-- ===== src/Normalizer/Memory.antt =====
-- What one message leaves in the resting map of web/gateway/normalize.ts for its own order.
use market_sandbox.Prelude.{
  ◌≤◌, ◌≡◌, none, some, [], ◌∷◌, true, Bool-cases, inl, inr, arith, ltb, ℤ, ◌-ℤ◌, String,
  String_discrete,
}
use market_sandbox.JsMap
use market_sandbox.JsMap.{size}
use market_sandbox.JsMap.Laws.{lookup-insert_self, lookup-erase}
use market_sandbox.Wire.{WireOrder, Op, submit, cancel}
use market_sandbox.Normalizer.{Normalizer, settle, normalize, order_of, op_of}
use market_sandbox.Normalizer.Raw.{RawBatch, or_else, empty_order}
use market_sandbox.Normalizer.Resting.{
  Resting, RestingMap, resting_max, drop_first, remember, forget, is_resting,
}
use market_sandbox.Normalizer.Bound.{IsValid, attribute-IsValid, offer_book-resting}

drop_first_keeps :
    (id : String) (e : Resting) (m : RestingMap)
    → size m ≤ resting_max
    → ltb resting_max (size (JsMap.insert String_discrete id e m)) ≡ true
    → JsMap.lookup String_discrete id (drop_first (JsMap.insert String_discrete id e m)) ≡ some e
unfolding drop_first JsMap.insert
drop_first_keeps id e [] h over = ground arith
drop_first_keeps id e ((k, x) ∷ m) h over = elim (String_discrete k id) [
  | yes same ↦ absurd (ground arith)
  | no other ↦ ground (
    arith,
    lookup-erase String_discrete k id ((k, x) ∷ JsMap.insert String_discrete id e m),
    lookup-insert_self String_discrete id e ((k, x) ∷ m),
  )
]

-- An order that is remembered is there, although the oldest entry may have made room for it.
lookup-remember :
    (id : String) (e : Resting) (m : RestingMap)
    → size m ≤ resting_max
    → JsMap.lookup String_discrete id (remember id e m) ≡ some e
unfolding remember
lookup-remember id e m h =
    elim (Bool-cases (ltb resting_max (size (JsMap.insert String_discrete id e m)))) [
      | inl over ↦ rw over (drop_first_keeps id e m h over)
      | inr fits ↦ rw fits (lookup-insert_self String_discrete id e m)
    ]

settle_remembers :
    (op : Op) (o : WireOrder) (m : RestingMap)
    → size m ≤ resting_max
    → op ≡ submit
    → is_resting o.status ≡ true
    → JsMap.lookup String_discrete o.id (settle op o m)
      ≡ some (record { node = o.node; remaining = o.qty -ℤ o.filled })
unfolding settle
settle_remembers submit o m h e r = rw r (lookup-remember o.id _ m h)
settle_remembers cancel o m h e r = cc

settle_forgets :
    (op : Op) (o : WireOrder) (m : RestingMap)
    → op ≡ cancel
    → o.cancel_ok ≡ true
    → JsMap.lookup String_discrete o.id (settle op o m) ≡ none
unfolding settle forget
settle_forgets submit o m e r = cc
settle_forgets cancel o m e r = ground (arith, lookup-erase String_discrete o.id o.id m)

-- After a message that reports a submitted order as queued or partly filled, the order stands in the
-- map with its node and the quantity that is not filled, also when the map was full.
pub normalize_remembers :
    (n : Normalizer) (raw : RawBatch) (now : ℤ)
    → IsValid n.resting
    → (normalize n raw now).1.op ≡ submit
    → is_resting (normalize n raw now).1.order.status ≡ true
    → let order = (normalize n raw now).1.order in
      JsMap.lookup String_discrete order.id (normalize n raw now).0.resting
      ≡ some (record { node = order.node; remaining = order.qty -ℤ order.filled })
unfolding normalize
normalize_remembers n raw now h e r =
    let o = or_else raw.order empty_order in
    rw (offer_book-resting raw.book _ now _) (
      settle_remembers (op_of o) (order_of o) _
        (attribute-IsValid (order_of o).node (or_else raw.trades []) n.resting h).bounded e r)

-- After a message that reports a successful cancellation, the order is not in the map.
pub normalize_forgets :
    (n : Normalizer) (raw : RawBatch) (now : ℤ)
    → (normalize n raw now).1.op ≡ cancel
    → (normalize n raw now).1.order.cancel_ok ≡ true
    → JsMap.lookup String_discrete (normalize n raw now).1.order.id (normalize n raw now).0.resting
      ≡ none
unfolding normalize
normalize_forgets n raw now e r =
    let o = or_else raw.order empty_order in
    rw (offer_book-resting raw.book _ now _) (settle_forgets (op_of o) (order_of o) _ e r)
