-- ===== src/Normalizer/Bound.antt =====
-- The resting map of web/gateway/normalize.ts stays a map, and within its limit.
use market_sandbox.Prelude.{
  ◌+◌, ◌≤◌, ◌≡◌, refl, Option, none, some, List, [], ◌∷◌, Option-cases, Bool-cases, inl, inr, arith,
  ltb, ℤ, pos, ◌-ℤ◌, leb_ℤ, String, String_discrete,
}
use market_sandbox.JsMap
use market_sandbox.JsMap.{Distinct, size}
use market_sandbox.JsMap.Laws.{size-insert, size-erase-le, insert-Distinct, erase-Distinct}
use market_sandbox.Wire.{WireOrder, WireTrade, Op, submit, cancel}
use market_sandbox.Normalizer.{Normalizer, settle, offer_book, normalize, order_of, op_of}
use market_sandbox.Normalizer.Raw.{RawBatch, RawBook, RawTrade, num, text, or_else, empty_order}
use market_sandbox.Normalizer.Resting.{
  Resting, RestingMap, resting_max, take_fill, attribute, drop_first, remember, forget, is_resting,
}

pub record IsValid (m : RestingMap) : Type 0 where
  pub distinct : Distinct String_discrete m
  pub bounded : size m ≤ resting_max

take_fill-size-le : (id : String) (qty : ℤ) (m : RestingMap) → size (take_fill id qty m) ≤ size m
unfolding take_fill
take_fill-size-le id qty m = elim (Option-cases (JsMap.lookup String_discrete id m)) [
  | inl e ↦ rw (e, take_fill) (omega arith)
  | inr (r, e) ↦ ground (
    arith,
    size-insert String_discrete id (record r { remaining = r.remaining -ℤ qty }) m,
    size-erase-le String_discrete id m,
  )
]

take_fill-Distinct :
    (id : String) (qty : ℤ) (m : RestingMap)
    → Distinct String_discrete m
    → Distinct String_discrete (take_fill id qty m)
unfolding take_fill
take_fill-Distinct id qty m h = elim (Option-cases (JsMap.lookup String_discrete id m)) [
  | inl e ↦ rw (e, take_fill) h
  | inr (r, e) ↦ elim (Bool-cases (leb_ℤ (r.remaining -ℤ qty) (pos 0))) [
    | inl gone ↦ rw (e, take_fill, gone) (erase-Distinct String_discrete id m h)
    | inr left ↦ rw (e, take_fill, left) (insert-Distinct String_discrete id _ m h)
  ]
]

take_fill-IsValid :
    (id : String) (qty : ℤ) (m : RestingMap) → IsValid m → IsValid (take_fill id qty m)
take_fill-IsValid id qty m h = record {
  distinct = take_fill-Distinct id qty m h.distinct;
  bounded = omega (arith, take_fill-size-le id qty m);
}

pub attribute-IsValid :
    (node : String) (ts : List RawTrade) (m : RestingMap)
    → IsValid m
    → IsValid (attribute node ts m).0
unfolding attribute
attribute-IsValid node [] m h = h
attribute-IsValid node (t ∷ ts) m h =
    attribute-IsValid node ts _ (take_fill-IsValid (text t.resting_order_id) (num t.quantity) m h)

drop_first-IsValid :
    (m : RestingMap)
    → Distinct String_discrete m
    → size m ≤ resting_max + 1
    → IsValid (drop_first m)
unfolding drop_first JsMap.erase
drop_first-IsValid [] d h = record { distinct = tt; bounded = omega arith }
drop_first-IsValid ((k, e) ∷ m) d h = record {
  distinct = erase-Distinct String_discrete k ((k, e) ∷ m) d;
  bounded = ground (arith, size-erase-le String_discrete k m);
}

remember-IsValid :
    (id : String) (e : Resting) (m : RestingMap) → IsValid m → IsValid (remember id e m)
unfolding remember
remember-IsValid id e m h =
    let d = insert-Distinct String_discrete id e m h.distinct in
    elim (Bool-cases (ltb resting_max (size (JsMap.insert String_discrete id e m)))) [
      | inl over ↦
          rw over
            (drop_first-IsValid _ d (ground (arith, size-insert String_discrete id e m, h.bounded)))
      | inr fits ↦ rw fits (record { distinct = d; bounded = ground arith })
    ]

settle-IsValid : (op : Op) (o : WireOrder) (m : RestingMap) → IsValid m → IsValid (settle op o m)
unfolding settle forget
settle-IsValid submit o m h = elim (Bool-cases (is_resting o.status)) [
  | inl resting ↦ rw resting (remember-IsValid o.id _ m h)
  | inr other ↦ rw other h
]
settle-IsValid cancel o m h = elim (Bool-cases o.cancel_ok) [
  | inl done ↦
      rw (done, settle)
        (record {
          distinct = erase-Distinct String_discrete o.id m h.distinct;
          bounded = omega (arith, size-erase-le String_discrete o.id m);
        })
  | inr failed ↦ rw (failed, settle) h
]

pub offer_book-resting :
    (b : Option RawBook) (ts : List WireTrade) (now : ℤ) (n : Normalizer)
    → (offer_book b ts now n).0.resting ≡ n.resting
unfolding offer_book
offer_book-resting none ts now n = refl
offer_book-resting (some b) ts now n = ground arith

-- Whatever message arrives, `normalize` keeps the keys of the resting map distinct and never leaves more
-- than 50,000 entries in it.
pub normalize-IsValid :
    (n : Normalizer) (raw : RawBatch) (now : ℤ)
    → IsValid n.resting
    → IsValid (normalize n raw now).0.resting
unfolding normalize
normalize-IsValid n raw now h =
    let o = or_else raw.order empty_order in
    rw (offer_book-resting raw.book _ now _) (
      settle-IsValid (op_of o) (order_of o) _
        (attribute-IsValid (order_of o).node (or_else raw.trades []) n.resting h))
