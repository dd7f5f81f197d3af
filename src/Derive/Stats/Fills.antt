-- ===== src/Derive/Stats/Fills.antt =====
-- One resting order of the human through the trades of a batch.
use market_sandbox.Prelude.{
  true, ◌≡◌, ◌∙◌, zero_+ℤ, sub_zero, sub_sub, inl, inr, Option, none, some, List, [], ◌∷◌, All,
  Option-cases, Bool-cases, ite, if◌then◌else◌, arith, ℤ, pos, ◌+ℤ◌, ◌-ℤ◌, ◌<ℤ◌, ◌≤ℤ◌, leb_ℤ,
  int_laws, -ℤ_parts, +ℤ_parts, String, String_discrete,
}
use market_sandbox.JsMap
use market_sandbox.JsMap.{JsMap}
use market_sandbox.JsMap.Laws.{lookup-insert, lookup-erase}
use market_sandbox.Wire.{WireTrade, RosterEntry}
use market_sandbox.Derive.Stats.{OpenOrder, Tally, fill_open, trade_step, trade_loop}

-- The quantity that some trades take from a resting order.
abbrev pub taken : String → List WireTrade → ℤ
taken id [] = pos 0
taken id (t ∷ ts) = ite (String_discrete t.resting id) t.qty (pos 0) +ℤ taken id ts

-- A resting order after a quantity has been taken from it.
abbrev pub left_of : OpenOrder → ℤ → Option OpenOrder
left_of o qty =
    if leb_ℤ (o.remaining -ℤ qty) (pos 0)
    then none
    else some (record o { remaining = o.remaining -ℤ qty })

abbrev pub IsPositive : WireTrade → Type 0
IsPositive t = pos 0 <ℤ t.qty

lookup-fill_open :
    (id other : String) (qty : ℤ) (m : JsMap String OpenOrder)
    → JsMap.lookup String_discrete id (fill_open other qty m)
      ≡ ite
          (String_discrete other id)
          (elim (JsMap.lookup String_discrete id m) [ none ↦ none | some o ↦ left_of o qty ])
          (JsMap.lookup String_discrete id m)
unfolding fill_open
lookup-fill_open id other qty m = elim (Option-cases (JsMap.lookup String_discrete other m)) [
  | inl e ↦ ground arith
  | inr (o, e) ↦ ground (
    arith,
    lookup-insert String_discrete other id (record o { remaining = o.remaining -ℤ qty }) m,
    lookup-erase String_discrete other id m,
  )
]

module _ (roster : List RosterEntry) (id : String) where
  gone_stays :
      (s : Tally) (ts : List WireTrade)
      → JsMap.lookup String_discrete id s.open_orders ≡ none
      → JsMap.lookup String_discrete id (trade_loop roster s ts).open_orders ≡ none
  unfolding trade_loop trade_step
  gone_stays s [] e = e
  gone_stays s (t ∷ ts) e =
      gone_stays (trade_step roster s t) ts
        (ground (arith, lookup-fill_open id t.resting t.qty s.open_orders))

taken_nonneg : (id : String) (ts : List WireTrade) → All IsPositive ts → pos 0 ≤ℤ taken id ts
taken_nonneg id [] h = omega arith
taken_nonneg id (t ∷ ts) h = grind (int_laws, taken_nonneg id ts h.1)

left_of-zero : (o : OpenOrder) → pos 0 <ℤ o.remaining → some o ≡ left_of o (pos 0)
left_of-zero o p = rw (sub_zero o.remaining) (ground arith)

left_of-sub :
    (o : OpenOrder) (q x : ℤ)
    → left_of (record o { remaining = o.remaining -ℤ q }) x ≡ left_of o (q +ℤ x)
left_of-sub o q x = rw (sub_sub o.remaining q x)

left_of_gone :
    (o : OpenOrder) (q x : ℤ)
    → leb_ℤ (o.remaining -ℤ q) (pos 0) ≡ true
    → pos 0 ≤ℤ x
    → none ≡ left_of o (q +ℤ x)
left_of_gone o q x gone h =
    grind (arith, +ℤ_parts q x, -ℤ_parts o.remaining q, -ℤ_parts o.remaining (q +ℤ x))

module _ (id : String) (t : WireTrade) (ts : List WireTrade) where
  taken_other : ¬ (t.resting ≡ id) → taken id (t ∷ ts) ≡ taken id ts
  taken_other other = ground (arith, zero_+ℤ (taken id ts))

  taken_same : t.resting ≡ id → taken id (t ∷ ts) ≡ t.qty +ℤ taken id ts
  taken_same same = ground arith

fill_other :
    (id other : String) (qty : ℤ) (m : JsMap String OpenOrder)
    → ¬ (other ≡ id)
    → JsMap.lookup String_discrete id (fill_open other qty m) ≡ JsMap.lookup String_discrete id m
fill_other id other qty m h = ground (arith, lookup-fill_open id other qty m)

fill_same :
    (id other : String) (qty : ℤ) (m : JsMap String OpenOrder) (o : OpenOrder)
    → other ≡ id
    → JsMap.lookup String_discrete id m ≡ some o
    → JsMap.lookup String_discrete id (fill_open other qty m) ≡ left_of o qty
fill_same id other qty m o h e = ground (arith, lookup-fill_open id other qty m)

module _ (roster : List RosterEntry) (id : String) where
  -- Through the trades of a batch, each of a positive quantity, a resting order of the human loses
  -- exactly what the trades take from it, and it leaves the list exactly when nothing is left.
  pub trade_loop-left_of :
      (s : Tally) (ts : List WireTrade) (o : OpenOrder)
      → All IsPositive ts
      → pos 0 <ℤ o.remaining
      → JsMap.lookup String_discrete id s.open_orders ≡ some o
      → JsMap.lookup String_discrete id (trade_loop roster s ts).open_orders
        ≡ left_of o (taken id ts)
  unfolding trade_loop trade_step
  trade_loop-left_of s [] o h p e = e ∙ left_of-zero o p
  trade_loop-left_of s (t ∷ ts) o h p e = elim (String_discrete t.resting id) [
    | no other ↦ rw (taken_other id t ts other) (
        trade_loop-left_of (trade_step roster s t) ts o h.1 p
          (fill_other id t.resting t.qty s.open_orders other ∙ e))
    | yes same ↦
        let now = fill_same id t.resting t.qty s.open_orders o same e in
        rw (taken_same id t ts same) (elim (Bool-cases (leb_ℤ (o.remaining -ℤ t.qty) (pos 0))) [
          | inl gone ↦
              gone_stays roster id (trade_step roster s t) ts (now ∙ rw gone)
              ∙ left_of_gone o t.qty (taken id ts) gone (taken_nonneg id ts h.1)
          | inr left ↦
              trade_loop-left_of (trade_step roster s t) ts
                (record o { remaining = o.remaining -ℤ t.qty }) h.1 (ground arith) (now ∙ rw left)
              ∙ left_of-sub o t.qty (taken id ts)
        ])
  ]
