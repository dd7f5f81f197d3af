-- ===== src/Derive/Stats/Orders.antt =====
-- The human's resting orders that `computeStats` lists beside the statistics.
use market_sandbox.Prelude.{
  ◌≡◌, refl, inl, inr, List, [], ◌∷◌, All, true, Bool-cases, Option-cases, ite, arith, ℤ, pos, ◌-ℤ◌,
  ◌<ℤ◌, leb_ℤ, int_laws, String, String_discrete,
}
use market_sandbox.JsMap
use market_sandbox.JsMap.{JsMap, Distinct}
use market_sandbox.JsMap.Laws.{insert-Distinct, erase-Distinct}
use market_sandbox.JsMap.Entries.{
  AllEntries, AllEntries-insert, AllEntries-erase, AllEntries-lookup,
}
use market_sandbox.Wire.{Frame, WireOrder, WireTrade, RosterEntry, Op, of_batch, of_book}
use market_sandbox.Derive.{up_to}
use market_sandbox.Derive.Stats.{
  OpenOrder, Tally, update, count_order, fill_open, track_human, is_resting, trade_step, trade_loop,
  batch_step, frame_step, frame_loop, tally, compute_stats,
}

-- An entry stands under its order's id and has something left.
abbrev pub IsOpen : String → OpenOrder → Type 0
IsOpen k o = (o.id ≡ k) × (pos 0 <ℤ o.remaining)

pub record IsBook (orders : JsMap String OpenOrder) : Type 0 where
  pub distinct : Distinct String_discrete orders
  pub alive : AllEntries String_discrete IsOpen orders

-- A human order that rests is not filled completely.
abbrev pub IsSensible : Frame → Type 0
IsSensible (of_book f) = Unit
IsSensible (of_batch b) =
    b.op ≡ Op.submit → is_resting b.order.status ≡ true → b.order.filled <ℤ b.order.qty

fill_open-IsBook :
    (id : String) (qty : ℤ) (m : JsMap String OpenOrder) → IsBook m → IsBook (fill_open id qty m)
unfolding fill_open
fill_open-IsBook id qty m h = elim (Option-cases (JsMap.lookup String_discrete id m)) [
  | inl e ↦ rw (e, fill_open) h
  | inr (o, e) ↦ elim (Bool-cases (leb_ℤ (o.remaining -ℤ qty) (pos 0))) [
    | inl gone ↦
        rw (e, fill_open, gone)
          (record {
            distinct = erase-Distinct String_discrete id m h.distinct;
            alive = AllEntries-erase String_discrete IsOpen id m h.alive;
          })
    | inr left ↦
        rw (e, fill_open, left)
          (record {
            distinct = insert-Distinct String_discrete id _ m h.distinct;
            alive =
                AllEntries-insert String_discrete IsOpen id _ m
                  ((AllEntries-lookup String_discrete IsOpen id o m e h.alive).0, ground arith)
                  h.alive;
          })
  ]
]

track_human-IsBook :
    (op : Op) (o : WireOrder) (m : JsMap String OpenOrder)
    → (op ≡ Op.submit → is_resting o.status ≡ true → o.filled <ℤ o.qty)
    → IsBook m
    → IsBook (track_human op o m)
unfolding track_human
track_human-IsBook Op.cancel o m s h = elim (Bool-cases o.cancel_ok) [
  | inl e ↦
      rw (e, track_human)
        (record {
          distinct = erase-Distinct String_discrete o.id m h.distinct;
          alive = AllEntries-erase String_discrete IsOpen o.id m h.alive;
        })
  | inr e ↦ rw (e, track_human) h
]
track_human-IsBook Op.submit o m s h = elim (Option-cases o.side) [
  | inl e ↦ rw (e, track_human) h
  | inr (side, e) ↦ elim (Bool-cases (is_resting o.status)) [
    | inr not_resting ↦ rw (e, track_human, not_resting) h
    | inl resting ↦
        rw (e, track_human, resting)
          (record {
            distinct = insert-Distinct String_discrete o.id _ m h.distinct;
            alive =
                AllEntries-insert String_discrete IsOpen o.id _ m
                  (refl, omega (int_laws, s refl resting)) h.alive;
          })
  ]
]

either_IsBook :
    {P : Type 0} (d : Dec P) {m n : JsMap String OpenOrder}
    → IsBook m
    → IsBook n
    → IsBook (ite d m n)
either_IsBook (yes _) h k = h
either_IsBook (no _) h k = k

module _ (roster : List RosterEntry) where
  trade_loop-IsBook :
      (s : Tally) (ts : List WireTrade)
      → IsBook s.open_orders
      → IsBook (trade_loop roster s ts).open_orders
  unfolding trade_loop trade_step
  trade_loop-IsBook s [] h = h
  trade_loop-IsBook s (t ∷ ts) h =
      trade_loop-IsBook (trade_step roster s t) ts
        (fill_open-IsBook t.resting t.qty s.open_orders h)

  frame_step-IsBook :
      (s : Tally) (f : Frame)
      → IsSensible f
      → IsBook s.open_orders
      → IsBook (frame_step roster s f).open_orders
  unfolding frame_step batch_step
  frame_step-IsBook s (of_book f) ok h = h
  frame_step-IsBook s (of_batch b) ok h =
      let stats = update roster b.order.node (count_order b.op b.order.cancel_ok) s.stats in
      let traded = trade_loop-IsBook (record s { stats = stats }) b.trades h in
      either_IsBook (String_discrete b.order.node "human")
        (track_human-IsBook b.op b.order _ ok traded) traded

  frame_loop-IsBook :
      (s : Tally) (fs : List Frame)
      → All IsSensible fs
      → IsBook s.open_orders
      → IsBook (frame_loop roster s fs).open_orders
  unfolding frame_loop
  frame_loop-IsBook s [] ok h = h
  frame_loop-IsBook s (f ∷ fs) ok h =
      frame_loop-IsBook (frame_step roster s f) fs ok.1 (frame_step-IsBook s f ok.0 h)

-- The orders that `computeStats` lists as the human's resting orders have distinct ids, each stands
-- under its own id, and each has a positive remainder, if no submission among the frames that is reported
-- as resting is filled completely.
pub compute_stats-IsBook :
    (frames : List Frame) (idx : ℤ) (roster : List RosterEntry)
    → All IsSensible (up_to frames idx)
    → IsBook (compute_stats frames idx roster).open_orders
unfolding compute_stats tally
compute_stats-IsBook frames idx roster ok =
    frame_loop-IsBook roster _ (up_to frames idx) ok (record { distinct = tt; alive = tt })
