-- ===== src/Derive/Stats/Seats.antt =====
-- Who has an entry in the map of `computeStats` of web/src/derive.ts.
use market_sandbox.Prelude.{
  ◌≡◌, refl, ap, ◌∙◌, inl, inr, Option, none, some, Option-cases, List, [], ◌∷◌, Bool, true, false,
  All, All-imp, arith, ℤ, pos, String, String_discrete,
}
use market_sandbox.JsMap
use market_sandbox.JsMap.Laws.{lookup-insert}
use market_sandbox.Wire.{Frame, WireTrade, RosterEntry, Op, of_batch, of_book}
use market_sandbox.Derive.{up_to}
use market_sandbox.Derive.Stats.{
  BotStat, Stats, Tally, blank_stat, touch, update, direction, buy, sell, trade_step, trade_loop,
  count_order, batch_step, frame_step, frame_loop, seat, tally, mark, mark_all, compute_stats,
}

abbrev pub IsOwn : String → Option BotStat → Type 0
IsOwn id none = Unit
IsOwn id (some s) = s.id ≡ id

abbrev pub is_some : Option BotStat → Bool
is_some none = false
is_some (some s) = true

-- Every entry names its key, and the participant has one.
abbrev pub IsSeated : String → Stats → Type 0
IsSeated id m =
    ((j : String) → IsOwn j (JsMap.lookup String_discrete j m))
    × (is_some (JsMap.lookup String_discrete id m) ≡ true)

insert-IsOwn :
    (k j : String) (s : BotStat) (m : Stats)
    → s.id ≡ k
    → IsOwn j (JsMap.lookup String_discrete j m)
    → IsOwn j (JsMap.lookup String_discrete j (JsMap.insert String_discrete k s m))
insert-IsOwn k j s m own h = elim (String_discrete k j) [
  | yes same ↦
      let new : JsMap.lookup String_discrete j (JsMap.insert String_discrete k s m) ≡ some s =
        ground (arith, lookup-insert String_discrete k j s m, same) in
      rw new (own ∙ same)
  | no other ↦
      let old : JsMap.lookup String_discrete j (JsMap.insert String_discrete k s m)
          ≡ JsMap.lookup String_discrete j m =
        ground (arith, lookup-insert String_discrete k j s m, other) in
      rw old h
]

-- A function that leaves the name.
abbrev IsNamed : (BotStat → BotStat) → Type 0
IsNamed f = (s : BotStat) → (f s).id ≡ s.id

count-IsNamed : (op : Op) (c : Bool) → IsNamed (count_order op c)
count-IsNamed Op.submit c s = refl
count-IsNamed Op.cancel true s = refl
count-IsNamed Op.cancel false s = refl

module _ (id : String) where
  write-IsSeated :
      (k : String) (s : BotStat) (m : Stats)
      → s.id ≡ k
      → IsSeated id m
      → IsSeated id (JsMap.insert String_discrete k s m)
  write-IsSeated k s m own h = (
    λ j. insert-IsOwn k j s m own (h.0 j),
    ground (arith, lookup-insert String_discrete k id s m, h.1),
  )

  update-IsSeated :
      (roster : List RosterEntry) (k : String) (f : BotStat → BotStat) (m : Stats)
      → IsNamed f
      → IsSeated id m
      → IsSeated id (update roster k f m)
  unfolding update blank_stat
  update-IsSeated roster k f m keeps h = elim (Option-cases (JsMap.lookup String_discrete k m)) [
    | inl off ↦
        rw (off, update)
          (write-IsSeated k (f (blank_stat roster k)) m (keeps (blank_stat roster k)) h)
    | inr (s, on) ↦
        let own : s.id ≡ k = rw on at (h.0 k) in
        rw (on, update) (write-IsSeated k (f s) m (keeps s ∙ own) h)
  ]

  touch-IsSeated :
      (roster : List RosterEntry) (k : String) (m : Stats)
      → IsSeated id m
      → IsSeated id (touch roster k m)
  unfolding touch blank_stat
  touch-IsSeated roster k m h = elim (Option-cases (JsMap.lookup String_discrete k m)) [
    | inl off ↦ rw (off, touch) (write-IsSeated k (blank_stat roster k) m refl h)
    | inr (s, on) ↦ rw (on, touch) h
  ]

  seat-IsSeated :
      (roster rs : List RosterEntry) (m : Stats) → IsSeated id m → IsSeated id (seat roster rs m)
  unfolding seat
  seat-IsSeated roster [] m h = h
  seat-IsSeated roster (r ∷ rs) m h =
      seat-IsSeated roster rs (touch roster r.id m) (touch-IsSeated roster r.id m h)

  trade_loop-IsSeated :
      (roster : List RosterEntry) (s : Tally) (ts : List WireTrade)
      → IsSeated id s.stats
      → IsSeated id (trade_loop roster s ts).stats
  unfolding trade_loop trade_step
  trade_loop-IsSeated roster s [] h = h
  trade_loop-IsSeated roster s (t ∷ ts) h =
      let dir = direction t.aggressor_side in
      let bought = update roster t.aggressor_node (buy dir t.qty t.price) s.stats in
      trade_loop-IsSeated roster (trade_step roster s t) ts (
        update-IsSeated roster t.resting_node (sell dir t.qty t.price) bought (λ x. refl)
          (update-IsSeated roster t.aggressor_node (buy dir t.qty t.price) s.stats (λ x. refl) h))

  frame_loop-IsSeated :
      (roster : List RosterEntry) (s : Tally) (fs : List Frame)
      → IsSeated id s.stats
      → IsSeated id (frame_loop roster s fs).stats
  unfolding frame_loop frame_step batch_step
  frame_loop-IsSeated roster s [] h = h
  frame_loop-IsSeated roster s (of_book f ∷ fs) h = frame_loop-IsSeated roster s fs h
  frame_loop-IsSeated roster s (of_batch b ∷ fs) h =
      let counted = update roster b.order.node (count_order b.op b.order.cancel_ok) s.stats in
      frame_loop-IsSeated roster (batch_step roster s b) fs (
        trade_loop-IsSeated roster (record s { stats = counted }) b.trades
          (update-IsSeated roster b.order.node (count_order b.op b.order.cancel_ok) s.stats
            (count-IsNamed b.op b.order.cancel_ok) h))

abbrev marked : ℤ → Option BotStat → Option BotStat
marked price none = none
marked price (some s) = some (mark price s)

lookup-mark_all :
    (price : ℤ) (j : String) (m : Stats)
    → JsMap.lookup String_discrete j (mark_all price m)
      ≡ marked price (JsMap.lookup String_discrete j m)
unfolding mark_all JsMap.lookup
lookup-mark_all price j [] = refl
lookup-mark_all price j ((k, s) ∷ m) = elim (String_discrete k j) [
  | yes same ↦ ground (arith, same)
  | no other ↦ ground (arith, other, lookup-mark_all price j m)
]

marked-IsOwn : (price : ℤ) (j : String) (o : Option BotStat) → IsOwn j o → IsOwn j (marked price o)
marked-IsOwn price j none h = h
marked-IsOwn price j (some s) h = h

marked_some : (price : ℤ) (o : Option BotStat) → is_some o ≡ true → is_some (marked price o) ≡ true
marked_some price none h = h
marked_some price (some s) h = h

mark_all-IsSeated :
    (price : ℤ) (id : String) (m : Stats) → IsSeated id m → IsSeated id (mark_all price m)
mark_all-IsSeated price id m h = (
  λ j.
      rw (lookup-mark_all price j m)
        (marked-IsOwn price j (JsMap.lookup String_discrete j m) (h.0 j)),
  rw (lookup-mark_all price id m) (marked_some price (JsMap.lookup String_discrete id m) h.1),
)

sits_down :
    (roster : List RosterEntry) (k : String) (m : Stats)
    → ((j : String) → IsOwn j (JsMap.lookup String_discrete j m))
    → IsSeated k (touch roster k m)
unfolding touch blank_stat
sits_down roster k m h = elim (Option-cases (JsMap.lookup String_discrete k m)) [
  | inl off ↦
      rw (off, touch)
        (
          λ j. insert-IsOwn k j (blank_stat roster k) m refl (h j),
          ground (arith, lookup-insert String_discrete k k (blank_stat roster k) m),
        )
  | inr (s, on) ↦ rw (on, touch) (h, ap is_some on)
]

seat_all :
    (roster rs : List RosterEntry) (m : Stats)
    → ((j : String) → IsOwn j (JsMap.lookup String_discrete j m))
    → All (λ r. IsSeated r.id (seat roster rs m)) rs
unfolding seat
seat_all roster [] m h = tt
seat_all roster (r ∷ rs) m h =
    let first = sits_down roster r.id m h in
    (
      seat-IsSeated r.id roster rs (touch roster r.id m) first,
      seat_all roster rs (touch roster r.id m) first.0,
    )

nobody-IsOwn : (j : String) → IsOwn j (JsMap.lookup String_discrete j [])
unfolding JsMap.lookup
nobody-IsOwn j = tt

-- Every bot of the roster has an entry, whatever the frames, and every entry names its participant.
pub compute_stats-IsSeated :
    (frames : List Frame) (idx : ℤ) (roster : List RosterEntry)
    → All (λ r. IsSeated r.id (compute_stats frames idx roster).stats) roster
unfolding compute_stats tally
compute_stats-IsSeated frames idx roster =
    let s = tally frames idx roster in
    All-imp roster
      (λ r h. mark_all-IsSeated s.last_price r.id s.stats (
        frame_loop-IsSeated r.id roster
          (record { stats = seat roster roster []; open_orders = []; last_price = pos 0 })
          (up_to frames idx) h))
      (seat_all roster roster [] nobody-IsOwn)
