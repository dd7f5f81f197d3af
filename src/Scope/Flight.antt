-- ===== src/Scope/Flight.antt =====
-- The packets on their way in web/src/components/Scope.tsx: one draw of the animation takes the frames that the
-- feed hands out, and shows where the packets are.
pub mod Shown
use mathlib.Core.List.{append_assoc, append-nil}
use market_sandbox.Prelude.{
  ℕ, zero, suc, ◌+◌, ◌-◌, ◌*◌, ◌≤◌, ◌<◌, ◌≡◌, refl, sym, ap, ◌∙◌, min, inl, inr, List, [], ◌∷◌,
  ◌++◌, length, take, map, Bool, true, false, not, Bool-cases, ◌&&◌, ◌||◌, if◌then◌else◌, All,
  All-append, arith, tests, ltb, leb, ==_iff, ◌==◌, ℤ, pos, negsuc, pos_part, ◌-ℤ◌, ◌*ℤ◌, ◌≤ℤ◌,
  ltb_ℤ, eq_ℤ, String, String_discrete, length-append, length-take, take-nil, take-append,
}
use market_sandbox.JsMap
use market_sandbox.JsMap.{JsMap}
use market_sandbox.Wire.{Frame, WireBatch, WireTrade, of_batch, of_book}
use market_sandbox.Feed.{Feed, tick, take_new}
use market_sandbox.Inspector.{batches_of}
use market_sandbox.Scope.{Boundaries, boundaries, Progress, before, stage_at, Packet, progress}

pub record Flight : Type 0 where
  pub packets : List Packet
  pub bot_glow : JsMap String ℤ
  pub book_flash : ℤ

abbrev pub initial : Flight
initial = record { packets = []; bot_glow = []; book_flash = pos 0 }

abbrev pub packet_max : ℕ
packet_max = 140

-- A new packet; its journey takes 2600 / speed milliseconds.
abbrev pub packet : ℤ → ℕ → WireBatch → Packet
packet now rate f = record {
  f = f;
  start = now;
  span = 10_400;
  rate = rate;
  spot = false;
  s = boundaries f;
}

abbrev pub has_trades : List WireTrade → Bool
has_trades [] = false
has_trades (t ∷ ts) = true

abbrev pub push_one : List Packet → Packet → List Packet
push_one ps p = if ltb (length ps) packet_max then ps ++ p ∷ [] else ps

-- The loop over the fresh frames.
unfoldable pub launch : ℤ → ℕ → List Frame → Flight → Flight
launch now rate [] s = s
launch now rate (of_book b ∷ fs) s = launch now rate fs s
launch now rate (of_batch f ∷ fs) s = launch now rate fs (record s {
  bot_glow = JsMap.insert String_discrete f.order.node now s.bot_glow;
  book_flash = if has_trades f.trades then now else s.book_flash;
  packets = push_one s.packets (packet now rate f);
})

-- `now - p.start < p.dur + 60`
abbrev pub is_flying : ℤ → Packet → Bool
is_flying now p = ltb_ℤ ((now -ℤ p.start) *ℤ pos p.rate) (pos (p.span + 60 * p.rate))

-- `packets.filter`
abbrev pub keep : (Packet → Bool) → List Packet → List Packet
keep test [] = []
keep test (p ∷ ps) = let rest = keep test ps in if test p then p ∷ rest else rest

-- The start of `draw`: the feed after it, and the packets that it shows.
unfoldable pub draw : ℤ → Feed → Flight → Feed × Flight
unfolding launch
draw now feed s =
    let (feed', fresh) = take_new (tick now feed) in
    let s' = launch now (pos_part feed'.speed) fresh s in
    (feed', record s' { packets = keep (is_flying now) s'.packets })

push_one-take :
    (ps : List Packet) (p : Packet) (rest : List Packet)
    → push_one ps p ++ take (packet_max - length (push_one ps p)) rest
      ≡ ps ++ take (packet_max - length ps) (p ∷ rest)
push_one-take ps p rest = elim (Bool-cases (ltb (length ps) packet_max)) [
  | inl room ↦
      let e : packet_max - length ps ≡ suc (packet_max - length (ps ++ p ∷ [])) =
        omega (tests, length-append ps (p ∷ [])) in
      rw (room, e) (append_assoc ps _ _)
  | inr full ↦ let e : packet_max - length ps ≡ 0 = ground arith in rw (full, e) refl
]

launch-packets :
    (now : ℤ) (rate : ℕ) (fs : List Frame) (s : Flight)
    → (launch now rate fs s).packets
      ≡ s.packets ++ take (packet_max - length s.packets) (map (packet now rate) (batches_of fs))
unfolding launch
launch-packets now rate [] s =
    rw (take-nil {A = Packet} (packet_max - length s.packets)) (sym (append-nil s.packets))
launch-packets now rate (of_book b ∷ fs) s = launch-packets now rate fs s
launch-packets now rate (of_batch f ∷ fs) s =
    launch-packets now rate fs (record s {
      bot_glow = JsMap.insert String_discrete f.order.node now s.bot_glow;
      book_flash = if has_trades f.trades then now else s.book_flash;
      packets = push_one s.packets (packet now rate f);
    })
    ∙ push_one-take s.packets (packet now rate f) (map (packet now rate) (batches_of fs))

-- A draw shows the packets still on their way among those before it and those of the new batches that the
-- feed hands out, as many of these as leave no more than 140 together, in order.
pub draw-packets :
    (now : ℤ) (feed : Feed) (s : Flight)
    → let fresh = (take_new (tick now feed)).1 in
      let rate = pos_part (draw now feed s).0.speed in
      (draw now feed s).1.packets
      ≡ keep (is_flying now) (
          s.packets
          ++ take (packet_max - length s.packets) (map (packet now rate) (batches_of fresh)))
unfolding draw
draw-packets now feed s = ap (keep (is_flying now)) (
    launch-packets now (pos_part (take_new (tick now feed)).0.speed) (take_new (tick now feed)).1 s)
