-- ===== src/Scope/Draw.antt =====
-- `drawPacket` of web/src/components/Scope.tsx: what is drawn of a packet, and what can be clicked. A place on the canvas
-- is a part of a line or of a route, and stays one: `ease` and the lengths of a route are not computed. A part is a
-- fraction, and a radius is in thousandths of a pixel.
use market_sandbox.Prelude.{
  ℕ, ◌+◌, ◌-◌, ◌*◌, ◌/◌, Option, none, some, List, [], ◌∷◌, ◌++◌, map, Bool, true, false, ◌&&◌,
  ◌||◌, if◌then◌else◌, ite, ℤ, pos, ◌-ℤ◌, ◌*ℤ◌, ltb_ℤ, eq_ℤ, String_discrete,
}
use market_sandbox.Wire.{WireBatch, Side, Status, Op, bid}
use market_sandbox.Scope.{Boundaries, Progress, before, Packet, progress}
use market_sandbox.Scope.Flight.{has_trades}
use market_sandbox.Scope.Pick.{Hit}

pub data Color : Type 0 where
  of_human of_cancel of_bid of_ask of_queued cyan white : Color

-- A point of the canvas, or the right edge of the packet's bot.
pub data Point : Type 0 where
  at : ℤ → ℤ → Point
  door : Point

-- A part of a line or of a route, eased or not.
pub data Place : Type 0 where
  on_line : Point → Point → Progress → Place
  eased_line : Point → Point → Progress → Place
  on_route : List Point → Progress → Place
  eased_route : List Point → Progress → Place

-- A spot of light with its color, radius and opacity, or the ring around the selected order.
pub data Mark : Type 0 where
  glow : Place → Color → ℕ → Progress → Mark
  ring : Place → ℕ → Mark

-- GRPC, QUEUE, ENGINE, BOOK, FAN and SUBS, by the points of the lines between them.
abbrev pub grpc_in : Point
grpc_in = at (pos 270) (pos 220)

abbrev pub queue_in : Point
queue_in = at (pos 450) (pos 220)

abbrev pub queue_out : Point
queue_out = at (pos 690) (pos 220)

abbrev pub engine : Point
engine = at (pos 830) (pos 220)

abbrev pub route : List Point
route =
    at (pos 800) (pos 270)
    ∷ at (pos 800) (pos 300)
    ∷ at (pos 330) (pos 300)
    ∷ at (pos 330) (pos 270)
    ∷ door
    ∷ []

abbrev pub base : List Point
base = at (pos 890) (pos 220) ∷ at (pos 960) (pos 220) ∷ at (pos 1_060) (pos 220) ∷ []

abbrev pub subscribers : List Point
subscribers = at (pos 1_110) (pos 140) ∷ at (pos 1_110) (pos 302) ∷ []

-- `clamp01`
abbrev pub clamp01 : Progress → Progress
clamp01 p =
    if ltb_ℤ p.num (pos 0)
    then record p { num = pos 0 }
    else if ltb_ℤ (pos p.den) p.num
    then record p { num = pos p.den }
    else p

-- `(prog - lo) / (hi - lo)`, for boundaries out of `whole`.
abbrev pub part : Progress → ℕ → ℕ → ℕ → Progress
part p lo hi whole = record {
  num = p.num *ℤ pos whole -ℤ pos (lo * p.den);
  den = (hi - lo) * p.den;
}

abbrev pub full : Progress
full = record { num = pos 1; den = 1 }

abbrev pub is_human : WireBatch → Bool
is_human f = ite (String_discrete f.order.node "human") true false

abbrev pub cancel_or : Op → Color → Color
cancel_or Op.cancel c = of_cancel
cancel_or Op.submit c = c

abbrev pub side_color : Option Side → Color
side_color (some bid) = of_bid
side_color _ = of_ask

-- `color`
abbrev pub color : WireBatch → Color
color f = if is_human f then of_human else cancel_or f.op (side_color f.order.side)

-- `rc`
abbrev pub reply_color : Option Status → Op → Color
reply_color (some Status.rejected) op = of_ask
reply_color (some Status.filled) op = of_bid
reply_color (some Status.partial) op = of_human
reply_color _ op = cancel_or op of_queued

-- `head`
unfoldable pub head : Boundaries → Progress → Option Place
head s p =
    if before p s.s0 s.whole
    then some (eased_line door grpc_in (part p 0 s.s0 s.whole))
    else if before p s.s1 s.whole
    then some (on_line grpc_in queue_in (part p s.s0 s.s1 s.whole))
    else if before p s.s2 s.whole
    then some (on_line queue_in queue_out (part p s.s1 s.s2 s.whole))
    else if before p s.s3 s.whole
    then some (on_line queue_out engine (part p s.s2 s.s3 s.whole))
    else none

-- `r`
abbrev pub radius : Bool → ℕ
radius big = if big then 8_000 else 4_500

abbrev pub some_of : ℕ → ℕ → ℕ
some_of percent r = percent * r / 100

abbrev pub has_tob : WireBatch → Bool
has_tob f = elim f.tob [ none ↦ false | some t ↦ true ]

-- `fade`
abbrev pub fade : Progress → Progress
fade t =
    if ltb_ℤ (pos (85 * t.den)) (t.num *ℤ pos 100)
    then record { num = (pos t.den -ℤ t.num) *ℤ pos 100; den = 15 * t.den }
    else full

-- The market data, for `t2`.
abbrev pub published : ℕ → Progress → List Mark
published r t2 =
    if ltb_ℤ (t2.num *ℤ pos 2) (pos t2.den)
    then glow (on_route base (record { num = t2.num *ℤ pos 2; den = t2.den })) cyan (some_of 75 r)
        full
      ∷ []
    else map
        (λ s.
          glow
            (eased_line (at (pos 1_060) (pos 220)) s
              (record { num = t2.num *ℤ pos 2 -ℤ pos t2.den; den = t2.den }))
            cyan (some_of 70 r) full)
        subscribers

-- What is drawn after the matching, for `t`.
unfoldable pub reply : WireBatch → ℕ → Progress → List Mark
reply f r t =
    let t2 = clamp01 (record { num = t.num *ℤ pos 10; den = t.den * 8 }) in
    (glow (eased_route route t) (reply_color f.order.status f.op) (some_of 85 r) (fade t) ∷ [])
    ++ (if ltb_ℤ t2.num (pos t2.den) && (has_trades f.trades || has_tob f)
        then published r t2
        else [])
    ++ (if has_trades f.trades && ltb_ℤ (t.num *ℤ pos 100) (pos (35 * t.den))
        then glow
            (on_line (at (pos 830) (pos 270)) (at (pos 830) (pos 318))
              (record { num = t.num *ℤ pos 100; den = 35 * t.den }))
            white (some_of 60 r) full
          ∷ []
        else [])

abbrev pub is_selected : Option WireBatch → WireBatch → Bool
is_selected none f = false
is_selected (some s) f = eq_ℤ s.seq f.seq && eq_ℤ s.at f.at

abbrev pub or_reply : Option Place → Progress → Place
or_reply none t = eased_route route t
or_reply (some h) t = h

-- `drawPacket`: what it draws; it returns its `head`.
unfoldable pub draw_packet : Option WireBatch → Packet → Progress → Bool → List Mark
unfolding head reply
draw_packet sel p prog big =
    let r = radius big in
    let h = head p.s prog in
    let t = part prog p.s.s3 p.s.whole p.s.whole in
    (elim h [ none ↦ [] | some place ↦ glow place (color p.f) r full ∷ [] ])
    ++ (if before prog p.s.s3 p.s.whole then [] else reply p.f r t)
    ++ (if is_selected sel p.f then ring (or_reply h t) (r + 6_000) ∷ [] else [])

-- The loop that fills `hits`; `point` computes a place of a batch.
module _ (point : WireBatch → Place → ℤ × ℤ) where
  abbrev pub hit_of : WireBatch → Option Place → List Hit
  hit_of f none = []
  hit_of f (some h) = record { f = f; x = (point f h).0; y = (point f h).1 } ∷ []

  unfoldable pub hits : ℤ → List Packet → List Hit
  unfolding head
  hits now [] = []
  hits now (p ∷ ps) = hit_of p.f (head p.s (clamp01 (progress now p))) ++ hits now ps
