-- ===== src/Derive/Trades.antt =====
-- `recentTrades` of web/src/derive.ts: the newest trades up to an index, at most `max` of them.
use mathlib.Core.List.{append-nil, append_assoc}
use market_sandbox.Prelude.{
  ℕ, suc, ◌-◌, ◌≡◌, sym, ap, ◌∙◌, List, [], ◌∷◌, ◌++◌, map, reverse, length, take, take-nil,
  take-append, length-take, tests, length-append, ltb, if◌then◌else◌, Bool-cases, inl, inr, arith,
  ℤ, String,
}
use market_sandbox.Wire.{Frame, WireTrade, Side, of_batch, of_book, frame_at}
use market_sandbox.Derive.{back_from, trades_of}

pub record TradePoint : Type 0 where
  pub at : ℤ
  pub price : ℤ
  pub qty : ℤ
  pub aggressor_side : Side
  pub aggressor_node : String
  pub resting_node : String
  pub id : String

-- The object literal of `out.push` and `trades.push`.
abbrev pub trade_point : ℤ → WireTrade → TradePoint
trade_point at t = record {
  at = at;
  price = t.price;
  qty = t.qty;
  aggressor_side = t.aggressor_side;
  aggressor_node = t.aggressor_node;
  resting_node = t.resting_node;
  id = t.id;
}

-- The inner loop, over the trades of one frame from the last to the first.
push_trades : ℕ → ℤ → List WireTrade → List TradePoint → List TradePoint
push_trades max at [] out = out
push_trades max at (t ∷ ts) out =
    if ltb (length out) max then push_trades max at ts (out ++ trade_point at t ∷ []) else out

push_frame : ℕ → Frame → List TradePoint → List TradePoint
unfolding push_trades
push_frame max (of_book f) out = out
push_frame max (of_batch b) out = push_trades max b.at (reverse b.trades) out

recent_loop : ℕ → List Frame → List TradePoint → List TradePoint
unfolding push_frame
recent_loop max [] out = out
recent_loop max (f ∷ fs) out =
    if ltb (length out) max then recent_loop max fs (push_frame max f out) else out

pub recent_trades : List Frame → ℤ → ℕ → List TradePoint
unfolding recent_loop
recent_trades frames idx max = recent_loop max (back_from frames idx) []

-- The trades of a run of frames that stands newest first, the newest trade first.
abbrev pub newest_first : List Frame → List TradePoint
newest_first [] = []
newest_first (f ∷ fs) = map (trade_point (frame_at f)) (reverse (trades_of f)) ++ newest_first fs

push_trades-take :
    (max : ℕ) (at : ℤ) (ts : List WireTrade) (out : List TradePoint)
    → push_trades max at ts out ≡ out ++ take (max - length out) (map (trade_point at) ts)
unfolding push_trades
push_trades-take max at [] out = rw (take-nil (max - length out)) (sym (append-nil out))
push_trades-take max at (t ∷ ts) out = elim (Bool-cases (ltb (length out) max)) [
  | inl room ↦
      let out' = out ++ trade_point at t ∷ [] in
      let e : max - length out ≡ suc (max - length out') =
        omega (tests, length-append out (trade_point at t ∷ [])) in
      rw (room, e) (push_trades-take max at ts out' ∙ append_assoc out _ _)
  | inr full ↦ let e : max - length out ≡ 0 = ground arith in rw (full, e) (sym (append-nil out))
]

push_frame-take :
    (max : ℕ) (f : Frame) (out : List TradePoint)
    → push_frame max f out
      ≡ out ++ take (max - length out) (map (trade_point (frame_at f)) (reverse (trades_of f)))
unfolding push_frame
push_frame-take max (of_book f) out = rw (take-nil (max - length out)) (sym (append-nil out))
push_frame-take max (of_batch b) out = push_trades-take max b.at (reverse b.trades) out

take_rest :
    (max : ℕ) (out xs ys : List TradePoint)
    → (out ++ take (max - length out) xs)
        ++ take (max - length (out ++ take (max - length out) xs)) ys
      ≡ out ++ take (max - length out) (xs ++ ys)
take_rest max out xs ys =
    let k = max - length out in
    let e : max - length (out ++ take k xs) ≡ k - length xs =
      omega (arith, length-append out (take k xs), length-take k xs) in
    rw (e, take-append k xs ys) (append_assoc out _ _)

recent_loop-take :
    (max : ℕ) (fs : List Frame) (out : List TradePoint)
    → recent_loop max fs out ≡ out ++ take (max - length out) (newest_first fs)
unfolding recent_loop
recent_loop-take max [] out = rw (take-nil (max - length out)) (sym (append-nil out))
recent_loop-take max (f ∷ fs) out = elim (Bool-cases (ltb (length out) max)) [
  | inl room ↦
      rw (room, recent_loop-take max fs (push_frame max f out), push_frame-take max f out)
        (take_rest max out _ (newest_first fs))
  | inr full ↦ let e : max - length out ≡ 0 = ground arith in rw (full, e) (sym (append-nil out))
]

-- `recentTrades` returns the first `max` of all trades up to the index, listed from the newest frame to
-- the oldest and within a frame from its last trade to its first; the two limits in its loops lose none.
pub recent_trades-take :
    (frames : List Frame) (idx : ℤ) (max : ℕ)
    → recent_trades frames idx max ≡ take max (newest_first (back_from frames idx))
unfolding recent_trades
recent_trades-take frames idx max =
    let e : max - 0 ≡ max = omega arith in
    recent_loop-take max (back_from frames idx) []
    ∙ ap (λ (k : ℕ). take k (newest_first (back_from frames idx))) e
