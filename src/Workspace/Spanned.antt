-- ===== src/Workspace/Spanned.antt =====
-- The times of the series that web/src/components/Workspace.tsx draws, which is that of `priceSeries` of web/src/derive.ts.
use mathlib.Core.List.{reverse-cons}
use market_sandbox.Prelude.{
  ℕ, ◌≡◌, sym, ◌∙◌, subst, Option, none, some, List, [], ◌∷◌, map, reverse, All, All-append,
  All-right, ℤ, pos, ◌≤ℤ◌, get_elem?,
}
use market_sandbox.Wire.{Frame, TopOfBook, WireTrade, of_batch, of_book, frame_at}
use market_sandbox.Derive.{up_to, trades_of}
use market_sandbox.Derive.Trades.{TradePoint, trade_point}
use market_sandbox.Derive.Series.{
  QuotePoint, Series, price_series, points_of, quotes_of, trades_reversed, quotes_in,
  price_series-IsWindow,
}
use market_sandbox.Workspace.Across.{IsWithin}
use market_sandbox.Workspace.Inside.{IsSpanned}

module _ (start stop : ℤ) where
  quotes_of-IsWithin :
      (at : ℤ) (tob : Option TopOfBook)
      → IsWithin start stop at
      → All
          (λ (q : QuotePoint). IsWithin start stop q.at)
          (elim tob [ none ↦ [] | some t ↦ record { at = at; bid = t.bid; ask = t.ask } ∷ [] ])
  quotes_of-IsWithin at none h = tt
  quotes_of-IsWithin at (some t) h = (h, tt)

  quotes_in-IsWithin :
      (fs : List Frame)
      → All (λ f. IsWithin start stop (frame_at f)) fs
      → All (λ (q : QuotePoint). IsWithin start stop q.at) (quotes_in fs)
  quotes_in-IsWithin [] h = tt
  quotes_in-IsWithin (of_book f ∷ fs) h = quotes_in-IsWithin fs h.1
  quotes_in-IsWithin (of_batch b ∷ fs) h =
      All-append (λ (q : QuotePoint). IsWithin start stop q.at) (quotes_of (of_batch b))
        (quotes_in fs) (quotes_of-IsWithin b.at b.tob h.0) (quotes_in-IsWithin fs h.1)

  points-IsWithin :
      (at : ℤ) (ts : List WireTrade)
      → IsWithin start stop at
      → All (λ t. IsWithin start stop t.at) (map (trade_point at) ts)
  points-IsWithin at [] h = tt
  points-IsWithin at (t ∷ ts) h = (h, points-IsWithin at ts h)

  reverse-IsWithin :
      (ts : List TradePoint)
      → All (λ t. IsWithin start stop t.at) ts
      → All (λ t. IsWithin start stop t.at) (reverse ts)
  reverse-IsWithin [] h = tt
  reverse-IsWithin (t ∷ ts) h = rw (reverse-cons t ts) (
      All-append (λ t. IsWithin start stop t.at) (reverse ts) (t ∷ []) (reverse-IsWithin ts h.1)
        (h.0, tt))

  frames-IsWithin :
      (fs : List Frame)
      → All (λ g. start ≤ℤ frame_at g) fs
      → All (λ g. frame_at g ≤ℤ stop) fs
      → All (λ g. IsWithin start stop (frame_at g)) fs
  frames-IsWithin [] h k = tt
  frames-IsWithin (f ∷ fs) h k = ((h.0, k.0), frames-IsWithin fs h.1 k.1)

  trades_reversed-IsWithin :
      (fs : List Frame)
      → All (λ f. IsWithin start stop (frame_at f)) fs
      → All (λ t. IsWithin start stop t.at) (trades_reversed fs)
  trades_reversed-IsWithin [] h = tt
  trades_reversed-IsWithin (f ∷ fs) h =
      All-append (λ t. IsWithin start stop t.at) (reverse (points_of f)) (trades_reversed fs)
        (reverse-IsWithin (points_of f) (points-IsWithin (frame_at f) (trades_of f) h.0))
        (trades_reversed-IsWithin fs h.1)

-- The series at an index of which no earlier frame is later lies between its two ends.
pub price_series-IsSpanned :
    (frames : List Frame) (i : ℕ) (f : Frame) (window : ℤ) (s : Series)
    → get_elem? frames i ≡ some f
    → All (λ g. frame_at g ≤ℤ frame_at f) (up_to frames (pos i))
    → price_series frames (pos i) window ≡ some s
    → IsSpanned s
price_series-IsSpanned frames i f window s at sorted is =
    let (r, before, inside, gives, start, stop, w, trades, quotes) =
      price_series-IsWindow frames i f window at in
    let not_later : All (λ g. frame_at g ≤ℤ r.stop) inside = rw stop (
      All-right (λ g. frame_at g ≤ℤ frame_at f) before inside
        (subst (All (λ g. frame_at g ≤ℤ frame_at f)) w.split sorted)) in
    let within = frames-IsWithin r.start r.stop inside w.recent not_later in
    let same : r ≡ s = some-inj r s (sym gives ∙ is) in
    subst IsSpanned same (record {
      quotes = rw quotes (quotes_in-IsWithin r.start r.stop inside within);
      trades = rw trades (trades_reversed-IsWithin r.start r.stop inside within);
    })
  where
    some-inj : (a b : Series) → some a ≡ some b → a ≡ b
    some-inj a b e = cc e
