-- ===== src/Workspace/Inside.antt =====
-- Where the price chart of web/src/components/Workspace.tsx draws.
use market_sandbox.Prelude.{
  ◌≡◌, refl, Option, none, some, List, [], ◌∷◌, ◌++◌, map, All, All-left, All-right, All-imp, arith,
  int_laws, ℤ, pos, ◌-ℤ◌, ◌*ℤ◌, ◌≤ℤ◌, ◌<ℤ◌, min_ℤ, *ℤ_parts, *ℤ_pos_mono,
}
use market_sandbox.Derive.Trades.{TradePoint}
use market_sandbox.Derive.Series.{QuotePoint, Series}
use market_sandbox.Workspace.{largest}
use market_sandbox.Workspace.Stair.{IsStair, line-IsStair}
use market_sandbox.Workspace.Across.{IsAcross, IsWithin, x_at-IsAcross}
use market_sandbox.Workspace.Rows.{largest_above, largest_all}
use market_sandbox.Workspace.Chart.{
  known, quoted, lowest, Scale, margin, scale, Coordinate, x_at, y_at, Command, move_to, line_to,
  line, Chart, bid_point, ask_point, trade_point, price_of, draw, chart,
}

-- A height inside the plot, which reaches from 10 to 210.
pub record IsInside (c : Coordinate) : Type 0 where
  pub some_height : pos 0 <ℤ c.den
  pub below_top : c.den *ℤ pos 10 <ℤ c.num
  pub above_bottom : c.num <ℤ c.den *ℤ pos 210

-- A command that draws inside the plot.
abbrev pub IsDrawn : Command → Type 0
IsDrawn (move_to x y) = IsAcross x × IsInside y
IsDrawn (line_to x y) = IsAcross x × IsInside y

lowest_below : (m : ℤ) (vs : List ℤ) → lowest m vs ≤ℤ m
lowest_below m [] = omega arith
lowest_below m (v ∷ vs) =
    let rest = lowest_below (min_ℤ m v) vs in
    let here : min_ℤ m v ≤ℤ m = ground arith in omega arith

lowest_all : (m : ℤ) (vs : List ℤ) → All (λ v. lowest m vs ≤ℤ v) vs
lowest_all m [] = tt
lowest_all m (v ∷ vs) =
    let rest = lowest_below (min_ℤ m v) vs in
    let here : min_ℤ m v ≤ℤ v = ground arith in (omega arith, lowest_all (min_ℤ m v) vs)

margin_some : (lo hi : ℤ) → pos 2_000_000_000 ≤ℤ margin lo hi
margin_some lo hi = ground arith

inside : (s : Scale) (p : ℤ) → s.lo <ℤ p *ℤ pos 100 → p *ℤ pos 100 <ℤ s.hi → IsInside (y_at s p)
unfolding y_at
inside s p above below =
    let den = s.hi -ℤ s.lo in
    let rest = s.hi -ℤ p *ℤ pos 100 in
    let tenth = *ℤ_parts den (pos 10) in
    let whole = *ℤ_parts den (pos 210) in
    let part = *ℤ_parts rest (pos 200) in
    record {
      some_height = omega int_laws;
      below_top = omega (int_laws, tenth, whole, part);
      above_bottom = omega (int_laws, tenth, whole, part);
    }

inside_scale :
    (price : ℤ) (prices : List ℤ) (p : ℤ)
    → lowest price prices ≤ℤ p
    → p ≤ℤ largest price prices
    → IsInside (y_at (scale price prices) p)
unfolding scale
inside_scale price prices p above below =
    let lo = lowest price prices in
    let hi = largest price prices in
    let some = margin_some lo hi in
    let from_low = *ℤ_pos_mono lo p 100 above in
    let to_high = *ℤ_pos_mono p hi 100 below in
    inside (scale price prices) p (omega int_laws) (omega int_laws)

all_inside :
    (price : ℤ) (prices vs : List ℤ)
    → All (λ v. lowest price prices ≤ℤ v) vs
    → All (λ v. v ≤ℤ largest price prices) vs
    → All (λ v. IsInside (y_at (scale price prices) v)) vs
all_inside price prices [] above below = tt
all_inside price prices (v ∷ vs) above below =
    (inside_scale price prices v above.0 below.0, all_inside price prices vs above.1 below.1)

-- A value that a path passes is inside.
abbrev IsKnown : (ℤ → Coordinate) → Option ℤ → Type 0
IsKnown y none = Unit
IsKnown y (some v) = IsInside (y v)

line-IsDrawn :
    (x y : ℤ → Coordinate) (prev : Option ℤ) (ps : List (ℤ × Option ℤ))
    → IsKnown y prev
    → All (λ p. IsAcross (x p.0)) ps
    → All (λ p. IsKnown y p.1) ps
    → All IsDrawn (line x y prev ps)
unfolding line
line-IsDrawn x y prev [] k w h = tt
line-IsDrawn x y none ((at, none) ∷ ps) k w h = line-IsDrawn x y none ps tt w.1 h.1
line-IsDrawn x y (some u) ((at, none) ∷ ps) k w h = line-IsDrawn x y none ps tt w.1 h.1
line-IsDrawn x y none ((at, some v) ∷ ps) k w h =
    ((w.0, h.0), line-IsDrawn x y (some v) ps h.0 w.1 h.1)
line-IsDrawn x y (some u) ((at, some v) ∷ ps) k w h =
    ((w.0, k), ((w.0, h.0), line-IsDrawn x y (some v) ps h.0 w.1 h.1))

-- A chart whose paths are staircases inside the plot, with its dots inside, too.
pub record IsPlotted (c : Chart) : Type 0 where
  pub bids : All IsDrawn c.bids × IsStair none c.bids
  pub asks : All IsDrawn c.asks × IsStair none c.asks
  pub trades : All IsDrawn c.trades × IsStair none c.trades
  pub dots : All (λ d. IsAcross d.0 × IsInside d.1) c.dots

module _ (y : ℤ → Coordinate) where
  abbrev IsHigh : ℤ → Type 0
  IsHigh v = IsInside (y v)

  known-IsKnown : (v : Option ℤ) → All IsHigh (known v) → IsKnown y v
  known-IsKnown none h = tt
  known-IsKnown (some v) h = h.0

  quotes-IsKnown :
      (qs : List QuotePoint)
      → All IsHigh (quoted qs)
      → All (λ p. IsKnown y p.1) (map bid_point qs) × All (λ p. IsKnown y p.1) (map ask_point qs)
  quotes-IsKnown [] h = (tt, tt)
  quotes-IsKnown (q ∷ qs) h =
      let later = All-right IsHigh (known q.bid) (known q.ask ++ quoted qs) h in
      let rest = quotes-IsKnown qs (All-right IsHigh (known q.ask) (quoted qs) later) in
      (
        (known-IsKnown q.bid (All-left IsHigh (known q.bid) (known q.ask ++ quoted qs) h), rest.0),
        (known-IsKnown q.ask (All-left IsHigh (known q.ask) (quoted qs) later), rest.1),
      )

  trades-IsKnown :
      (ts : List TradePoint)
      → All IsHigh (map price_of ts)
      → All (λ p. IsKnown y p.1) (map trade_point ts)
  trades-IsKnown [] h = tt
  trades-IsKnown (t ∷ ts) h = (h.0, trades-IsKnown ts h.1)

  dots_high :
      (x : ℤ → Coordinate) (ts : List TradePoint)
      → All (λ t. IsAcross (x t.at)) ts
      → All IsHigh (map price_of ts)
      → All
          (λ (d : Coordinate × Coordinate). IsAcross d.0 × IsInside d.1)
          (map (λ (t : TradePoint). (x t.at, y t.price)) ts)
  dots_high x [] w h = tt
  dots_high x (t ∷ ts) w h = ((w.0, h.0), dots_high x ts w.1 h.1)

all_map :
    {A B : Type 0} (f : A → B) (P : B → Type 0) (xs : List A)
    → All (λ x. P (f x)) xs
    → All P (map f xs)
all_map f P [] h = tt
all_map f P (x ∷ xs) h = (h.0, all_map f P xs h.1)

-- Everything in the series lies between its two ends.
pub record IsSpanned (s : Series) : Type 0 where
  pub quotes : All (λ q. IsWithin s.start s.stop q.at) s.quotes
  pub trades : All (λ t. IsWithin s.start s.stop t.at) s.trades

draw-IsPlotted :
    (s : Series) (t : TradePoint) (ts : List TradePoint)
    → s.trades ≡ t ∷ ts
    → IsSpanned s
    → IsPlotted (draw s t.price (map price_of ts ++ quoted s.quotes))
draw-IsPlotted s t ts e spanned =
    let rest = map price_of ts ++ quoted s.quotes in
    let x = x_at s.start s.stop in
    let y = y_at (scale t.price rest) in
    let high = all_inside t.price rest rest (lowest_all t.price rest) (largest_all t.price rest) in
    let first : IsInside (y t.price) =
      inside_scale t.price rest t.price (lowest_below t.price rest) (largest_above t.price rest) in
    let quotes =
      quotes-IsKnown y s.quotes (All-right (IsHigh y) (map price_of ts) (quoted s.quotes) high) in
    let trades : All (IsHigh y) (map price_of s.trades) =
      rw e (first, All-left (IsHigh y) (map price_of ts) (quoted s.quotes) high) in
    let wide : (at : ℤ) → IsWithin s.start s.stop at → IsAcross (x at) =
      λ at h. x_at-IsAcross s.start s.stop at h in
    let quotes_wide = All-imp s.quotes (λ q h. wide q.at h) spanned.quotes in
    let trades_wide = All-imp s.trades (λ t h. wide t.at h) spanned.trades in
    let P = λ (p : ℤ × Option ℤ). IsAcross (x p.0) in
    record {
      bids = (
        line-IsDrawn x y none _ tt (all_map bid_point P s.quotes quotes_wide) quotes.0,
        line-IsStair x y none none (map bid_point s.quotes) tt,
      );
      asks = (
        line-IsDrawn x y none _ tt (all_map ask_point P s.quotes quotes_wide) quotes.1,
        line-IsStair x y none none (map ask_point s.quotes) tt,
      );
      trades = (
        line-IsDrawn x y none _ tt (all_map trade_point P s.trades trades_wide)
            (trades-IsKnown y s.trades trades),
        line-IsStair x y none none (map trade_point s.trades) tt,
      );
      dots = dots_high y x s.trades trades_wide trades;
    }

-- Whatever the trades and quotes, of which there are at least two trades, with times between the two ends
-- of the series, the chart is drawn: its scale has a positive height and a positive width, every path and
-- every dot stays strictly between the bottom and the top of the plot and between its left and right
-- edges, and every line of a path goes straight across or straight up or down from where the last command
-- of the path ended.
pub chart-IsPlotted :
    (s : Series) (t u : TradePoint) (us : List TradePoint)
    → s.trades ≡ t ∷ u ∷ us
    → IsSpanned s
    → (c : Chart) × (chart s ≡ some c) × IsPlotted c
unfolding chart
chart-IsPlotted s t u us e spanned = (
  draw s t.price (map price_of (u ∷ us) ++ quoted s.quotes),
  rw e refl,
  draw-IsPlotted s t (u ∷ us) e spanned,
)
