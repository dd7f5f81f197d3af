-- ===== src/Workspace/Chart.antt =====
-- The price chart of web/src/components/Workspace.tsx: its scale and its paths, without the drawing. The ends
-- of the scale are in hundredths of the unit of the prices; a coordinate is a fraction.
use market_sandbox.Prelude.{
  Option, none, some, List, [], ◌∷◌, ◌++◌, map, ◌*◌, if◌then◌else◌, ℤ, pos, ◌+ℤ◌, ◌-ℤ◌, ◌*ℤ◌, eq_ℤ,
  max_ℤ, min_ℤ,
}
use market_sandbox.Derive.Format.{cent}
use market_sandbox.Derive.Trades.{TradePoint}
use market_sandbox.Derive.Series.{QuotePoint, Series}
use market_sandbox.Workspace.{largest}

-- The list with an entry, or none.
abbrev pub known : Option ℤ → List ℤ
known none = []
known (some v) = v ∷ []

-- `quotes.flatMap((q) => [q.bid, q.ask]).filter((v) => v !== null)`
abbrev pub quoted : List QuotePoint → List ℤ
quoted [] = []
quoted (q ∷ qs) = known q.bid ++ (known q.ask ++ quoted qs)

-- `Math.min(m, ...sizes)`
abbrev pub lowest : ℤ → List ℤ → ℤ
lowest m [] = m
lowest m (v ∷ vs) = lowest (min_ℤ m v) vs

-- `lo` and `hi`
pub record Scale : Type 0 where
  pub lo : ℤ
  pub hi : ℤ

-- The margin `m` of `lo` and `hi`.
abbrev pub margin : ℤ → ℤ → ℤ
margin lo hi = max_ℤ ((hi -ℤ lo) *ℤ pos 12) (pos (20 * 100 * cent))

unfoldable pub scale : ℤ → List ℤ → Scale
scale price prices =
    let lo = lowest price prices in
    let hi = largest price prices in
    record { lo = lo *ℤ pos 100 -ℤ margin lo hi; hi = hi *ℤ pos 100 +ℤ margin lo hi }

pub record Coordinate : Type 0 where
  pub num : ℤ
  pub den : ℤ

-- `v || 1`
abbrev pub or_one : ℤ → ℤ
or_one v = if eq_ℤ v (pos 0) then pos 1 else v

-- `x` and `y`
unfoldable pub x_at : ℤ → ℤ → ℤ → Coordinate
x_at start stop t =
    let den = or_one (stop -ℤ start) in
    record { num = den *ℤ pos 8 +ℤ (t -ℤ start) *ℤ pos 580; den = den }

unfoldable pub y_at : Scale → ℤ → Coordinate
y_at s p =
    let den = s.hi -ℤ s.lo in
    record { num = den *ℤ pos 10 +ℤ (s.hi -ℤ p *ℤ pos 100) *ℤ pos 200; den = den }

-- A command of a path.
pub data Command : Type 0 where
  move_to : Coordinate → Coordinate → Command
  line_to : Coordinate → Coordinate → Command

-- `line`: a staircase, with a gap where a value is missing.
unfoldable pub line :
    (ℤ → Coordinate) → (ℤ → Coordinate) → Option ℤ → List (ℤ × Option ℤ) → List Command
line x y prev [] = []
line x y prev ((at, none) ∷ ps) = line x y none ps
line x y none ((at, some v) ∷ ps) = move_to (x at) (y v) ∷ line x y (some v) ps
line x y (some u) ((at, some v) ∷ ps) =
    line_to (x at) (y u) ∷ line_to (x at) (y v) ∷ line x y (some v) ps

pub record Chart : Type 0 where
  pub bids : List Command
  pub asks : List Command
  pub trades : List Command
  pub dots : List (Coordinate × Coordinate)

abbrev pub bid_point : QuotePoint → ℤ × Option ℤ
bid_point q = (q.at, q.bid)

abbrev pub ask_point : QuotePoint → ℤ × Option ℤ
ask_point q = (q.at, q.ask)

abbrev pub trade_point : TradePoint → ℤ × Option ℤ
trade_point t = (t.at, some t.price)

abbrev pub price_of : TradePoint → ℤ
price_of t = t.price

abbrev pub draw : Series → ℤ → List ℤ → Chart
draw s price prices =
    let x = x_at s.start s.stop in
    let y = y_at (scale price prices) in
    record {
      bids = line x y none (map bid_point s.quotes);
      asks = line x y none (map ask_point s.quotes);
      trades = line x y none (map trade_point s.trades);
      dots = map (λ t. (x t.at, y t.price)) s.trades;
    }

-- `PriceChart`; `none` is the notice that it waits for trades.
unfoldable pub chart : Series → Option Chart
unfolding line x_at y_at scale
chart s = elim s.trades [
  | [] ↦ none
  | t ∷ ts ↦ elim ts [
    | [] ↦ none
    | u ∷ us ↦ some (draw s t.price (map price_of (u ∷ us) ++ quoted s.quotes))
  ]
]
