-- ===== src/Workspace.antt =====
-- web/src/components/Workspace.tsx: the order book's ladder and the trade tape, without their drawing.
pub mod Rows
pub mod Chart
pub mod Across
pub mod Stair
pub mod Inside
pub mod Spanned
pub mod Tests
use market_sandbox.Prelude.{
  ℕ, zero, suc, ◌+◌, ◌-◌, Option, none, some, List, [], ◌∷◌, ◌++◌, Bool, true, false, map, take,
  get_elem?, ◌||◌, ◌&&◌, if◌then◌else◌, ite, ℤ, pos, ltb_ℤ, eq_ℤ, max_ℤ, ◌-ℤ◌, String,
  String_discrete,
}
use market_sandbox.Wire.{Frame, WireBatch, TopOfBook, WireBook, Level, Side, bid, ask}
use market_sandbox.Derive.Books.{book_at, last_batch_before}
use market_sandbox.Derive.Trades.{TradePoint, recent_trades}
use market_sandbox.Derive.Stats.{OpenOrder}

-- `Array.from({ length: n }, (_, i) => f(i))`, from `i` on.
unfoldable pub array_from {ℓ} : {A : Type ℓ} → ℕ → ℕ → (ℕ → A) → List A
array_from zero i f = []
array_from (suc n) i f = f i ∷ array_from n (suc i) f

abbrev pub asks_of : Option WireBook → List Level
asks_of none = []
asks_of (some b) = b.asks

abbrev pub bids_of : Option WireBook → List Level
bids_of none = []
bids_of (some b) = b.bids

-- `l[1]`
abbrev pub size : Level → ℤ
size (price, qty, n) = qty

-- `Math.max(m, ...sizes)`
abbrev pub largest : ℤ → List ℤ → ℤ
largest m [] = m
largest m (v ∷ vs) = largest (max_ℤ m v) vs

abbrev pub is_side : Side → Side → Bool
is_side bid bid = true
is_side ask ask = true
is_side _ _ = false

-- `mine.has(…)`, for the `${side}:${price}` of the open orders.
abbrev pub is_mine : List OpenOrder → Side → ℤ → Bool
is_mine [] side price = false
is_mine (o ∷ os) side price = is_side o.side side && eq_ℤ o.price price || is_mine os side price

-- What a click on a row asks for: the opposite side, at its price.
abbrev pub pick : Side → Level → Side × ℤ
pick bid l = (ask, l.0)
pick ask l = (bid, l.0)

pub data Spread : Type 0 where
  spread : ℤ → Spread
  one_sided : Spread
  empty : Spread

-- The text between the two sides.
abbrev pub spread_of : Option WireBook → List Level → List Level → Spread
spread_of book (best_ask ∷ asks) (best_bid ∷ bids) = spread (best_ask.0 -ℤ best_bid.0)
spread_of none asks bids = empty
spread_of (some b) asks bids = one_sided

-- A slot shows a level, with its bar out of `max`, or is empty.
pub record Row : Type 0 where
  pub level : Level
  pub side : Side
  pub mine : Bool

abbrev pub row : List OpenOrder → Side → Option Level → Option Row
row open_orders side none = none
row open_orders side (some l) =
    some (record { level = l; side = side; mine = is_mine open_orders side l.0 })

pub record Shown : Type 0 where
  pub max : ℤ
  pub asks : List (Option Row)
  pub between : Spread
  pub bids : List (Option Row)

-- `Ladder`
unfoldable pub ladder : List OpenOrder → List Frame → ℤ → Shown
unfolding array_from
ladder open_orders frames idx =
    let book = book_at frames idx in
    let asks = take 8 (asks_of book) in
    let bids = take 8 (bids_of book) in
    record {
      max = largest (pos 1) (map size asks ++ map size bids);
      asks = array_from 8 0 (λ i. row open_orders ask (get_elem? asks (7 - i)));
      between = spread_of book asks bids;
      bids = array_from 8 0 (λ i. row open_orders bid (get_elem? bids i));
    }

abbrev pub is_human : String → Bool
is_human node = ite (String_discrete node "human") true false

-- A row of the tape: its trade, and whether it is one of the human's.
pub record TapeRow : Type 0 where
  pub trade : TradePoint
  pub mine : Bool

abbrev pub tape_row : TradePoint → TapeRow
tape_row t = record { trade = t; mine = is_human t.aggressor_node || is_human t.resting_node }

abbrev pub tape_row_of : Option TradePoint → Option TapeRow
tape_row_of none = none
tape_row_of (some t) = some (tape_row t)

abbrev pub has_tob : WireBatch → Bool
has_tob b = elim b.tob [ none ↦ false | some t ↦ true ]

-- `last?.tob`
abbrev pub tob_of : Option WireBatch → Option TopOfBook
tob_of none = none
tob_of (some b) = b.tob

pub record TapeShown : Type 0 where
  pub tob : Option TopOfBook
  pub rows : List (Option TapeRow)

-- `Tape`
unfoldable pub tape : List Frame → ℤ → TapeShown
unfolding array_from
tape frames idx =
    let trades = recent_trades frames idx 12 in
    let last = last_batch_before frames idx has_tob in
    record { tob = tob_of last; rows = array_from 12 0 (λ i. tape_row_of (get_elem? trades i)) }
