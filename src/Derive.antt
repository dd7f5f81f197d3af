-- ===== src/Derive.antt =====
-- web/src/derive.ts: what the page computes from the frames up to an index. An index is an integer, -1
-- for "before the first frame". A loop `for (i = min(idx, length - 1); i >= 0; i--)` walks `back_from`,
-- and a loop `for (i = 0; i <= idx && i < length; i++)` walks `up_to`.
pub mod Books
pub mod Trades
pub mod Series
pub mod Tests
pub mod Stats
pub mod Percentile
pub mod Format
use market_sandbox.Prelude.{List, [], take, reverse, ℤ, count_to}
use market_sandbox.Wire.{Frame, WireBatch, WireTrade, of_batch, of_book}

abbrev pub up_to : List Frame → ℤ → List Frame
up_to frames idx = take (count_to idx) frames

abbrev pub back_from : List Frame → ℤ → List Frame
back_from frames idx = reverse (up_to frames idx)

-- `f.trades` of a frame that `isBatch` lets through.
abbrev pub trades_of : Frame → List WireTrade
trades_of (of_batch b) = b.trades
trades_of (of_book _) = []
