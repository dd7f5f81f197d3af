-- ===== src/Wire.antt =====
-- The wire types of web/gateway/normalize.ts, and the frames and the roster of web/src/feed.ts.
-- A number of the program is an integer: the times of frames in quarters of a millisecond (so that the
-- playback speeds 0.25 to 4 give whole numbers), trace times in microseconds, quantities as they are,
-- prices in millionths of a cent. "" stands for `none` where the source adds "" to an enumeration, and so
-- do `null` and `undefined`.
use market_sandbox.Prelude.{ℤ, Option, List, Bool, String}

pub data Side : Type 0 where
  bid ask : Side

pub data OrderType : Type 0 where
  market limit : OrderType

pub data Status : Type 0 where
  filled partial queued rejected : Status

pub data Op : Type 0 where
  submit cancel : Op

pub record WireTrade : Type 0 where
  pub id : String
  pub price : ℤ
  pub qty : ℤ
  pub aggressor_side : Side
  pub aggressor : String
  pub aggressor_node : String
  pub resting : String
  pub resting_node : String

-- Price, quantity and number of orders.
abbrev pub Level : Type 0
Level = ℤ × ℤ × ℤ

pub record WireBook : Type 0 where
  pub bids : List Level
  pub asks : List Level

pub record WireOrder : Type 0 where
  pub id : String
  pub node : String
  pub side : Option Side
  pub type : Option OrderType
  pub price : ℤ
  pub qty : ℤ
  pub status : Option Status
  pub filled : ℤ
  pub avg : ℤ
  pub reason : String
  pub cancel_ok : Bool

pub record WireTrace : Type 0 where
  pub enqueue : ℤ
  pub dequeue : ℤ
  pub match_done : ℤ
  pub promise_set : ℤ
  pub publish : ℤ

pub record TopOfBook : Type 0 where
  pub bid : Option ℤ
  pub bid_qty : ℤ
  pub ask : Option ℤ
  pub ask_qty : ℤ

pub record WireBatch : Type 0 where
  pub at : ℤ
  pub seq : ℤ
  pub op : Op
  pub order : WireOrder
  pub trace : WireTrace
  pub trades : List WireTrade
  pub tob : Option TopOfBook
  pub book : Option WireBook

pub record BookFrame : Type 0 where
  pub at : ℤ
  pub book : WireBook

pub data Frame : Type 0 where
  of_batch : WireBatch → Frame
  of_book : BookFrame → Frame

-- `f.at`, which both kinds of frame have.
abbrev pub frame_at : Frame → ℤ
frame_at (of_batch b) = b.at
frame_at (of_book b) = b.at

pub record RosterEntry : Type 0 where
  pub id : String
  pub strategy : String
