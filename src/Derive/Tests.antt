-- ===== src/Derive/Tests.antt =====
-- Runs of web/src/derive.ts on the sample session.
use market_sandbox.Prelude.{◌≡◌, refl, some, List, pos, ◌-ℤ◌}
use market_sandbox.Samples.{session, sold}
use market_sandbox.Wire.{Frame, frame_at}
use market_sandbox.Derive.{up_to}
use market_sandbox.Derive.Series.{
  Series, price_series, IsWindow, trades_reversed, quotes_in, price_series-IsWindow,
}

price_series-IsWindow_example :
    (s : Series) × (before : List Frame) × (inside : List Frame) × (price_series session
        (pos 2)
        (pos 15)
      ≡ some s)
    × (s.start ≡ frame_at sold -ℤ pos 15)
    × (s.stop ≡ frame_at sold)
    × IsWindow s.start (up_to session (pos 2)) before inside
    × (s.trades ≡ trades_reversed inside)
    × (s.quotes ≡ quotes_in inside)
price_series-IsWindow_example = price_series-IsWindow session 2 sold (pos 15) refl
