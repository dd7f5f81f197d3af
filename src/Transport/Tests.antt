-- ===== src/Transport/Tests.antt =====
-- Runs of the controls of web/src/components/Transport.tsx on a feed with two frames.
use market_sandbox.Prelude.{◌≡◌, refl, [], ◌∷◌, pos, arith}
use market_sandbox.Wire.{of_book}
use market_sandbox.Decimal.{digits_before}
use market_sandbox.Feed.{Feed, Source, initial}
use market_sandbox.Feed.Controls.{seek}
use market_sandbox.Transport.{clock, shown}
use market_sandbox.Transport.Pressed.{IsScrubbed, seek-IsScrubbed}
use market_sandbox.Transport.Clock.{IsClock, IsRounded, clock-IsClock}
use market_sandbox.Transport.{seconds}

-- 83.5 seconds are shown as 1:24.
clock_text : clock (pos 334_000) ≡ b'1' ∷ b':' ∷ b'2' ∷ b'4' ∷ []
unfolding clock digits_before
clock_text = refl

abbrev watching : Feed
watching = record initial {
  source = Source.live;
  frames =
      of_book (record { at = pos 8_000; book = record { bids = []; asks = [] } })
      ∷ of_book (record { at = pos 20_000; book = record { bids = []; asks = [] } })
      ∷ [];
  vt = pos 20_000;
}

seek-IsScrubbed_example :
    IsScrubbed (pos 12_000) watching (shown (seek (pos 12_000) (pos 7) watching))
seek-IsScrubbed_example =
    seek-IsScrubbed (pos 12_000) (pos 7) watching (omega arith) (omega arith) (λ e. cc)
      (omega arith)

clock-IsClock_example :
    IsClock (seconds (pos 334_000)) (clock (pos 334_000))
    × IsRounded (pos 334_000) (seconds (pos 334_000))
clock-IsClock_example = clock-IsClock (pos 334_000)
