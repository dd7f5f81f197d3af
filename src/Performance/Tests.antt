-- ===== src/Performance/Tests.antt =====
-- A run of web/src/components/Performance.tsx on the sample session.
use market_sandbox.Prelude.{◌≡◌, arith, length, map}
use market_sandbox.Samples.{session}
use market_sandbox.Performance.{live, measured, total_of, wait_of, IsPercentile, live-IsPercentile}

live-IsPercentile_example :
    ((live session).n ≡ length (measured session))
    × IsPercentile (map total_of (measured session)) 50 (live session).p50
    × IsPercentile (map total_of (measured session)) 99 (live session).p99
    × IsPercentile (map wait_of (measured session)) 50 (live session).w50
    × IsPercentile (map wait_of (measured session)) 99 (live session).w99
live-IsPercentile_example = live-IsPercentile session (omega arith)
