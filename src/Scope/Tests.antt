-- ===== src/Scope/Tests.antt =====
-- Runs of web/src/components/Scope.tsx on the sample session.
use market_sandbox.Prelude.{refl, ℤ, ◌-ℤ◌, ◌*ℤ◌, All, none, some, List, [], ◌∷◌, true, pos}
use market_sandbox.Wire.{WireBatch, Status, ask}
use market_sandbox.Samples.{sample_batch, sample_order, sold_trades, session}
use market_sandbox.Feed
use market_sandbox.Feed.Client
use market_sandbox.Feed.Socket.{Message}
use market_sandbox.Scope.{boundaries, Packet, progress}
use market_sandbox.Scope.Flight
use market_sandbox.Scope.Flight.Shown
use market_sandbox.Scope.Flight.Shown.{drawn, fed}
use market_sandbox.Scope.Flight.{packet}
use market_sandbox.Scope.Draw.{Place, on_line, at, hits as drawn_hits, head, clamp01}
use market_sandbox.Scope.Heads.{IsHead}
use market_sandbox.Scope.Drawn.{IsSelection, on_click-IsSelection}
use market_sandbox.Scope.Pick.{nearest, on_click}

abbrev batch : WireBatch
batch =
    sample_batch (pos 30) (sample_order "m1" "mm" ask (pos 100) (pos 4) Status.filled (pos 4))
      sold_trades

abbrev playing : Feed.Feed
playing = record Feed.initial { frames = session; source = Feed.Source.replay; vt = pos 20 }

abbrev shown : List Shown.Happening
shown =
    drawn (pos 5) ∷ fed (Client.received (Message.status true none) (pos 6)) ∷ drawn (pos 400) ∷ []

-- Every packet drawn where its line starts.
abbrev start_of : WireBatch → Place → ℤ × ℤ
start_of f (on_line (at x y) b t) = (x, y)
start_of f _ = (pos 128, pos 36)

abbrev flying : List Packet
flying = packet (pos 0) 4 batch ∷ packet (pos 900) 4 batch ∷ []

on_click-IsSelection_example :
    All
      (λ q.
        IsHead q.s (clamp01 (progress (pos 1000) q)) (head q.s (clamp01 (progress (pos 1000) q))))
      flying
    × IsSelection start_of (pos 1000) 1 (pos 455) (pos 215) flying (some batch)
unfolding on_click nearest drawn_hits head boundaries ◌-ℤ◌ ◌*ℤ◌
on_click-IsSelection_example =
    on_click-IsSelection start_of (pos 1000) 1 (pos 455) (pos 215) flying (refl, (refl, tt))
