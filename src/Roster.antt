-- ===== src/Roster.antt =====
-- web/gateway/roster.ts: the bots that the gateway starts and announces.
use market_sandbox.Prelude.{List, [], ◌∷◌, map, String}
use market_sandbox.Wire.{RosterEntry}

pub record BotSpec : Type 0 where
  pub id : String
  pub strategy : String
  pub flags : List String

abbrev bot : String → String → List String → BotSpec
bot id strategy flags = record { id = id; strategy = strategy; flags = flags }

-- `ROSTER`
abbrev pub roster : List BotSpec
roster =
    bot "mm-tight" "market-maker" ("--mm-spread=0.30" ∷ "--mm-size=10" ∷ [])
    ∷ bot "mm-wide" "market-maker" ("--mm-spread=1.00" ∷ "--mm-size=15" ∷ [])
    ∷ bot "mom-fast" "momentum" ("--mom-window=10" ∷ "--mom-threshold-pct=0.0008" ∷ [])
    ∷ bot "mom-slow" "momentum" ("--mom-window=30" ∷ "--mom-threshold-pct=0.002" ∷ [])
    ∷ bot "mr-1" "mean-reversion" ("--mr-window=30" ∷ "--mr-deviation-pct=0.01" ∷ [])
    ∷ bot "noise-1" "noise" ("--noise-action-prob=0.3" ∷ [])
    ∷ bot "noise-2" "noise" ("--noise-action-prob=0.4" ∷ "--noise-size-max=8" ∷ [])
    ∷ bot "noise-3" "noise" ("--noise-action-prob=0.2" ∷ [])
    ∷ bot "noise-4" "noise" ("--noise-action-prob=0.35" ∷ [])
    ∷ bot "replay-1" "replay" ("--replay-speed=10" ∷ [])
    ∷ []

-- The roster as a "hello" carries it.
abbrev pub announced : List RosterEntry
announced = map (λ b. record { id = b.id; strategy = b.strategy }) roster
