-- ===== src/Bots.antt =====
-- web/src/components/Bots.tsx: the rows of the table of bots, as web/src/App.tsx fills it.
pub mod Rows
use market_sandbox.Prelude.{
  Option, none, some, List, [], ◌∷◌, ◌++◌, map, ℤ, String, String_discrete,
}
use market_sandbox.JsMap
use market_sandbox.Wire.{Frame, RosterEntry}
use market_sandbox.Derive.Stats.{BotStat, Stats, compute_stats}

-- `order.map((id) => stats.get(id)).filter((s) => !!s)`
unfoldable pub found : Stats → List String → List BotStat
found stats [] = []
found stats (id ∷ ids) = elim (JsMap.lookup String_discrete id stats) [
  | none ↦ found stats ids
  | some s ↦ s ∷ found stats ids
]

abbrev pub human_row : Option BotStat → List BotStat
human_row none = []
human_row (some s) = s ∷ []

-- `rows`
unfoldable pub rows : Stats → List String → List BotStat
unfolding found
rows stats order = found stats order ++ human_row (JsMap.lookup String_discrete "human" stats)

-- `Bots` with the arguments that `App` gives it.
unfoldable pub table : List Frame → ℤ → List RosterEntry → List BotStat
unfolding rows
table frames idx roster = rows (compute_stats frames idx roster).stats (map (λ r. r.id) roster)
