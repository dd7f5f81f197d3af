-- ===== src/Page.antt =====
-- web/src/App.tsx: the page's own state, which joins the panels, and what the page says of its source. The panels
-- are those of Scope, Inspector, Workspace, Terminal and Bots.
pub mod Follow
pub mod Pick
pub mod Tests
use market_sandbox.Prelude.{
  ℕ, zero, suc, ◌+◌, Option, none, some, List, map, Bool, true, false, if◌then◌else◌, ite, ℤ,
  String, String_discrete,
}
use market_sandbox.Wire.{WireBatch, Side, Level}
use market_sandbox.Feed.{Feed, Source, is_live, is_replay, index_at}
use market_sandbox.Derive.Stats.{Tally, compute_stats}
use market_sandbox.Scope.{SpotState}
use market_sandbox.Scope.Spotlight.{Spotlight, follow}
use market_sandbox.Terminal.{Ticket, prefilled}
use market_sandbox.Workspace.{pick}

pub record Prefill : Type 0 where
  pub side : Side
  pub price : ℤ
  pub n : ℤ

-- The state of `App`.
pub record Page : Type 0 where
  pub selected : Option WireBatch
  pub spot : Option SpotState
  pub token : ℕ
  pub prefill : Option Prefill

abbrev pub initial : Page
initial = record { selected = none; spot = none; token = 0; prefill = none }

-- The calls of the panels: `onSelect` of Scope and of the Inspector, `onSpot`, `onSpotlight`, and `onPick` of a row of
-- the ladder, with the time.
pub data Event : Type 0 where
  select : Option WireBatch → Event
  report : Option SpotState → Event
  spotlight : WireBatch → Event
  picked : Side → Level → ℤ → Event

unfoldable pub handle : Event → Page → Page
handle (select b) p = record p { selected = b }
handle (report s) p = record p { spot = s }
handle (spotlight b) p = record p { selected = some b; token = suc p.token }
handle (picked side l now) p =
    let (opposite, price) = pick side l in
    record p { prefill = some (record { side = opposite; price = price; n = now }) }

-- The effect of Scope on a new `spotlightToken`.
unfoldable pub on_token : Page → ℤ → Spotlight → Spotlight
on_token p now s = elim p.selected [
  | none ↦ s
  | some b ↦ elim p.token [ zero ↦ s | suc n ↦ follow b now s ]
]

-- The effect of the ticket on a new `prefill`.
unfoldable pub on_prefill : Page → Ticket → Ticket
on_prefill p t = elim p.prefill [ none ↦ t | some f ↦ prefilled f.side f.price t ]

-- `StatusPill`: its kind, and whether the gateway records.
pub data Pill : Type 0 where
  connecting live recorded : Pill

abbrev pub pill : Feed → Pill × Bool
pill f = (
  elim f.source [ Source.connecting ↦ connecting | Source.live ↦ live | Source.replay ↦ recorded ],
  elim f.recording [ none ↦ false | some file ↦ ite (String_discrete file "") false true ],
)

-- The note that what is shown is a recording.
abbrev pub banner : Feed → Bool
banner f = is_replay f.source

-- `computeStats` on what has been played.
abbrev pub computed : Feed → Tally
computed f = compute_stats f.frames (index_at f f.vt) f.roster
