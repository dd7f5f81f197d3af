-- ===== src/Page/Follow.antt =====
-- The order that web/src/App.tsx has in its spotlight: from the Inspector's button through the animation of
-- web/src/components/Scope.tsx back to the page.
use market_sandbox.Prelude.{
  ◌∙◌, Bool, ◌*◌, ◌≤ℤ◌, ◌*ℤ◌, ◌≡◌, ◌∙◌, Option, none, some, List, [], ◌∷◌, ℤ, pos, negsuc,
}
use market_sandbox.Wire.{WireBatch}
use market_sandbox.Scope.{stage_at, progress, SpotState, boundaries}
use market_sandbox.Scope.Spotlight
use market_sandbox.Scope.Spotlight.{Spotlight, followed, follow}
use market_sandbox.Inspector.Row.{row_of}
use market_sandbox.Inspector.Waterfall.{row}
use market_sandbox.Page.{Page, report, handle}

-- The page after the calls of `onSpot`.
abbrev pub told : List (Option SpotState) → Page → Page
told [] p = p
told (s ∷ ss) p = told ss (handle (report s) p)

-- The last of some times that follow a first one.
abbrev pub last_time : ℤ → List ℤ → ℤ
last_time t [] = t
last_time t (u ∷ us) = last_time u us

-- The page shows the order at the stage that it has reached at a time, or its way is over and the page shows none.
abbrev pub IsAt : WireBatch → ℤ → ℤ → Option SpotState → Type 0
IsAt b start now none =
    let p = followed b start in pos (102 * p.span) ≤ℤ (progress now p).num *ℤ pos 100
IsAt b start now (some s) =
    (s.frame ≡ b)
    × (stage_at (boundaries b) s.p ≡ stage_at (boundaries b) (progress now (followed b start)))

-- The page shows the order at a stage.
abbrev IsOf : WireBatch → ℤ → Option SpotState → Type 0
IsOf b k none = ⊥
IsOf b k (some s) = (s.frame ≡ b) × (stage_at (boundaries b) s.p ≡ k)

-- The row of the Inspector that is marked while it shows an order: that of the stage that the order has reached, where
-- the last stage has two rows, or none if the way is over.
abbrev pub IsMarked : WireBatch → ℤ → ℤ → Option SpotState → Type 0
IsMarked b start now none = row none (some b) ≡ negsuc 0
IsMarked b start now (some s) =
    (late : Bool) × (row (some s) (some b)
      ≡ pos (row_of (stage_at (boundaries b) (progress now (followed b start))) late))
