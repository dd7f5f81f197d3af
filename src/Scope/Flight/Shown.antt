-- ===== src/Scope/Flight/Shown.antt =====
-- What holds of the packets of web/src/components/Scope.tsx at every draw.
use market_sandbox.Prelude.{◌≤◌, ◌≡◌, List, [], ◌∷◌, length, true, All, ℤ, ◌≤ℤ◌}
use market_sandbox.Feed.{Feed}
use market_sandbox.Scope.{boundaries, Packet}
use market_sandbox.Feed.Client
use market_sandbox.Scope.Flight.{Flight, packet_max, is_flying, draw}

-- A packet as the animation keeps it: set off at some draw until `now`, still on its way, with the
-- boundaries of its batch.
pub record IsOnWay (now : ℤ) (p : Packet) : Type 0 where
  pub set_off : p.start ≤ℤ now
  pub flying : is_flying now p ≡ true
  pub laid_out : p.s ≡ boundaries p.f

pub record IsShown (now : ℤ) (ps : List Packet) : Type 0 where
  pub few : length ps ≤ packet_max
  pub on_way : All (IsOnWay now) ps

-- A packet that set off before.
abbrev IsOut : ℤ → Packet → Type 0
IsOut now p = (p.start ≤ℤ now) × (p.s ≡ boundaries p.f)

-- What happens to the page between and at the draws.
pub data Happening : Type 0 where
  drawn : ℤ → Happening
  fed : Client.Event → Happening

pub run : List Happening → Feed → Flight → Feed × Flight
run [] feed s = (feed, s)
run (drawn now ∷ es) feed s = let (feed', s') = draw now feed s in run es feed' s'
run (fed e ∷ es) feed s = run es (Client.handle e feed) s

-- The draws do not go back in time.
abbrev pub IsForward : ℤ → List Happening → Type 0
IsForward before [] = Unit
IsForward before (drawn now ∷ es) = (before ≤ℤ now) × IsForward now es
IsForward before (fed e ∷ es) = IsForward before es

abbrev pub last_draw : ℤ → List Happening → ℤ
last_draw before [] = before
last_draw before (drawn now ∷ es) = last_draw now es
last_draw before (fed e ∷ es) = last_draw before es
