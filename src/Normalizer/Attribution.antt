-- ===== src/Normalizer/Attribution.antt =====
-- Whom web/gateway/normalize.ts names as the resting side of each trade of a batch.
use market_sandbox.Prelude.{
  Option, none, some, List, [], ◌∷◌, ite, if◌then◌else◌, ℤ, pos, ◌+ℤ◌, ◌-ℤ◌, ◌<ℤ◌, leb_ℤ, String,
  String_discrete,
}
use market_sandbox.JsMap
use market_sandbox.Normalizer.Raw.{RawTrade, num, text}
use market_sandbox.Normalizer.Resting.{Resting}

-- What some trades take from an order.
abbrev pub taken : String → List RawTrade → ℤ
taken id [] = pos 0
taken id (t ∷ ts) =
    ite (String_discrete (text t.resting_order_id) id) (num t.quantity) (pos 0) +ℤ taken id ts

-- An entry after a quantity has been taken from it.
abbrev pub entry_after : Option Resting → ℤ → Option Resting
entry_after none qty = none
entry_after (some e) qty =
    if leb_ℤ (e.remaining -ℤ qty) (pos 0)
    then none
    else some (record e { remaining = e.remaining -ℤ qty })

abbrev pub IsAlive : Option Resting → Type 0
IsAlive none = Unit
IsAlive (some e) = pos 0 <ℤ e.remaining

abbrev pub IsPositive : RawTrade → Type 0
IsPositive t = pos 0 <ℤ num t.quantity
