-- ===== src/JsMap.antt =====
-- A JavaScript `Map`, as `normalize.ts`, `feed.ts`, `derive.ts` and `server.ts` use it: entries in the
-- order in which their keys were first set; `set` on a present key keeps its place.
pub mod Laws
pub mod Entries
use market_sandbox.Prelude.{ℕ, ◌+◌, ◌≡◌, ite, Option, none, some, List, [], ◌∷◌, map, length}

abbrev pub JsMap {ℓ} : Type ℓ → Type ℓ → Type ℓ
JsMap K V = List (K × V)

module _ {ℓ} {K : Type ℓ} {V : Type ℓ} where
  abbrev pub keys : JsMap K V → List K
  keys = map (λ e. e.0)

  abbrev pub values : JsMap K V → List V
  values = map (λ e. e.1)

  -- `map.size`
  abbrev pub size : JsMap K V → ℕ
  size m = length m

module _ {ℓ} {K : Type ℓ} {V : Type ℓ} (dec : Discrete K) where
  -- `map.get(k)`
  unfoldable pub lookup : K → JsMap K V → Option V
  lookup k [] = none
  lookup k ((j, v) ∷ m) = ite (dec j k) (some v) (lookup k m)

  -- `map.set(k, v)`
  unfoldable pub insert : K → V → JsMap K V → JsMap K V
  insert k v [] = (k, v) ∷ []
  insert k v ((j, w) ∷ m) = ite (dec j k) ((j, v) ∷ m) ((j, w) ∷ insert k v m)

  -- `map.delete(k)`
  unfoldable pub erase : K → JsMap K V → JsMap K V
  erase k [] = []
  erase k ((j, w) ∷ m) = let rest = erase k m in ite (dec j k) rest ((j, w) ∷ rest)

  -- No key stands twice.
  abbrev pub Distinct : JsMap K V → Type ℓ
  Distinct [] = Unit
  Distinct ((k, v) ∷ m) = (lookup k m ≡ none) × Distinct m
