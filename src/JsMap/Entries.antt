-- ===== src/JsMap/Entries.antt =====
-- Properties that every entry of a `JsMap` has, kept by writes.
use market_sandbox.Prelude.{◌≡◌, sym, subst, ite, some, [], ◌∷◌, arith}
use market_sandbox.JsMap.{JsMap, lookup, insert, erase}

module _ {ℓ} {K : Type ℓ} {V : Type ℓ} (dec : Discrete K) (P : K → V → Type 0) where
  abbrev pub AllEntries : JsMap K V → Type 0
  AllEntries [] = Unit
  AllEntries ((k, v) ∷ m) = P k v × AllEntries m

  pub AllEntries-insert :
      (k : K) (v : V) (m : JsMap K V) → P k v → AllEntries m → AllEntries (insert dec k v m)
  unfolding insert
  AllEntries-insert k v [] p h = (p, tt)
  AllEntries-insert k v ((j, w) ∷ m) p h =
      elim (dec j k) as (λ d. AllEntries (ite d ((j, v) ∷ m) ((j, w) ∷ insert dec k v m))) [
        | yes e ↦ (subst (λ x. P x v) (sym e) p, h.1)
        | no _ ↦ (h.0, AllEntries-insert k v m p h.1)
      ]

  pub AllEntries-erase : (k : K) (m : JsMap K V) → AllEntries m → AllEntries (erase dec k m)
  unfolding erase
  AllEntries-erase k [] h = tt
  AllEntries-erase k ((j, w) ∷ m) h = ground (arith, AllEntries-erase k m h.1)

  pub AllEntries-lookup :
      (k : K) (v : V) (m : JsMap K V) → lookup dec k m ≡ some v → AllEntries m → P k v
  unfolding lookup
  AllEntries-lookup k v [] e h = cc
  AllEntries-lookup k v ((j, w) ∷ m) e h = elim (dec j k) [
    | yes same ↦ subst (λ x. P x v) same (subst (λ x. P j x) (ground arith) h.0)
    | no other ↦ AllEntries-lookup k v m (ground arith) h.1
  ]
