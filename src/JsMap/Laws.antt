-- ===== src/JsMap/Laws.antt =====
-- The laws of `JsMap`: what a key reads after a write, how many entries there are, and sums over them.
use market_sandbox.Prelude.{
  ◌+◌, ◌≤◌, ◌≡◌, refl, ite, none, some, [], ◌∷◌, ◌++◌, arith, ℤ, pos, ◌+ℤ◌, int_laws,
}
use market_sandbox.JsMap.{JsMap, lookup, insert, erase, Distinct, size}

module _ {ℓ} {K : Type ℓ} {V : Type ℓ} (dec : Discrete K) where
  pub lookup-insert :
      (k j : K) (v : V) (m : JsMap K V)
      → lookup dec j (insert dec k v m) ≡ ite (dec k j) (some v) (lookup dec j m)
  unfolding lookup insert
  lookup-insert k j v [] = refl
  lookup-insert k j v ((i, w) ∷ m) = ground (arith, lookup-insert k j v m)

  pub lookup-insert_self :
      (k : K) (v : V) (m : JsMap K V) → lookup dec k (insert dec k v m) ≡ some v
  lookup-insert_self k v m = ground (arith, lookup-insert k k v m)

  pub lookup-erase :
      (k j : K) (m : JsMap K V) → lookup dec j (erase dec k m) ≡ ite (dec k j) none (lookup dec j m)
  unfolding lookup erase
  lookup-erase k j [] = ground arith
  lookup-erase k j ((i, w) ∷ m) = ground (arith, lookup-erase k j m)

  pub erase_absent : (k : K) (m : JsMap K V) → lookup dec k m ≡ none → erase dec k m ≡ m
  unfolding lookup erase
  erase_absent k [] h = refl
  erase_absent k ((i, w) ∷ m) h = ground (arith, erase_absent k m)

  pub insert-Distinct :
      (k : K) (v : V) (m : JsMap K V) → Distinct dec m → Distinct dec (insert dec k v m)
  unfolding lookup insert
  insert-Distinct k v [] d = (refl, tt)
  insert-Distinct k v ((i, w) ∷ m) d =
      ground (arith, insert-Distinct k v m d.1, lookup-insert k i v m)

  pub erase-Distinct : (k : K) (m : JsMap K V) → Distinct dec m → Distinct dec (erase dec k m)
  unfolding erase
  erase-Distinct k [] d = tt
  erase-Distinct k ((i, w) ∷ m) d = ground (arith, erase-Distinct k m d.1, lookup-erase k i m)

  -- A new key goes to the end.
  pub insert_absent :
      (k : K) (v : V) (m : JsMap K V) → lookup dec k m ≡ none → insert dec k v m ≡ m ++ (k, v) ∷ []
  unfolding lookup insert
  insert_absent k v [] h = refl
  insert_absent k v ((i, w) ∷ m) h = ground (arith, insert_absent k v m)

  pub size-insert :
      (k : K) (v : V) (m : JsMap K V)
      → size (insert dec k v m) ≡ size m + (elim (lookup dec k m) [ none ↦ 1 | some _ ↦ 0 ])
  unfolding lookup insert
  size-insert k v [] = refl
  size-insert k v ((i, w) ∷ m) = ground (arith, size-insert k v m)

  pub size-erase-le : (k : K) (m : JsMap K V) → size (erase dec k m) ≤ size m
  unfolding erase
  size-erase-le k [] = omega arith
  size-erase-le k ((i, w) ∷ m) = ground (arith, size-erase-le k m)

  -- The sum of a quantity over the entries.
  abbrev pub sum_values : (V → ℤ) → JsMap K V → ℤ
  sum_values f [] = pos 0
  sum_values f ((k, v) ∷ m) = f v +ℤ sum_values f m

  pub sum-insert_present :
      (f : V → ℤ) (k : K) (old v : V) (m : JsMap K V)
      → lookup dec k m ≡ some old
      → sum_values f (insert dec k v m) +ℤ f old ≡ sum_values f m +ℤ f v
  unfolding lookup insert
  sum-insert_present f k old v [] h = cc
  sum-insert_present f k old v ((i, w) ∷ m) h = grind (int_laws, sum-insert_present f k old v m)

  pub sum-insert_absent :
      (f : V → ℤ) (k : K) (v : V) (m : JsMap K V)
      → lookup dec k m ≡ none
      → sum_values f (insert dec k v m) ≡ sum_values f m +ℤ f v
  unfolding lookup insert
  sum-insert_absent f k v [] h = omega int_laws
  sum-insert_absent f k v ((i, w) ∷ m) h = grind (int_laws, sum-insert_absent f k v m)
