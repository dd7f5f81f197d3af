-- ===== src/Scope/Slots.antt =====
-- The column of bots in web/src/components/Scope.tsx: each participant has a slot, and each slot a height.
use market_sandbox.Prelude.{
  ℕ, zero, suc, ◌+◌, ◌-◌, ◌*◌, ◌≤◌, ◌<◌, ◌≡◌, refl, sym, ap, ◌∙◌, max, ◌⊎◌, inl, inr, All, Option,
  none, some, Option-cases, List, [], ◌∷◌, ◌++◌, map, length, arith, subst, length-append,
  length-map, String, String_discrete,
}
use market_sandbox.JsMap
use market_sandbox.JsMap.{JsMap}
use market_sandbox.JsMap.Laws.{lookup-insert, size-insert}
use market_sandbox.JsMap.Entries.{AllEntries, AllEntries-insert, AllEntries-lookup}
use market_sandbox.Wire.{RosterEntry}

-- `ids.forEach((id, i) => slots.set(id, i))`, from `i` on.
unfoldable pub set_slots : ℕ → List String → JsMap String ℕ → JsMap String ℕ
set_slots i [] slots = slots
set_slots i (id ∷ ids) slots = set_slots (suc i) ids (JsMap.insert String_discrete id i slots)

-- `botSlots`
unfoldable pub bot_slots : List RosterEntry → JsMap String ℕ
unfolding set_slots
bot_slots roster =
    let ids = map (λ r. r.id) roster in
    JsMap.insert String_discrete "human" (length ids) (set_slots 0 ids [])

-- `a ?? b`
abbrev pub or_number : Option ℕ → ℕ → ℕ
or_number none b = b
or_number (some a) b = a

-- `a || b`, which passes over 0.
abbrev pub or_nonzero : ℕ → ℕ → ℕ
or_nonzero zero b = b
or_nonzero (suc a) b = suc a

abbrev pub slot : JsMap String ℕ → String → ℕ
slot slots node =
    or_number (JsMap.lookup String_discrete node slots)
      (or_number (JsMap.lookup String_discrete "human" slots) 0)

-- A height, `num` / `den`.
pub record Height : Type 0 where
  pub num : ℕ
  pub den : ℕ

-- `botY`, with `H` = 440.
unfoldable pub bot_y : JsMap String ℕ → String → Height
bot_y slots node =
    let den = max (or_nonzero (JsMap.size slots) 1 - 1) 1 in
    record { num = 36 * den + slot slots node * (440 - 78); den = den }

-- The participants in the order of their slots.
abbrev pub participants : List RosterEntry → List String
participants roster = map (λ r. r.id) roster ++ "human" ∷ []

-- No id stands twice.
abbrev pub IsDistinct : List String → Type 0
IsDistinct [] = Unit
IsDistinct (id ∷ ids) = All (λ j. ¬ (id ≡ j)) ids × IsDistinct ids

abbrev IsBelow : ℕ → String → ℕ → Type 0
IsBelow n id i = i < n

-- `n` slots are taken, each by one participant.
record IsTaken (n : ℕ) (m : JsMap String ℕ) : Type 0 where
  size : JsMap.size m ≡ n
  below : AllEntries String_discrete (IsBelow n) m
  alone :
      (a b : String) (i : ℕ)
      → JsMap.lookup String_discrete a m ≡ some i
      → JsMap.lookup String_discrete b m ≡ some i
      → a ≡ b

IsBelow-suc :
    (n : ℕ) (m : JsMap String ℕ)
    → AllEntries String_discrete (IsBelow n) m
    → AllEntries String_discrete (IsBelow (suc n)) m
IsBelow-suc n [] h = tt
IsBelow-suc n ((k, v) ∷ m) h = let first = h.0 in (omega (arith, first), IsBelow-suc n m h.1)

-- Who has a slot after `id` took the next one.
slot_after :
    (n : ℕ) (m : JsMap String ℕ) (id a : String) (i : ℕ)
    → AllEntries String_discrete (IsBelow n) m
    → JsMap.lookup String_discrete a (JsMap.insert String_discrete id n m) ≡ some i
    → ((id ≡ a) × (n ≡ i)) ⊎ ((JsMap.lookup String_discrete a m ≡ some i) × (i < n))
slot_after n m id a i below at =
    let new = lookup-insert String_discrete id a n m in
    elim (String_discrete id a) [
      | yes same ↦ let index : n ≡ i = ground (arith, new, at, same) in inl (same, index)
      | no other ↦
          let old : JsMap.lookup String_discrete a m ≡ some i = ground (arith, new, at, other) in
          inr (old, AllEntries-lookup String_discrete (IsBelow n) a i m old below)
    ]

still_fresh :
    (ids : List String) (n : ℕ) (m : JsMap String ℕ) (id : String)
    → All (λ j. ¬ (id ≡ j)) ids
    → All (λ j. JsMap.lookup String_discrete j m ≡ none) ids
    → All (λ j. JsMap.lookup String_discrete j (JsMap.insert String_discrete id n m) ≡ none) ids
still_fresh [] n m id other fresh = tt
still_fresh (j ∷ ids) n m id other fresh =
    let new = lookup-insert String_discrete id j n m in
    let first = other.0 in
    let old = fresh.0 in (ground (arith, new, first, old), still_fresh ids n m id other.1 fresh.1)

insert-IsTaken :
    (n : ℕ) (m : JsMap String ℕ) (id : String)
    → JsMap.lookup String_discrete id m ≡ none
    → IsTaken n m
    → IsTaken (suc n) (JsMap.insert String_discrete id n m)
insert-IsTaken n m id fresh h = record {
  size = ground (arith, size-insert String_discrete id n m, fresh, h.size);
  below =
      AllEntries-insert String_discrete (IsBelow (suc n)) id n m (omega arith)
        (IsBelow-suc n m h.below);
  alone = λ a b i at_a at_b. elim (slot_after n m id a i h.below at_a) [
    | inl (is_a, new) ↦ elim (slot_after n m id b i h.below at_b) [
      | inl (is_b, also_new) ↦ sym is_a ∙ is_b
      | inr (old, less) ↦ absurd (omega (arith, new, less))
    ]
    | inr (old_a, less_a) ↦ elim (slot_after n m id b i h.below at_b) [
      | inl (is_b, new) ↦ absurd (omega (arith, new, less_a))
      | inr (old_b, less_b) ↦ h.alone a b i old_a old_b
    ]
  ];
}

set_slots-IsTaken :
    (ids : List String) (n : ℕ) (m : JsMap String ℕ)
    → IsDistinct ids
    → All (λ j. JsMap.lookup String_discrete j m ≡ none) ids
    → IsTaken n m
    → IsTaken (n + length ids) (set_slots n ids m)
unfolding set_slots
set_slots-IsTaken [] n m d fresh h = let e : n + 0 ≡ n = omega arith in rw e h
set_slots-IsTaken (id ∷ ids) n m d fresh h =
    let e : n + suc (length ids) ≡ suc n + length ids = omega arith in
    rw e (
      set_slots-IsTaken ids (suc n) (JsMap.insert String_discrete id n m) d.1
        (still_fresh ids n m id d.0 fresh.1) (insert-IsTaken n m id fresh.0 h))

set_slots-append :
    (ids : List String) (n : ℕ) (id : String) (m : JsMap String ℕ)
    → set_slots n (ids ++ id ∷ []) m
      ≡ JsMap.insert String_discrete id (n + length ids) (set_slots n ids m)
unfolding set_slots
set_slots-append [] n id m = let e : n + 0 ≡ n = omega arith in rw e refl
set_slots-append (j ∷ ids) n id m =
    let e : n + suc (length ids) ≡ suc n + length ids = omega arith in
    rw e (set_slots-append ids (suc n) id (JsMap.insert String_discrete j n m))

all_fresh : (ids : List String) → All (λ j. JsMap.lookup {V = ℕ} String_discrete j [] ≡ none) ids
unfolding JsMap.lookup
all_fresh [] = tt
all_fresh (id ∷ ids) = (refl, all_fresh ids)

empty-IsTaken : IsTaken 0 []
unfolding JsMap.lookup
empty-IsTaken = record { size = refl; below = tt; alone = λ a b i at_a at_b. absurd (cc at_a) }

bot_slots-IsTaken :
    (roster : List RosterEntry)
    → IsDistinct (participants roster)
    → IsTaken (suc (length roster)) (bot_slots roster)
unfolding bot_slots
bot_slots-IsTaken roster d =
    let ids = map (λ (r : RosterEntry). r.id) roster in
    let taken = set_slots-IsTaken (ids ++ "human" ∷ []) 0 [] d (all_fresh _) empty-IsTaken in
    let joined = set_slots-append ids 0 "human" [] in
    let none_more : 0 + length ids ≡ length ids = omega arith in
    let count : 0 + length (ids ++ "human" ∷ []) ≡ suc (length roster) =
      omega
        (arith, length-append ids ("human" ∷ []), length-map (λ (r : RosterEntry). r.id) roster) in
    subst (λ k. IsTaken k (bot_slots roster)) count
      (subst (IsTaken (0 + length (ids ++ "human" ∷ [])))
        (joined ∙ ap (λ k. JsMap.insert String_discrete "human" k (set_slots 0 ids [])) none_more)
        taken)

slot_found :
    (m : JsMap String ℕ) (a : String) (i : ℕ)
    → JsMap.lookup String_discrete a m ≡ some i
    → slot m a ≡ i
slot_found m a i e = rw e refl

slot_below :
    (n : ℕ) (m : JsMap String ℕ) (a : String)
    → AllEntries String_discrete (IsBelow (suc n)) m
    → slot m a < suc n
slot_below n m a below =
    let own : (k : String) (i : ℕ) → JsMap.lookup String_discrete k m ≡ some i → i < suc n =
      λ k i e. AllEntries-lookup String_discrete (IsBelow (suc n)) k i m e below in
    elim (Option-cases (JsMap.lookup String_discrete a m)) [
      | inr (i, at) ↦ let less = own a i at in rw at (omega (arith, less))
      | inl off ↦ elim (Option-cases (JsMap.lookup String_discrete "human" m)) [
        | inr (i, at) ↦ let less = own "human" i at in rw (off, at) (omega (arith, less))
        | inl out ↦ rw (off, out) (omega arith)
      ]
    ]

-- A height in the column.
abbrev pub IsWithin : Height → Type 0
IsWithin y = (0 < y.den) × (36 * y.den ≤ y.num) × (y.num ≤ 398 * y.den)

bot_y-IsWithin :
    (n : ℕ) (m : JsMap String ℕ) (a : String)
    → JsMap.size m ≡ suc n
    → slot m a < suc n
    → IsWithin (bot_y m a)
unfolding bot_y
bot_y-IsWithin n m a size below = rw size (omega arith, omega arith, omega (arith, below))

-- In a roster of distinct bots, none of which has the human's id, two participants with slots are drawn within the
-- column, no higher than 36 and no lower than 398, and at different heights.
pub bot_y_apart :
    (roster : List RosterEntry) (a b : String) (i j : ℕ)
    → IsDistinct (participants roster)
    → JsMap.lookup String_discrete a (bot_slots roster) ≡ some i
    → JsMap.lookup String_discrete b (bot_slots roster) ≡ some j
    → ¬ (a ≡ b)
    → IsWithin (bot_y (bot_slots roster) a)
      × IsWithin (bot_y (bot_slots roster) b)
      × ¬ (bot_y (bot_slots roster) a ≡ bot_y (bot_slots roster) b)
unfolding bot_y
bot_y_apart roster a b i j d at_a at_b other =
    let slots = bot_slots roster in
    let taken = bot_slots-IsTaken roster d in
    let within : (k : String) → IsWithin (bot_y slots k) = λ k.
      bot_y-IsWithin (length roster) slots k taken.size
        (slot_below (length roster) slots k taken.below) in
    (
      within a,
      within b,
      λ same.
          let heights = ap (λ (y : Height). y.num) same in
          let is_i = slot_found slots a i at_a in
          let is_j = slot_found slots b j at_b in
          let equal : i ≡ j = omega (arith, heights, is_i, is_j) in
          other (taken.alone a b i at_a (at_b ∙ ap some (sym equal))),
    )
