-- ===== src/Bots/Rows.antt =====
-- Who has a row in the table of web/src/components/Bots.tsx.
use market_sandbox.Prelude.{
  ◌≡◌, refl, ap, ap₂, ◌∙◌, inl, inr, Option, none, some, Option-cases, List, [], ◌∷◌, ◌++◌, map,
  All, arith, ℤ, String, String_discrete,
}
use market_sandbox.JsMap
use market_sandbox.Wire.{Frame, RosterEntry}
use market_sandbox.Derive.Stats.{BotStat, Stats, compute_stats}
use market_sandbox.Derive.Stats.Seats.{IsOwn, IsSeated, compute_stats-IsSeated}
use market_sandbox.Bots.{found, human_row, rows, table}

abbrev name : BotStat → String
name s = s.id

found_none : (stats : Stats) → map name (found stats []) ≡ []
unfolding found
found_none stats = refl

found_one :
    (stats : Stats) (id : String) (ids : List String) (s : BotStat)
    → JsMap.lookup String_discrete id stats ≡ some s
    → found stats (id ∷ ids) ≡ s ∷ found stats ids
unfolding found
found_one stats id ids s on = rw (on, found) refl

found-names :
    (stats : Stats) (rs : List RosterEntry)
    → All (λ r. IsSeated r.id stats) rs
    → map name (found stats (map (λ (r : RosterEntry). r.id) rs))
      ≡ map (λ (r : RosterEntry). r.id) rs
found-names stats [] h = found_none stats
found-names stats (r ∷ rs) h = elim (Option-cases (JsMap.lookup String_discrete r.id stats)) [
  | inl off ↦ let (own, sits) = h.0 in absurd (ground (arith, off, sits))
  | inr (s, on) ↦
      let own : s.id ≡ r.id = rw on at (h.0.0 r.id) in
      let ids = map (λ (x : RosterEntry). x.id) rs in
      ap (map name) (found_one stats r.id ids s on)
      ∙ ap₂ (λ (x : String) (xs : List String). x ∷ xs) own (found-names stats rs h.1)
]

map-append : (xs ys : List BotStat) → map name (xs ++ ys) ≡ map name xs ++ map name ys
map-append [] ys = refl
map-append (x ∷ xs) ys = ap (◌∷◌ x.id) (map-append xs ys)

-- The human, who is there as soon as an order or a trade names the human.
abbrev pub human_if : Option BotStat → List String
human_if none = []
human_if (some s) = "human" ∷ []

human-names : (o : Option BotStat) → IsOwn "human" o → map name (human_row o) ≡ human_if o
human-names none h = refl
human-names (some s) h = ap (λ (x : String). x ∷ []) h

-- For a roster with at least one bot, the table has one row for each bot, in the roster's order and
-- also before its first order, and after them one for the human, once the statistics have an entry for
-- the human.
pub table-names :
    (frames : List Frame) (idx : ℤ) (r : RosterEntry) (rs : List RosterEntry)
    → let roster = r ∷ rs in
      map (λ s. s.id) (table frames idx roster)
      ≡ map (λ x. x.id) roster
        ++ human_if (JsMap.lookup String_discrete "human" (compute_stats frames idx roster).stats)
unfolding table rows
table-names frames idx r rs =
    let stats = (compute_stats frames idx (r ∷ rs)).stats in
    let seated = compute_stats-IsSeated frames idx (r ∷ rs) in
    let human = JsMap.lookup String_discrete "human" stats in
    map-append (found stats (map (λ (x : RosterEntry). x.id) (r ∷ rs))) (human_row human)
    ∙ ap₂ ◌++◌ (found-names stats (r ∷ rs) seated) (human-names human (seated.0.0 "human"))
