-- ===== src/Scope/Pick.antt =====
-- The click of web/src/components/Scope.tsx on a packet. Positions are whole numbers of some unit, of which a
-- pixel has `unit`; a distance is kept as its square.
use mathlib.Core.List.{append_assoc, append-nil}
use market_sandbox.Prelude.{
  ℕ, ◌+◌, ◌*◌, ◌≤◌, ◌<◌, ◌≡◌, refl, sym, ap, ◌∙◌, subst, Option, none, some, List, [], ◌∷◌, ◌++◌,
  Bool, true, false, ◌&&◌, Bool-cases, inl, inr, if◌then◌else◌, ltb, All, All-append, All-imp,
  arith, ℤ, pos_part, neg_part, ◌-ℤ◌,
}
use market_sandbox.Wire.{WireBatch}

-- An entry of `hits`.
pub record Hit : Type 0 where
  pub f : WireBatch
  pub x : ℤ
  pub y : ℤ

pub record Best : Type 0 where
  pub f : WireBatch
  pub d : ℕ

abbrev pub square : ℤ → ℕ
square v = (pos_part v + neg_part v) * (pos_part v + neg_part v)

-- The square of `Math.hypot(h.x - x, h.y - y)`.
abbrev pub distance : ℤ → ℤ → Hit → ℕ
distance x y h = square (h.x -ℤ x) + square (h.y -ℤ y)

-- `!best || d < best.d`
abbrev pub is_better : ℕ → Option Best → Bool
is_better d none = true
is_better d (some b) = ltb d b.d

abbrev pub better : ℕ → (Hit → ℕ) → Hit → Option Best → Option Best
better limit distance h best =
    if ltb (distance h) limit && is_better (distance h) best
    then some (record { f = h.f; d = distance h })
    else best

-- The loop of `onClick`.
unfoldable pub nearest : ℕ → (Hit → ℕ) → List Hit → Option Best → Option Best
nearest limit distance [] best = best
nearest limit distance (h ∷ hs) best = nearest limit distance hs (better limit distance h best)

-- `best ? best.f : null`
abbrev pub selected : Option Best → Option WireBatch
selected none = none
selected (some b) = some b.f

-- `onClick`: what it selects.
unfoldable pub on_click : ℕ → ℤ → ℤ → List Hit → Option WireBatch
unfolding nearest
on_click unit x y hits = selected (nearest (22 * unit * (22 * unit)) (distance x y) hits none)

-- The first of the nearest entries, if it is near enough.
pub data IsNearest (limit : ℕ) (distance : Hit → ℕ) (hits : List Hit) : Option Best → Type 0 where
  none_near : All (λ h. limit ≤ distance h) hits → IsNearest limit distance hits none
  near :
      (before : List Hit) (h : Hit) (after : List Hit)
      → hits ≡ before ++ (h ∷ after)
      → distance h < limit
      → All (λ k. distance h < distance k) before
      → All (λ k. distance h ≤ distance k) after
      → IsNearest limit distance hits (some (record { f = h.f; d = distance h }))

module _ (limit : ℕ) (distance : Hit → ℕ) where
  IsNearest-snoc :
      (hs : List Hit) (best : Option Best) (h : Hit)
      → IsNearest limit distance hs best
      → IsNearest limit distance (hs ++ h ∷ []) (better limit distance h best)
  IsNearest-snoc hs _ h (none_near far) = elim (Bool-cases (ltb (distance h) limit)) [
    | inl close ↦ rw close (
        near hs h [] refl (ground (arith, close))
          (All-imp hs (λ k out. ground (arith, close, out)) far) tt)
    | inr out ↦ rw out (none_near (All-append _ hs (h ∷ []) far (ground (arith, out), tt)))
  ]
  IsNearest-snoc hs _ h (near before k after at close less no_less) =
      elim (Bool-cases (ltb (distance h) (distance k))) [
        | inl nearer ↦
            let step : distance h < distance k = ground (arith, nearer) in
            let both : ltb (distance h) limit && ltb (distance h) (distance k) ≡ true =
              ground (arith, nearer, close) in
            let all : All (λ (j : Hit). distance h < distance j) (before ++ k ∷ after) =
              All-append (λ (j : Hit). distance h < distance j) before (k ∷ after)
                (All-imp before (λ j c. omega (arith, step, c)) less)
                (step, All-imp after (λ j c. omega (arith, step, c)) no_less) in
            rw both (
              near hs h [] refl (omega (arith, step, close))
                (subst (All (λ (j : Hit). distance h < distance j)) (sym at) all) tt)
        | inr further ↦
            let both : ltb (distance h) limit && ltb (distance h) (distance k) ≡ false =
              ground (arith, further) in
            let bound : distance k ≤ distance h = ground (arith, further) in
            rw both (
              near before k (after ++ h ∷ [])
                (ap (λ (l : List Hit). l ++ h ∷ []) at ∙ append_assoc before _ _) close less
                (All-append _ after (h ∷ []) no_less (bound, tt)))
      ]

  nearest-IsNearest :
      (seen hs : List Hit) (best : Option Best)
      → IsNearest limit distance seen best
      → IsNearest limit distance (seen ++ hs) (nearest limit distance hs best)
  unfolding nearest
  nearest-IsNearest seen [] best so_far = rw (append-nil seen) so_far
  nearest-IsNearest seen (h ∷ hs) best so_far =
      subst
        (λ l. IsNearest limit distance l (nearest limit distance hs (better limit distance h best)))
        (append_assoc seen (h ∷ []) hs)
        (nearest-IsNearest (seen ++ h ∷ []) hs (better limit distance h best)
          (IsNearest-snoc seen best h so_far))

-- A click selects the order whose packet is nearest to it, the first of equally near ones, if that packet is
-- less than 22 pixels away, and no order otherwise.
pub on_click-IsNearest :
    (unit : ℕ) (x y : ℤ) (hits : List Hit)
    → (best : Option Best) × IsNearest (22 * unit * (22 * unit)) (distance x y) hits best
      × (on_click unit x y hits ≡ selected best)
unfolding on_click
on_click-IsNearest unit x y hits =
    let limit = 22 * unit * (22 * unit) in
    (
      nearest limit (distance x y) hits none,
      nearest-IsNearest limit (distance x y) [] hits none (none_near tt),
      refl,
    )
