-- ===== src/Workspace/Stair.antt =====
-- The shape of the paths of the price chart of web/src/components/Workspace.tsx.
use market_sandbox.Prelude.{◌≡◌, refl, ◌⊎◌, Option, none, some, List, [], ◌∷◌, inl, inr, ℤ}
use market_sandbox.Workspace.Chart.{Coordinate, Command, move_to, line_to, line}

-- Every line goes straight across or straight up or down from where the last command ended.
abbrev pub IsStair : Option (Coordinate × Coordinate) → List Command → Type 0
IsStair pen [] = Unit
IsStair pen (move_to x y ∷ cs) = IsStair (some (x, y)) cs
IsStair none (line_to x y ∷ cs) = ⊥
IsStair (some (from_x, from_y)) (line_to x y ∷ cs) =
    ((from_x ≡ x) ⊎ (from_y ≡ y)) × IsStair (some (x, y)) cs

-- Where the pen is when the value `prev` was the last.
abbrev pub IsAt : (ℤ → Coordinate) → Option ℤ → Option (Coordinate × Coordinate) → Type 0
IsAt y none pen = Unit
IsAt y (some u) none = ⊥
IsAt y (some u) (some (at_x, at_y)) = at_y ≡ y u

pub line-IsStair :
    (x y : ℤ → Coordinate) (prev : Option ℤ) (pen : Option (Coordinate × Coordinate))
    (ps : List (ℤ × Option ℤ))
    → IsAt y prev pen
    → IsStair pen (line x y prev ps)
unfolding line
line-IsStair x y prev pen [] k = tt
line-IsStair x y none pen ((at, none) ∷ ps) k = line-IsStair x y none pen ps tt
line-IsStair x y (some u) pen ((at, none) ∷ ps) k = line-IsStair x y none pen ps tt
line-IsStair x y none pen ((at, some v) ∷ ps) k =
    line-IsStair x y (some v) (some (x at, y v)) ps refl
line-IsStair x y (some u) none ((at, some v) ∷ ps) k = absurd k
line-IsStair x y (some u) (some (at_x, at_y)) ((at, some v) ∷ ps) k =
    (inr k, (inl refl, line-IsStair x y (some v) (some (x at, y v)) ps refl))
