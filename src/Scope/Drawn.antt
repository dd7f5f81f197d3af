-- ===== src/Scope/Drawn.antt =====
-- Which orders can be clicked in web/src/components/Scope.tsx.
use market_sandbox.Prelude.{
  ℕ, ◌*◌, ◌≤◌, ◌<◌, ◌≡◌, refl, sym, ap, subst, inl, inr, Option, none, some, List, [], ◌∷◌, All,
  All-append, All-left, All-right, All-imp, All-one, IsIn, arith, ℤ,
}
use market_sandbox.Wire.{WireBatch}
use market_sandbox.Scope.{boundaries, before, Packet, progress}
use market_sandbox.Scope.Heads.{IsHead, drawn_head}
use market_sandbox.Scope.Pick.{
  Hit, Best, IsNearest, near, distance, selected, none_near, on_click, on_click-IsNearest,
}
use market_sandbox.Scope.Draw.{Place, clamp01, head, hit_of, hits}

all_in : {A : Type 0} (P : A → Type 0) (xs : List A) (x : A) → IsIn x xs → All P xs → P x
all_in P [] x is h = absurd is
all_in P (y ∷ ys) x (inl same) h = subst P (sym same) h.0
all_in P (y ∷ ys) x (inr later) h = all_in P ys x later h.1

module _ (point : WireBatch → Place → ℤ × ℤ) (now : ℤ) where
  -- What can be clicked is the place of a packet on its way.
  record IsFrom (ps : List Packet) (h : Hit) : Type 0 where
    p : Packet
    flies : IsIn p ps
    place : Place
    drawn : head p.s (clamp01 (progress now p)) ≡ some place
    at : h ≡ record { f = p.f; x = (point p.f place).0; y = (point p.f place).1 }

  later-IsFrom : (q : Packet) (ps : List Packet) (h : Hit) → IsFrom ps h → IsFrom (q ∷ ps) h
  later-IsFrom q ps h k = record {
    p = k.p;
    flies = inr k.flies;
    place = k.place;
    drawn = k.drawn;
    at = k.at;
  }

  first-IsFrom :
      (p : Packet) (ps : List Packet) (o : Option Place)
      → head p.s (clamp01 (progress now p)) ≡ o
      → All (IsFrom (p ∷ ps)) (hit_of point p.f o)
  first-IsFrom p ps none is = tt
  first-IsFrom p ps (some place) is =
      (record { p = p; flies = inl refl; place = place; drawn = is; at = refl }, tt)

  hits-IsFrom : (ps : List Packet) → All (IsFrom ps) (hits point now ps)
  unfolding hits
  hits-IsFrom [] = tt
  hits-IsFrom (p ∷ ps) =
      All-append (IsFrom (p ∷ ps)) (hit_of point p.f (head p.s (clamp01 (progress now p))))
        (hits point now ps) (first-IsFrom p ps (head p.s (clamp01 (progress now p))) refl)
        (All-imp (hits point now ps) (later-IsFrom p ps) (hits-IsFrom ps))

  -- What is true of the packet of an order at its place, if it is drawn.
  abbrev pub IfDrawn : (Hit → Type 0) → WireBatch → Option Place → Type 0
  IfDrawn P f none = Unit
  IfDrawn P f (some h) = P (record { f = f; x = (point f h).0; y = (point f h).1 })

  -- What is true of every one of some packets that is drawn.
  abbrev pub AllDrawn : (Hit → Type 0) → List Packet → Type 0
  AllDrawn P ps = All (λ q. IfDrawn P q.f (head q.s (clamp01 (progress now q)))) ps

  hit_of-drawn :
      (P : Hit → Type 0) (f : WireBatch) (o : Option Place)
      → All P (hit_of point f o)
      → IfDrawn P f o
  hit_of-drawn P f none h = tt
  hit_of-drawn P f (some place) h = h.0

  hits-drawn : (P : Hit → Type 0) (ps : List Packet) → All P (hits point now ps) → AllDrawn P ps
  unfolding hits
  hits-drawn P [] h = tt
  hits-drawn P (q ∷ ps) h =
      let o = head q.s (clamp01 (progress now q)) in
      (
        hit_of-drawn P q.f o (All-left P (hit_of point q.f o) (hits point now ps) h),
        hits-drawn P ps (All-right P (hit_of point q.f o) (hits point now ps) h),
      )

  module _ (unit : ℕ) (x y : ℤ) (ps : List Packet) where
    -- An order that was clicked: one of the packets is its own, it is drawn at a place of its stage before the reply, that
    -- place is near the click, and no packet that is drawn is nearer.
    pub record IsClicked (f : WireBatch) : Type 0 where
      pub p : Packet
      pub flies : IsIn p ps
      pub its_own : p.f ≡ f
      pub place : Place
      pub drawn : head p.s (clamp01 (progress now p)) ≡ some place
      pub head_at : IsHead p.s (clamp01 (progress now p)) (some place)
      pub is_near :
          distance x y (record { f = p.f; x = (point p.f place).0; y = (point p.f place).1 })
          < 22 * unit * (22 * unit)
      pub nearest :
          AllDrawn
            (λ k.
              distance x y (record { f = p.f; x = (point p.f place).0; y = (point p.f place).1 })
              ≤ distance x y k)
            ps

    -- What a click selects: an order that was clicked, or none where no packet that is drawn is near.
    pub data IsSelection : Option WireBatch → Type 0 where
      no_order : AllDrawn (λ k. 22 * unit * (22 * unit) ≤ distance x y k) ps → IsSelection none
      an_order : (f : WireBatch) → IsClicked f → IsSelection (some f)

    best-IsSelection :
        (best : Option Best)
        → All (λ q. IsHead q.s (clamp01 (progress now q)) (head q.s (clamp01 (progress now q)))) ps
        → IsNearest (22 * unit * (22 * unit)) (distance x y) (hits point now ps) best
        → IsSelection (selected best)
    best-IsSelection _ heads (none_near far) =
        no_order (hits-drawn (λ k. 22 * unit * (22 * unit) ≤ distance x y k) ps far)
    best-IsSelection _ heads (near before h after at close less no_less) =
        let from =
          All-one (IsFrom ps) h before after (subst (All (IsFrom ps)) at (hits-IsFrom ps)) in
        let no_nearer : All (λ j. distance x y h ≤ distance x y j) (hits point now ps) =
          subst (All (λ j. distance x y h ≤ distance x y j)) (sym at) (
            All-append (λ j. distance x y h ≤ distance x y j) before (h ∷ after)
              (All-imp before (λ j further. omega (arith, further)) less) (omega arith, no_less)) in
        an_order h.f (record {
          p = from.p;
          flies = from.flies;
          its_own = sym (ap (λ (k : Hit). k.f) from.at);
          place = from.place;
          drawn = from.drawn;
          head_at =
              subst (IsHead from.p.s (clamp01 (progress now from.p))) from.drawn
                (all_in _ ps from.p from.flies heads);
          is_near = subst (λ k. distance x y k < 22 * unit * (22 * unit)) from.at close;
          nearest = hits-drawn _ ps (
              subst (λ k. All (λ j. distance x y k ≤ distance x y j) (hits point now ps)) from.at
                no_nearer);
        })

-- For packets with the boundaries of their orders: each whose reply has not begun is drawn at a place on
-- the line of its stage, and no other is. A click selects the order of a packet that is drawn less than 22
-- pixels away from it, where no packet that is drawn is nearer; it selects no order only where no packet
-- is drawn within 22 pixels.
pub on_click-IsSelection :
    (point : WireBatch → Place → ℤ × ℤ) (now : ℤ) (unit : ℕ) (x y : ℤ) (ps : List Packet)
    → All (λ (p : Packet). p.s ≡ boundaries p.f) ps
    → All (λ q. IsHead q.s (clamp01 (progress now q)) (head q.s (clamp01 (progress now q)))) ps
      × IsSelection point now unit x y ps (on_click unit x y (hits point now ps))
on_click-IsSelection point now unit x y ps laid =
    let (best, nearest, selects) = on_click-IsNearest unit x y (hits point now ps) in
    let heads = All-imp ps (λ q is. drawn_head now q is) laid in
    (
      heads,
      subst (IsSelection point now unit x y ps) (sym selects)
          (best-IsSelection point now unit x y ps best heads nearest),
    )
