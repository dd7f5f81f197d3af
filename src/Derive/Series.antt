-- ===== src/Derive/Series.antt =====
-- `priceSeries` of web/src/derive.ts: the trades and quotes of the last `windowMs` before an index.
use mathlib.Core.List.{reverse-append, reverse-cons, reverse-reverse, append_assoc, append-nil}
use market_sandbox.Prelude.{
  ℕ, ◌≡◌, refl, sym, ap, ◌∙◌, ◌⊎◌, inl, inr, Option, none, some, List, [], ◌∷◌, ◌++◌, map, reverse,
  All, All-append, get_elem?, Bool-cases, if◌then◌else◌, arith, ℤ, pos, negsuc, ◌-ℤ◌, ltb_ℤ, ◌≤ℤ◌,
  ◌<ℤ◌,
}
use market_sandbox.Wire.{Frame, of_batch, of_book, frame_at}
use market_sandbox.Derive.{up_to, back_from, trades_of}
use market_sandbox.Derive.Trades.{TradePoint, trade_point}

pub record QuotePoint : Type 0 where
  pub at : ℤ
  pub bid : Option ℤ
  pub ask : Option ℤ

-- The result; `start` and `stop` are `from` and `to`.
pub record Series : Type 0 where
  pub trades : List TradePoint
  pub quotes : List QuotePoint
  pub start : ℤ
  pub stop : ℤ

-- `if (f.tob) quotes.push(…)`
abbrev pub quotes_of : Frame → List QuotePoint
quotes_of (of_book f) = []
quotes_of (of_batch b) = elim b.tob [
  | none ↦ []
  | some t ↦ record { at = b.at; bid = t.bid; ask = t.ask } ∷ []
]

abbrev pub points_of : Frame → List TradePoint
points_of f = map (trade_point (frame_at f)) (trades_of f)

abbrev Points : Type 0
Points = List TradePoint × List QuotePoint

-- The body of the loop, which does nothing on a book frame.
abbrev push_points : Frame → Points → Points
push_points f (trades, quotes) = (trades ++ points_of f, quotes ++ quotes_of f)

-- The loop from the index down, with its `break` at the first frame before the window.
series_loop : ℤ → List Frame → Points → Points
series_loop start [] out = out
series_loop start (f ∷ fs) out =
    if ltb_ℤ (frame_at f) start then out else series_loop start fs (push_points f out)

-- `none` is the TypeError of `frames[idx].at` past the end.
pub price_series : List Frame → ℤ → ℤ → Option Series
unfolding series_loop
price_series frames (negsuc i) window =
    some (record { trades = []; quotes = []; start = pos 0; stop = pos 0 })
price_series frames (pos i) window = elim (get_elem? frames i) [
  | none ↦ none
  | some f ↦
      let start = frame_at f -ℤ window in
      let (trades, quotes) = series_loop start (back_from frames (pos i)) ([], []) in
      some (record {
        trades = reverse trades;
        quotes = reverse quotes;
        start = start;
        stop = frame_at f;
      })
]

-- Frames oldest first, each with its trades from the last to the first.
abbrev pub trades_reversed : List Frame → List TradePoint
trades_reversed [] = []
trades_reversed (f ∷ fs) = reverse (points_of f) ++ trades_reversed fs

abbrev pub quotes_in : List Frame → List QuotePoint
quotes_in [] = []
quotes_in (f ∷ fs) = quotes_of f ++ quotes_in fs

-- The longest run of frames at the end of `xs` that are not before `start`.
pub record IsWindow (start : ℤ) (xs before inside : List Frame) : Type 0 where
  pub split : xs ≡ before ++ inside
  pub recent : All (λ f. start ≤ℤ frame_at f) inside
  pub stops :
      (before ≡ [])
      ⊎ ((older : List Frame) × (f : Frame) × (before ≡ older ++ f ∷ []) × (frame_at f <ℤ start))

abbrev points_in : List Frame → List TradePoint
points_in [] = []
points_in (f ∷ fs) = points_of f ++ points_in fs

trades_reversed-append :
    (xs ys : List Frame) → trades_reversed (xs ++ ys) ≡ trades_reversed xs ++ trades_reversed ys
trades_reversed-append [] ys = refl
trades_reversed-append (x ∷ xs) ys = simp (trades_reversed-append xs ys, append_assoc)

quotes_in-append : (xs ys : List Frame) → quotes_in (xs ++ ys) ≡ quotes_in xs ++ quotes_in ys
quotes_in-append [] ys = refl
quotes_in-append (x ∷ xs) ys = simp (quotes_in-append xs ys, append_assoc)

reverse-points_in : (fs : List Frame) → reverse (points_in fs) ≡ trades_reversed (reverse fs)
reverse-points_in [] = refl
reverse-points_in (f ∷ fs) = simp (
  reverse-append (points_of f) (points_in fs),
  reverse-points_in fs,
  reverse-cons f fs,
  trades_reversed-append (reverse fs) (f ∷ []),
  append-nil,
)

reverse-quotes_of : (f : Frame) → reverse (quotes_of f) ≡ quotes_of f
reverse-quotes_of (of_book f) = refl
reverse-quotes_of (of_batch b) = ground arith

reverse-quotes_in : (fs : List Frame) → reverse (quotes_in fs) ≡ quotes_in (reverse fs)
reverse-quotes_in [] = refl
reverse-quotes_in (f ∷ fs) =
    rw
      (
        reverse-append (quotes_of f) (quotes_in fs),
        reverse-quotes_in fs,
        reverse-quotes_of f,
        reverse-cons f fs,
        quotes_in-append (reverse fs) (f ∷ []),
      )
      (simp append-nil)

-- What the loop has collected, and where it stopped, in the order in which it reads.
record Walk (start : ℤ) (ys : List Frame) (out : Points) (result : Points) : Type 0 where
  newer : List Frame
  older : List Frame
  split : ys ≡ newer ++ older
  recent : All (λ f. start ≤ℤ frame_at f) newer
  stops :
      (older ≡ [])
      ⊎ ((f : Frame) × (rest : List Frame) × (older ≡ f ∷ rest) × (frame_at f <ℤ start))
  collected : result ≡ (out.0 ++ points_in newer, out.1 ++ quotes_in newer)

series_loop-Walk :
    (start : ℤ) (ys : List Frame) (out : Points) → Walk start ys out (series_loop start ys out)
unfolding series_loop
series_loop-Walk start [] out = record {
  newer = [];
  older = [];
  split = refl;
  recent = tt;
  stops = inl refl;
  collected = simp append-nil;
}
series_loop-Walk start (f ∷ fs) out = elim (Bool-cases (ltb_ℤ (frame_at f) start)) [
  | inl over ↦ record {
    newer = [];
    older = f ∷ fs;
    split = refl;
    recent = tt;
    stops = inr (f, fs, refl, ground arith);
    collected = rw over (simp append-nil);
  }
  | inr inside ↦
      let w = series_loop-Walk start fs (push_points f out) in
      record {
        newer = f ∷ w.newer;
        older = w.older;
        split = ap (◌∷◌ f) w.split;
        recent = (ground arith, w.recent);
        stops = w.stops;
        collected = rw inside (w.collected ∙ simp append_assoc);
      }
]

All-reverse : (P : Frame → Type 0) (xs : List Frame) → All P xs → All P (reverse xs)
All-reverse P [] h = tt
All-reverse P (x ∷ xs) h =
    rw (reverse-cons x xs) (All-append P (reverse xs) (x ∷ []) (All-reverse P xs h.1) (h.0, tt))

Walk-IsWindow :
    {start : ℤ} {xs : List Frame} {out r : Points} (w : Walk start (reverse xs) out r)
    → IsWindow start xs (reverse w.older) (reverse w.newer)
Walk-IsWindow {xs = xs} w = record {
  split = sym (reverse-reverse xs) ∙ ap reverse w.split ∙ reverse-append w.newer w.older;
  recent = All-reverse _ w.newer w.recent;
  stops = elim w.stops [
    | inl e ↦ inl (rw e)
    | inr (f, rest, e, h) ↦ inr (reverse rest, f, rw e (reverse-cons f rest), h)
  ];
}

-- At an index within the frames `priceSeries` succeeds. It covers the longest run of frames that ends
-- at the index and is nowhere older than `windowMs` before it, lists the quotes of that run in order, and
-- its trades frame by frame in order, but the trades of each frame from the last to the first.
pub price_series-IsWindow :
    (frames : List Frame) (i : ℕ) (f : Frame) (window : ℤ)
    → get_elem? frames i ≡ some f
    → (s : Series) × (before : List Frame) × (inside : List Frame) × (price_series frames
          (pos i)
          window
        ≡ some s)
      × (s.start ≡ frame_at f -ℤ window)
      × (s.stop ≡ frame_at f)
      × IsWindow s.start (up_to frames (pos i)) before inside
      × (s.trades ≡ trades_reversed inside)
      × (s.quotes ≡ quotes_in inside)
unfolding price_series
price_series-IsWindow frames i f window e =
    let start = frame_at f -ℤ window in
    let w = series_loop-Walk start (back_from frames (pos i)) ([], []) in
    let r = series_loop start (back_from frames (pos i)) ([], []) in
    (
      record { trades = reverse r.0; quotes = reverse r.1; start = start; stop = frame_at f },
      reverse w.older,
      reverse w.newer,
      rw (e, price_series),
      refl,
      refl,
      Walk-IsWindow w,
      ap (λ (p : Points). reverse p.0) w.collected ∙ reverse-points_in w.newer,
      ap (λ (p : Points). reverse p.1) w.collected ∙ reverse-quotes_in w.newer,
    )
