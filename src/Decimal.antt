-- ===== src/Decimal.antt =====
-- The number texts of the pages, as in web/src/components/Transport.tsx: JavaScript's `String` of a natural number and
-- `padStart`, on texts as lists of character codes, and how a reader reads them.
use market_sandbox.Prelude.{
  ℕ, zero, suc, ◌+◌, ◌-◌, ◌*◌, ◌/◌, ◌%◌, ◌<◌, ◌≡◌, ap, ◌∙◌, inl, inr, List, [], ◌∷◌, length,
  Bool-cases, if◌then◌else◌, arith, ltb,
}

-- The digits of a number before a text, the lowest first; with more fuel than the number, it is enough.
unfoldable pub digits_before : ℕ → ℕ → List ℕ → List ℕ
digits_before zero n text = text
digits_before (suc fuel) n text =
    let more = digits_before fuel (n / 10) ((b'0' + n % 10) ∷ text) in
    if ltb n 10 then (b'0' + n) ∷ text else more

-- `String(n)`
abbrev pub decimal : ℕ → List ℕ
decimal n = digits_before (suc n) n []

abbrev pub zeros : ℕ → List ℕ → List ℕ
zeros zero text = text
zeros (suc k) text = b'0' ∷ zeros k text

-- `text.padStart(width, "0")`
abbrev pub pad_start : ℕ → List ℕ → List ℕ
pad_start width text = zeros (width - length text) text

-- The number that a text of digits says, after a number read before it.
abbrev pub read_after : ℕ → List ℕ → ℕ
read_after v [] = v
read_after v (c ∷ cs) = read_after (10 * v + (c - b'0')) cs

pub read_after-digit :
    (d v w : ℕ) (text : List ℕ)
    → 10 * v + d ≡ w
    → read_after v ((b'0' + d) ∷ text) ≡ read_after w text
read_after-digit d v w text h = ap (λ k. read_after k text) (omega (arith, h))

digits_before-read_after :
    (fuel n : ℕ) (text : List ℕ)
    → n < fuel
    → read_after 0 (digits_before fuel n text) ≡ read_after n text
unfolding digits_before
digits_before-read_after zero n text h = absurd (omega arith)
digits_before-read_after (suc fuel) n text h = elim (Bool-cases (ltb n 10)) [
  | inl one ↦ rw (one, digits_before) (read_after-digit n 0 n text (omega arith))
  | inr more ↦
      let smaller : n / 10 < fuel = ground (arith, more) in
      rw (more, digits_before)
        (digits_before-read_after fuel (n / 10) ((b'0' + n % 10) ∷ text) smaller
          ∙ read_after-digit (n % 10) (n / 10) n text (omega arith))
]

pub decimal-read_after : (n : ℕ) → read_after 0 (decimal n) ≡ n
decimal-read_after n = digits_before-read_after (suc n) n [] (omega arith)
