-- ===== src/Transport/Clock.antt =====
-- The clock texts of web/src/components/Transport.tsx.
use market_sandbox.Prelude.{
  ℕ, zero, suc, ◌+◌, ◌-◌, ◌*◌, ◌/◌, ◌%◌, ◌≤◌, ◌<◌, ◌≡◌, refl, ap, ap₂, ◌∙◌, inl, inr, Option, none,
  some, List, [], ◌∷◌, ◌++◌, true, false, Bool-cases, if◌then◌else◌, arith, tests, ltb, ◌==◌, ℤ,
  pos, negsuc,
}
use market_sandbox.Decimal.{digits_before, decimal, pad_start, read_after}
use market_sandbox.Transport.{seconds, clock}

-- The seconds that a text with one colon says, after minutes read before it.
abbrev pub read_clock : ℕ → List ℕ → Option ℕ
read_clock v [] = none
read_clock v (c ∷ cs) =
    let more = read_clock (10 * v + (c - b'0')) cs in
    if c == b':' then some (60 * v + read_after 0 cs) else more

read_clock-digit :
    (d v w : ℕ) (text : List ℕ)
    → d < 10
    → 10 * v + d ≡ w
    → read_clock v ((b'0' + d) ∷ text) ≡ read_clock w text
read_clock-digit d v w text h is =
    let digit : (b'0' + d == b':') ≡ false = ground (arith, h) in
    rw digit (ap (λ k. read_clock k text) (omega (arith, is)))

digits_before-read_clock :
    (fuel n : ℕ) (text more : List ℕ)
    → n < fuel
    → read_clock 0 (digits_before fuel n text ++ more) ≡ read_clock n (text ++ more)
unfolding digits_before
digits_before-read_clock zero n text more h = absurd (omega arith)
digits_before-read_clock (suc fuel) n text more h = elim (Bool-cases (ltb n 10)) [
  | inl one ↦
      let small : n < 10 = omega (tests, one) in
      rw (one, digits_before) (read_clock-digit n 0 n (text ++ more) small (omega arith))
  | inr many ↦
      let smaller : n / 10 < fuel = ground (arith, many) in
      rw (many, digits_before)
        (digits_before-read_clock fuel (n / 10) ((b'0' + n % 10) ∷ text) more smaller
          ∙ read_clock-digit (n % 10) (n / 10) n (text ++ more) (omega arith) (omega arith))
]

digits_before-digit :
    (fuel n : ℕ) (text : List ℕ) → n < 10 → 0 < fuel → digits_before fuel n text ≡ (b'0' + n) ∷ text
unfolding digits_before
digits_before-digit zero n text h some_fuel = absurd (omega arith)
digits_before-digit (suc fuel) n text h some_fuel =
    let one : ltb n 10 ≡ true = ground (arith, h) in rw (one, digits_before) refl

two_digits :
    (n : ℕ) → ltb n 10 ≡ false → n < 60 → decimal n ≡ (b'0' + n / 10) ∷ (b'0' + n % 10) ∷ []
unfolding digits_before
two_digits n many h =
    let some_fuel : 0 < n = ground (arith, many) in
    rw (many, digits_before)
      (digits_before-digit n (n / 10) ((b'0' + n % 10) ∷ []) (omega (arith, h)) some_fuel)

padded : (n : ℕ) → n < 60 → pad_start 2 (decimal n) ≡ (b'0' + n / 10) ∷ (b'0' + n % 10) ∷ []
padded n h = elim (Bool-cases (ltb n 10)) [
  | inl one ↦
      let small : n < 10 = ground (arith, one) in
      let tens : b'0' ≡ b'0' + n / 10 = omega (arith, small) in
      let ones : b'0' + n ≡ b'0' + n % 10 = omega (arith, small) in
      rw (digits_before-digit (suc n) n [] small (omega arith)) (ap₂ (λ a b. a ∷ b ∷ []) tens ones)
  | inr many ↦ rw (two_digits n many h) refl
]

-- A number of seconds for a time in quarters of a millisecond: rounded to the nearest, and never negative.
abbrev pub IsRounded : ℤ → ℕ → Type 0
IsRounded (pos n) s = (4_000 * s ≤ n + 2_000) × (n + 2_000 < 4_000 * s + 4_000)
IsRounded (negsuc n) s = s ≡ 0

seconds-IsRounded : (v : ℤ) → IsRounded v (seconds v)
seconds-IsRounded (pos n) = (omega arith, omega arith)
seconds-IsRounded (negsuc n) = refl

-- A text for a number of seconds: the minutes, a colon, and two digits, which stand for less than a minute.
pub record IsClock (s : ℕ) (text : List ℕ) : Type 0 where
  pub tens : ℕ
  pub ones : ℕ
  pub written : text ≡ decimal (s / 60) ++ b':' ∷ (b'0' + tens) ∷ (b'0' + ones) ∷ []
  pub few_tens : tens < 6
  pub few_ones : ones < 10
  pub says : read_clock 0 text ≡ some s

-- The text of a clock is a number of minutes, a colon and two digits for less than a minute, and it reads
-- back as the time that it was made of, rounded to the nearest second and never negative.
pub clock-IsClock : (v : ℤ) → IsClock (seconds v) (clock v) × IsRounded v (seconds v)
unfolding clock
clock-IsClock v =
    let n = seconds v % 60 in
    let tail = (b'0' + n / 10) ∷ (b'0' + n % 10) ∷ [] in
    let text = ap (λ t. decimal (seconds v / 60) ++ b':' ∷ t) (padded n (omega arith)) in
    let colon : read_clock (seconds v / 60) (b':' ∷ tail) ≡ some (seconds v) =
      ap some (omega arith) in
    (
      record {
        tens = n / 10;
        ones = n % 10;
        written = text;
        few_tens = omega arith;
        few_ones = omega arith;
        says =
            ap (read_clock 0) text
            ∙ digits_before-read_clock (suc (seconds v / 60)) (seconds v / 60) [] (b':' ∷ tail)
                (omega arith)
            ∙ colon;
      },
      seconds-IsRounded v,
    )
