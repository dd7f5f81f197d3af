-- ===== src/Derive/Format.antt =====
-- `fmtPrice` of web/src/derive.ts, as the number that its text shows. A price counts units of a millionth of a cent.
use market_sandbox.Prelude.{
  ℕ, suc, ◌+◌, ◌*◌, ◌/◌, ◌≡◌, ℤ, pos, negsuc, ◌+ℤ◌, ◌-ℤ◌, ◌*ℤ◌, ◌≤ℤ◌, ◌<ℤ◌, int_laws, *ℤ_parts,
}

-- The last place that `toFixed(2)` shows.
abbrev pub cent : ℕ
cent = 1_000_000

-- The nearest number of cents; half a cent goes up.
abbrev pub cents_of : ℕ → ℕ
cents_of n = (2 * n + cent) / (2 * cent)

-- `fmtPrice`: `toFixed` treats a negative number as its opposite.
unfoldable pub fmt_price : ℤ → ℤ
fmt_price (pos n) = pos (cents_of n * cent)
fmt_price (negsuc n) = pos 0 -ℤ pos (cents_of (suc n) * cent)

-- A whole number of cents, at most half a cent away.
pub record IsNearestCent (v shown : ℤ) : Type 0 where
  pub cents : ℤ
  pub whole : shown ≡ cents *ℤ pos cent
  pub not_below : v +ℤ v ≤ℤ shown +ℤ shown +ℤ pos cent
  pub not_above : shown +ℤ shown ≤ℤ v +ℤ v +ℤ pos cent

pub fmt_price-IsNearestCent : (v : ℤ) → IsNearestCent v (fmt_price v)
unfolding fmt_price
fmt_price-IsNearestCent (pos n) = record {
  cents = pos (cents_of n);
  whole = omega (int_laws, *ℤ_parts (pos (cents_of n)) (pos cent));
  not_below = omega int_laws;
  not_above = omega int_laws;
}
fmt_price-IsNearestCent (negsuc n) = record {
  cents = pos 0 -ℤ pos (cents_of (suc n));
  whole = omega (int_laws, *ℤ_parts (pos 0 -ℤ pos (cents_of (suc n))) (pos cent));
  not_below = omega int_laws;
  not_above = omega int_laws;
}

-- From half a cent on, what is shown is positive.
pub fmt_price_positive : (v : ℤ) → pos cent ≤ℤ v +ℤ v → pos 0 <ℤ fmt_price v
unfolding fmt_price
fmt_price_positive (pos n) h = omega (int_laws, h)
fmt_price_positive (negsuc n) h = absurd (omega (int_laws, h))
