-- ===== src/Fees.antt =====
-- venue_fees.py: the fee schedules of the venues. The amounts are decimals, exact as in Python's
-- `Decimal` up to its 28 digits; a price or size is the decimal that `Decimal(str(x))` makes of the
-- float, and a fee the decimal before `float(fee)`.
pub mod Rounding
pub mod Kalshi
pub mod Polymarket
use text.Mathlib.Text.{◌==◌ as str_eq}
use kalshi.Common.{
  String, ℕ, suc, ◌+◌, ◌-◌, ◌*◌, ◌/◌, ◌^◌, Bool, true, false, ◌&&◌, Option, none, some, ltb, leb,
  if◌then◌else◌,
}
use kalshi.Common.Int.{ℤ, pos, negsuc, sub_ℕ, ◌+ℤ◌, ltb_ℤ, leb_ℤ}
use kalshi.KillSwitch.{Venue, kalshi_venue, polymarket_venue}

-- `mantissa * 10 ** -scale`
pub record Decimal : Type 0 where
  pub mantissa : ℤ
  pub scale : ℕ

-- A decimal that is not negative.
abbrev pub dec : ℕ → ℕ → Decimal
dec m s = record { mantissa = pos m; scale = s }

abbrev pub neg : ℕ → ℤ
neg n = sub_ℕ 0 n

abbrev pub mul_ℤ : ℤ → ℤ → ℤ
mul_ℤ (pos a) (pos b) = pos (a * b)
mul_ℤ (pos a) (negsuc b) = neg (a * suc b)
mul_ℤ (negsuc a) (pos b) = neg (suc a * b)
mul_ℤ (negsuc a) (negsuc b) = pos (suc a * suc b)

abbrev pub mul : Decimal → Decimal → Decimal
mul x y = record { mantissa = mul_ℤ x.mantissa y.mantissa; scale = x.scale + y.scale }

abbrev pub add : Decimal → Decimal → Decimal
add x y = record {
  mantissa = mul_ℤ x.mantissa (pos (10 ^ y.scale)) +ℤ mul_ℤ y.mantissa (pos (10 ^ x.scale));
  scale = x.scale + y.scale;
}

-- `Decimal("1") - x`
abbrev pub complement_of : ℤ → ℕ → ℤ
complement_of (pos m) s = sub_ℕ (10 ^ s) m
complement_of (negsuc m) s = pos (10 ^ s + suc m)

abbrev pub one_minus : Decimal → Decimal
one_minus x = record { mantissa = complement_of x.mantissa x.scale; scale = x.scale }

-- The quotient rounded up, and rounded to the nearest with a half rounded up.
abbrev pub div_up : ℕ → ℕ → ℕ
div_up a b = (a + (b - 1)) / b

abbrev pub div_half_up : ℕ → ℕ → ℕ
div_half_up a b = (2 * a + b) / (2 * b)

-- Rounding to `places` digits by the given rule on the absolute value.
unfoldable pub quantize : (ℕ → ℕ → ℕ) → ℕ → ℤ → ℕ → Decimal
quantize rule places (pos m) s = dec (rule (m * 10 ^ places) (10 ^ s)) places
quantize rule places (negsuc m) s = record {
  mantissa = neg (rule (suc m * 10 ^ places) (10 ^ s));
  scale = places;
}

abbrev pub zero_fee : Decimal
zero_fee = dec 0 0

-- KALSHI_TAKER_FACTOR and KALSHI_MAKER_FACTOR
abbrev pub kalshi_taker_factor : Decimal
kalshi_taker_factor = dec 7 2

abbrev pub kalshi_maker_factor : Decimal
kalshi_maker_factor = dec 175 4

pub data FeeType : Type 0 where
  quadratic quadratic_with_maker_fees : FeeType

-- KALSHI_SERIES_FEE_SNAPSHOT and its default, for a ticker that is in upper case already.
abbrev pub kalshi_series_fee_params : String → FeeType × Decimal
kalshi_series_fee_params ticker =
    if str_eq ticker "KXNBA"
    then (quadratic_with_maker_fees, dec 10 1)
    else if str_eq ticker "KXNBASERIES"
    then (quadratic_with_maker_fees, dec 10 1)
    else if str_eq ticker "KXBTCD"
    then (quadratic, dec 10 1)
    else if str_eq ticker "KXETHD"
    then (quadratic, dec 10 1)
    else if str_eq ticker "KXHIGHNY"
    then (quadratic, dec 10 1)
    else if str_eq ticker "KXINX"
    then (quadratic, dec 5 1)
    else (quadratic_with_maker_fees, dec 10 1)

unfoldable pub kalshi_quadratic : Decimal → Decimal → Decimal → Decimal → Decimal
kalshi_quadratic p c factor fee_multiplier =
    let raw = mul (mul (mul (mul factor fee_multiplier) c) p) (one_minus p) in
    quantize div_up 2 raw.mantissa raw.scale

unfoldable pub kalshi_taker_fee : Decimal → Decimal → Decimal → Decimal
unfolding kalshi_quadratic
kalshi_taker_fee p c fee_multiplier = kalshi_quadratic p c kalshi_taker_factor fee_multiplier

unfoldable pub kalshi_maker_fee : Decimal → Decimal → FeeType → Decimal → Decimal
unfolding kalshi_quadratic
kalshi_maker_fee p c quadratic fee_multiplier = zero_fee
kalshi_maker_fee p c quadratic_with_maker_fees fee_multiplier =
    kalshi_quadratic p c kalshi_maker_factor fee_multiplier

-- The keys of PM_CATEGORY_FEE_RATE_BPS.
pub data Category : Type 0 where
  geopolitics sports politics finance tech mentions : Category
  economics culture weather other crypto : Category

abbrev pub pm_category_fee_rate_bps : Category → ℕ
pm_category_fee_rate_bps geopolitics = 0
pm_category_fee_rate_bps sports = 300
pm_category_fee_rate_bps politics = 400
pm_category_fee_rate_bps finance = 400
pm_category_fee_rate_bps tech = 400
pm_category_fee_rate_bps mentions = 400
pm_category_fee_rate_bps economics = 500
pm_category_fee_rate_bps culture = 500
pm_category_fee_rate_bps weather = 500
pm_category_fee_rate_bps other = 500
pm_category_fee_rate_bps crypto = 700

-- The rate: the explicit one, or the category's, or the default. A category is `none` inside if the
-- table has no such key; then a `ValueError` is raised, which is `none` as a result.
unfoldable pub pm_rate : Option ℤ → Option (Option Category) → Option ℤ
pm_rate (some bps) category = some bps
pm_rate none none = some (pos 500)
pm_rate none (some none) = none
pm_rate none (some (some c)) = some (pos (pm_category_fee_rate_bps c))

-- The fee at a rate in basis points.
unfoldable pub pm_fee_at : Decimal → Decimal → ℤ → Decimal
unfolding quantize
pm_fee_at p c bps =
    let raw = mul (mul (mul c (record { mantissa = bps; scale = 4 })) p) (one_minus p) in
    let fee = quantize div_half_up 5 raw.mantissa raw.scale in
    if leb_ℤ bps (pos 0)
    then zero_fee
    else if ltb_ℤ (pos 0) raw.mantissa && ltb_ℤ fee.mantissa (pos 1)
    then dec 1 5
    else fee

unfoldable pub pm_taker_fee :
    Decimal → Decimal → Option ℤ → Option (Option Category) → Option Decimal
unfolding pm_rate pm_fee_at
pm_taker_fee p c fee_rate_bps category = elim (pm_rate fee_rate_bps category) [
  | none ↦ none
  | some bps ↦ some (pm_fee_at p c bps)
]

-- The retired schedule: a curve at 1000/4000 and a flat 0.02 of the notional.
unfoldable pub legacy_pm_taker_fee : Decimal → Decimal → Decimal
unfolding quantize
legacy_pm_taker_fee p c =
    let trade_value = mul p c in
    let spread = mul p (one_minus p) in
    let curve = mul (mul trade_value (dec 25 2)) (mul spread spread) in
    let total = add curve (mul trade_value (dec 2 2)) in
    quantize div_half_up 4 total.mantissa total.scale

-- The dispatchers; an unknown venue raises a `ValueError`.
unfoldable pub taker_fee :
    Option Venue
    → Decimal
    → Decimal
    → Option (Option Category)
    → Option ℤ
    → Decimal
    → Bool
    → Option Decimal
taker_fee none p c category bps fee_multiplier legacy = none
taker_fee (some kalshi_venue) p c category bps fee_multiplier legacy =
    some (kalshi_taker_fee p c fee_multiplier)
taker_fee (some polymarket_venue) p c category bps fee_multiplier legacy =
    if legacy then some (legacy_pm_taker_fee p c) else pm_taker_fee p c bps category

unfoldable pub maker_fee :
    Option Venue → Decimal → Decimal → Option FeeType → Decimal → Option Decimal
maker_fee none p c fee_type fee_multiplier = none
maker_fee (some kalshi_venue) p c none fee_multiplier =
    some (kalshi_maker_fee p c quadratic_with_maker_fees fee_multiplier)
maker_fee (some kalshi_venue) p c (some t) fee_multiplier =
    some (kalshi_maker_fee p c t fee_multiplier)
maker_fee (some polymarket_venue) p c fee_type fee_multiplier = some zero_fee
