-- ===== src/Tests/Venues.antt =====
-- Concrete runs of the fee schedules and the simulated gateway.
use kalshi.Common.{
  List, [], ◌∷◌, ℕ, ◌+◌, ◌*◌, ◌^◌, ◌≡◌, ◌≤◌, ◌<◌, ◌↔◌, ◌⊎◌, none, some, String, arith,
}
use kalshi.Common.Int.{ℤ, pos}
use kalshi.Float.Fixed.{fixed}
use kalshi.Fees.{Decimal, dec, kalshi_taker_fee, pm_taker_fee}
use kalshi.Fees.Kalshi.{kalshi_taker_fee_covers}
use kalshi.Fees.Polymarket.{raw_fee, pm_taker_fee_near}
use kalshi.MockFills.{Level}
use kalshi.Tests.Data.{whole, cents}

kalshi_taker_fee_covers_example :
    (n : ℕ) × (kalshi_taker_fee (dec 4 1) (dec 12 0) (dec 10 1) ≡ dec n 2)
    × (7 * 10 * 12 * 4 * 6 * 100 ≤ n * 10 ^ 5)
    × (n * 10 ^ 5 < 7 * 10 * 12 * 4 * 6 * 100 + 10 ^ 5)
kalshi_taker_fee_covers_example = kalshi_taker_fee_covers 10 1 0 4 1 (omega arith) 12

pm_taker_fee_near_example :
    (fee : ℕ) × (pm_taker_fee (dec 4 1) (dec 12 0) (some (pos 500)) none ≡ some (dec fee 5))
    × ((fee ≡ 0) ↔ (raw_fee 500 12 4 1 ≡ 0))
    × (((fee ≡ 1) × (raw_fee 500 12 4 1 * 10 ^ 5 ≤ 10 ^ 6))
        ⊎ ((2 * (raw_fee 500 12 4 1 * 10 ^ 5) ≤ 2 * (fee * 10 ^ 6) + 10 ^ 6)
            × (2 * (fee * 10 ^ 6) ≤ 2 * (raw_fee 500 12 4 1 * 10 ^ 5) + 10 ^ 6)))
pm_taker_fee_near_example = pm_taker_fee_near 499 12 0 4 1 (omega arith) none

-- The fixed-point numbers as decimals of twelve places.
abbrev to_decimal : ℤ → Decimal
to_decimal x = record { mantissa = x; scale = 12 }

-- A fee of at most twelve places as a fixed-point number.
abbrev of_decimal : Decimal → ℤ
of_decimal d = fixed.mul d.mantissa (fixed.decimal (10 ^ 12) d.scale)

abbrev fresh : ℕ → String
fresh g = "sim-1"

-- An ask of five at 0.40 and one of seven at 0.42, for a target of ten.
abbrev asks : List (Level ℤ)
asks =
    record { price = cents 42; size = whole 7 } ∷ record { price = cents 40; size = whole 5 } ∷ []
