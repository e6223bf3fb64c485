-- ===== src/Fees/Rounding.antt =====
-- Division rounded up or to the nearest, as the fee schedules of venue_fees.py round.
use native.Mathlib.Nat.{div-lt_iff_lt-mul, div-add-mod, mod-lt}
use kalshi.Common.{ℕ, zero, suc, ◌+◌, ◌-◌, ◌*◌, ◌^◌, ◌≤◌, ◌<◌, ◌≡◌, arith}
use kalshi.Common.{refl, le→leb}
use kalshi.Common.Int.{pos, sub_ℕ}
use kalshi.Fees.{div_up, div_half_up}

-- A quotient rounded up is the least bound.
pub div_up-le : (a b q : ℕ) → 0 < b → a ≤ q * b → div_up a b ≤ q
div_up-le a b q p h =
    let below = (div-lt_iff_lt-mul {k = b} {x = a + (b - 1)} {y = q + 1} p).1 in
    omega (arith, below (ground (arith, h, p)))

pub le-div_up : (a b : ℕ) → 0 < b → a ≤ div_up a b * b
le-div_up a b p = let x = a + (b - 1) in omega (arith, div-add-mod x b, mod-lt x p)

pub div_up-lt : (a b : ℕ) → 0 < b → div_up a b * b < a + b
div_up-lt a b p = let x = a + (b - 1) in omega (arith, div-add-mod x b, mod-lt x p)

pub pow-pos : (s : ℕ) → 0 < 10 ^ s
pow-pos zero = omega arith
pow-pos (suc s) = omega (arith, pow-pos s)

-- A rounded quotient is within a half of the quotient.
pub div_half_up-near :
    (a b : ℕ)
    → 0 < b
    → (2 * a ≤ 2 * (div_half_up a b * b) + b) × (2 * (div_half_up a b * b) ≤ 2 * a + b)
div_half_up-near a b p =
    let x = 2 * a + b in
    let exact = div-add-mod x (2 * b) in
    let small = mod-lt x {m = 2 * b} (omega (arith, p)) in
    (grind (arith, exact, small), grind (arith, exact, small))

pub sub_ℕ-pos : (a b : ℕ) → b ≤ a → sub_ℕ a b ≡ pos (a - b)
sub_ℕ-pos a b h = rw (le→leb b a h) refl
