-- ===== src/Float/Fixed.antt =====
-- Fixed-point numbers: an integer counts units of 10 ^ -12. They satisfy what is asked of floats,
-- and every concrete run of the model is over them.
use native.Mathlib.Nat.{mul-lt-mul_of_pos_right, pow-suc, le-div_iff_mul-le}
use kalshi.Common.{
  ℕ, zero, suc, ◌+◌, ◌*◌, ◌/◌, ◌-◌, ◌^◌, ◌≤◌, ◌<◌, ◌≡◌, true, arith, leb, ◌==◌, if◌then◌else◌, not,
}
use kalshi.Common.Int.{ℤ, pos, negsuc, pos_part, neg_part, sub_ℕ, ◌+ℤ◌, ◌-ℤ◌, ltb_ℤ, leb_ℤ}
use kalshi.Float.{Float, FloatOrder, FloatArith}

abbrev unit : ℕ
unit = 1_000_000_000_000

abbrev magnitude : ℤ → ℕ
magnitude a = pos_part a + neg_part a

-- The sign of a product or a quotient, with its magnitude rounded down.
abbrev signed : ℤ → ℤ → ℕ → ℤ
signed a b n =
    if not (ltb_ℤ a (pos 0))
    then (if not (ltb_ℤ b (pos 0)) then pos n else sub_ℕ 0 n)
    else if ltb_ℤ b (pos 0)
    then pos n
    else sub_ℕ 0 n

abbrev decimal_of : ℕ → ℕ → ℤ
decimal_of m e = if leb e 12 then pos (m * 10 ^ (12 - e)) else pos (m / 10 ^ (e - 12))

abbrev floor_of : ℤ → ℤ
floor_of (pos n) = pos (n / unit * unit)
floor_of (negsuc n) = sub_ℕ 0 ((n + unit) / unit * unit)

instance abbrev pub fixed : Float ℤ
fixed = record {
  add = ◌+ℤ◌;
  sub = ◌-ℤ◌;
  mul = λ a b. signed a b (magnitude a * magnitude b / unit);
  div = λ a b. signed a b (magnitude a * unit / magnitude b);
  abs = λ a. pos (magnitude a);
  floor = floor_of;
  lt = ltb_ℤ;
  le = leb_ℤ;
  is_zero = λ a. magnitude a == 0;
  of_nat = λ n. pos (n * unit);
  ratio = λ a b. pos (a * unit / b);
  decimal = decimal_of;
}

pow_pos : (n : ℕ) → 0 < 10 ^ n
pow_pos zero = omega arith
pow_pos (suc n) = rw pow-suc (omega (arith, pow_pos n))

lt-decimal_fixed : (m n e : ℕ) → m < n → e ≤ 12 → ltb_ℤ (decimal_of m e) (decimal_of n e) ≡ true
lt-decimal_fixed m n e h k = ground (arith, mul-lt-mul_of_pos_right h (pow_pos (12 - e)))

le_refl-decimal : (m e : ℕ) → leb_ℤ (decimal_of m e) (decimal_of m e) ≡ true
le_refl-decimal m e = ground arith

pub fixed-FloatOrder : FloatOrder fixed
fixed-FloatOrder = record {
  le_of_lt = λ a b h. ground arith;
  not_le_of_lt = λ a b h. ground arith;
  le_of_not_lt = λ a b p q h. ground arith;
  le_refl_left = λ a b h. ground arith;
  le_refl_right = λ a b h. ground arith;
  lt_of_lt_of_le = λ a b c h k. ground arith;
  lt_of_le_of_lt = λ a b c h k. ground arith;
  le_trans = λ a b c h k. ground arith;
  le-decimal = le_refl-decimal;
  lt-decimal = λ m n e h _ k. lt-decimal_fixed m n e h k;
}

one-le-ratio_fixed : (m n : ℕ) → 0 < m → m ≤ n → unit ≤ n * unit / m
one-le-ratio_fixed m n p h = (le-div_iff_mul-le p).1 (omega arith)

pub fixed-FloatArith : FloatArith fixed
fixed-FloatArith = record {
  sub_mono = λ s t n h. ground arith;
  one-le-ratio = λ m n p h. ground (arith, one-le-ratio_fixed m n p h);
}
