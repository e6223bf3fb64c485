-- ===== src/Float.antt =====
-- Python's `float` as the code uses it: an interface. The execution stack computes prices, sizes,
-- fees and clock readings in floats, whose arithmetic is the interpreter's and not this code's.
-- `Float A` holds the operations; `FloatOrder` what IEEE 754 says of the comparisons, NaN included.
-- The child `Fixed` meets both with fixed-point numbers of twelve decimals.
pub mod Fixed
use kalshi.Common.{ℕ, ◌≤◌, ◌<◌, ◌^◌, ◌≡◌, Bool, true, false, if◌then◌else◌}

pub record Float (A : Type 0) : Type 0 where
  pub add : A → A → A
  pub sub : A → A → A
  pub mul : A → A → A
  pub div : A → A → A
  pub abs : A → A
  pub floor : A → A  -- `float(math.floor(x))`
  pub lt : A → A → Bool
  pub le : A → A → Bool
  pub is_zero : A → Bool  -- `not x`
  pub of_nat : ℕ → A  -- an int among floats
  pub ratio : ℕ → ℕ → A  -- `a / b` of two ints
  pub decimal : ℕ → ℕ → A  -- the literal `m * 10 ** -e`

module _ {A : Type 0} ⦃fl : Float A⦄ where
  -- `min(a, b)` and `max(a, b)` keep the first argument unless the second is strictly beyond it.
  abbrev pub min : A → A → A
  min a b = if fl.lt b a then b else a

  abbrev pub max : A → A → A
  max a b = if fl.lt a b then b else a

-- What holds of IEEE comparisons for all values. `x ≤ x` fails at NaN alone.
pub record FloatOrder {A : Type 0} (fl : Float A) : Type 0 where
  pub le_of_lt : (a b : A) → fl.lt a b ≡ true → fl.le a b ≡ true
  pub not_le_of_lt : (a b : A) → fl.lt a b ≡ true → fl.le b a ≡ false
  pub le_of_not_lt :
      (a b : A) → fl.le a a ≡ true → fl.le b b ≡ true → fl.lt a b ≡ false → fl.le b a ≡ true
  pub le_refl_left : (a b : A) → fl.le a b ≡ true → fl.le a a ≡ true
  pub le_refl_right : (a b : A) → fl.le a b ≡ true → fl.le b b ≡ true
  pub lt_of_lt_of_le : (a b c : A) → fl.lt a b ≡ true → fl.le b c ≡ true → fl.lt a c ≡ true
  pub lt_of_le_of_lt : (a b c : A) → fl.le a b ≡ true → fl.lt b c ≡ true → fl.lt a c ≡ true
  pub le_trans : (a b c : A) → fl.le a b ≡ true → fl.le b c ≡ true → fl.le a c ≡ true
  pub le-decimal : (m e : ℕ) → fl.le (fl.decimal m e) (fl.decimal m e) ≡ true
  -- Literals of at most fifteen digits keep their order.
  pub lt-decimal :
      (m n e : ℕ) → m < n → n ≤ 10 ^ 15 → e ≤ 12 → fl.lt (fl.decimal m e) (fl.decimal n e) ≡ true

-- What holds of the rounded arithmetic: subtracting the same int keeps the order, and the quotient
-- of two ints, the divisor positive and no larger, is at least 1.
pub record FloatArith {A : Type 0} (fl : Float A) : Type 0 where
  pub sub_mono :
      (s t : A) (n : ℕ)
      → fl.le s t ≡ true
      → fl.le (fl.sub s (fl.of_nat n)) (fl.sub t (fl.of_nat n)) ≡ true
  pub one-le-ratio : (m n : ℕ) → 0 < m → m ≤ n → fl.le (fl.of_nat 1) (fl.ratio n m) ≡ true
