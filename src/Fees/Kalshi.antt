-- ===== src/Fees/Kalshi.antt =====
-- venue_fees.py: Kalshi's quadratic fee on prices from 0 to 1. The price is `m * 10 ** -sp`, the size
-- `n * 10 ** -sc` and the series' multiplier `k * 10 ** -sk`.
use kalshi.Common.{
  ℕ, suc, ◌+◌, ◌-◌, ◌*◌, ◌^◌, ◌≤◌, ◌<◌, ◌≡◌, ◌∙◌, refl, sym, ap, subst, arith, le→leb,
}
use kalshi.Common.Int.{pos, sub_ℕ}
use kalshi.Fees.{
  dec, one_minus, div_up, quantize, kalshi_quadratic, kalshi_taker_fee, kalshi_maker_fee,
  quadratic_with_maker_fees,
}
use kalshi.Fees.Rounding.{div_up-le, le-div_up, div_up-lt, pow-pos}

-- The exact fee in units of `10 ^ -(sf + sk + sc + sp + sp)`, for the factor `f * 10 ** -sf`.
abbrev pub raw_fee : ℕ → ℕ → ℕ → ℕ → ℕ → ℕ
raw_fee f k n m sp = f * k * n * m * (10 ^ sp - m)

sub_ℕ-pos : (a b : ℕ) → b ≤ a → sub_ℕ a b ≡ pos (a - b)
sub_ℕ-pos a b h = rw (le→leb b a h) refl

module _ (f sf k sk n sc m sp : ℕ) (price : m ≤ 10 ^ sp) where
  kalshi_quadratic-value :
      kalshi_quadratic (dec m sp) (dec n sc) (dec f sf) (dec k sk)
      ≡ dec (div_up (raw_fee f k n m sp * 10 ^ 2) (10 ^ (sf + sk + sc + sp + sp))) 2
  unfolding kalshi_quadratic quantize
  kalshi_quadratic-value = rw (sub_ℕ-pos (10 ^ sp) m price) refl

-- A quarter of a fee, in units that are a hundredth.
quarter :
    (x y z r unit t : ℕ)
    → 7 * x * y * z * r * 100 ≤ t * unit
    → 175 * x * y * z * r * 10 ^ 2 ≤ t * (100 * unit)
quarter x y z r unit t h = grind arith

pow_step : (s : ℕ) → 10 ^ suc s ≡ 10 * 10 ^ s
pow_step s = omega arith

hundredth : (s t : ℕ) → t ≡ suc (suc s) → 10 ^ t ≡ 100 * 10 ^ s
hundredth s t e = rw e (omega (arith, pow_step s, pow_step (suc s)))

swap_factors : (x y z r : ℕ) → 7 * x * y * z * r ≡ 7 * x * y * r * z
swap_factors x y z r = grind arith

module _ (k sk sc m sp : ℕ) (price : m ≤ 10 ^ sp) where
  pub kalshi_taker_fee_covers :
      (n : ℕ)
      → (cents : ℕ) × (kalshi_taker_fee (dec m sp) (dec n sc) (dec k sk) ≡ dec cents 2)
        × (raw_fee 7 k n m sp * 100 ≤ cents * 10 ^ (2 + sk + sc + sp + sp))
        × (cents * 10 ^ (2 + sk + sc + sp + sp)
            < raw_fee 7 k n m sp * 100 + 10 ^ (2 + sk + sc + sp + sp))
  unfolding kalshi_taker_fee
  kalshi_taker_fee_covers n =
      let unit = 10 ^ (2 + sk + sc + sp + sp) in
      let some_cents = div_up (raw_fee 7 k n m sp * 100) unit in
      let p = pow-pos (2 + sk + sc + sp + sp) in
      (
        some_cents,
        kalshi_quadratic-value 7 2 k sk n sc m sp price,
        le-div_up _ unit p,
        div_up-lt _ unit p,
      )

  -- One order for two sizes is charged at most what the two orders are charged.
  pub kalshi_taker_fee_batches :
      (n n' : ℕ)
      → (both first second : ℕ) × (kalshi_taker_fee (dec m sp) (dec (n + n') sc) (dec k sk)
          ≡ dec both 2)
        × (kalshi_taker_fee (dec m sp) (dec n sc) (dec k sk) ≡ dec first 2)
        × (kalshi_taker_fee (dec m sp) (dec n' sc) (dec k sk) ≡ dec second 2)
        × (both ≤ first + second)
  unfolding kalshi_taker_fee
  kalshi_taker_fee_batches n n' =
      let unit = 10 ^ (2 + sk + sc + sp + sp) in
      let p = pow-pos (2 + sk + sc + sp + sp) in
      let value = λ (x : ℕ). kalshi_quadratic-value 7 2 k sk x sc m sp price in
      let cents = λ (x : ℕ). div_up (raw_fee 7 k x m sp * 100) unit in
      (
        cents (n + n'),
        cents n,
        cents n',
        value (n + n'),
        value n,
        value n',
        div_up-le _ unit (cents n + cents n') p (
            omega (
              arith,
              le-div_up (raw_fee 7 k n m sp * 100) unit p,
              le-div_up (raw_fee 7 k n' m sp * 100) unit p,
            )),
      )

  -- A price and its complement are charged the same.
  pub kalshi_taker_fee_symmetric :
      (n : ℕ)
      → kalshi_taker_fee (dec m sp) (dec n sc) (dec k sk)
        ≡ kalshi_taker_fee (one_minus (dec m sp)) (dec n sc) (dec k sk)
  unfolding kalshi_taker_fee
  kalshi_taker_fee_symmetric n =
      let other = 10 ^ sp - m in
      let unit = 10 ^ (2 + sk + sc + sp + sp) in
      let complement : one_minus (dec m sp) ≡ dec other sp =
        ap (λ z. record { mantissa = z; scale = sp }) (sub_ℕ-pos (10 ^ sp) m price) in
      let same : raw_fee 7 k n m sp ≡ raw_fee 7 k n other sp =
        swap_factors k n m other ∙ ap (λ z. 7 * k * n * other * z) (omega (arith, price)) in
      kalshi_quadratic-value 7 2 k sk n sc m sp price
      ∙ ap (λ z. dec (div_up (z * 10 ^ 2) unit) 2) same
      ∙ sym (
          ap (λ p. kalshi_taker_fee p (dec n sc) (dec k sk)) complement
          ∙ kalshi_quadratic-value 7 2 k sk n sc other sp (omega arith))

  -- The maker fee, where it is charged at all, is at most the taker fee.
  pub kalshi_maker_fee-le :
      (n : ℕ)
      → (maker taker : ℕ) × (kalshi_maker_fee
            (dec m sp)
            (dec n sc)
            quadratic_with_maker_fees
            (dec k sk)
          ≡ dec maker 2)
        × (kalshi_taker_fee (dec m sp) (dec n sc) (dec k sk) ≡ dec taker 2)
        × (maker ≤ taker)
  unfolding kalshi_maker_fee kalshi_taker_fee
  kalshi_maker_fee-le n =
      let s = 2 + sk + sc + sp + sp in
      let t = 4 + sk + sc + sp + sp in
      let taker = div_up (raw_fee 7 k n m sp * 100) (10 ^ s) in
      let enough =
        quarter k n m (10 ^ sp - m) (10 ^ s) taker
          (le-div_up (raw_fee 7 k n m sp * 100) (10 ^ s) (pow-pos s)) in
      let maker_enough : raw_fee 175 k n m sp * 10 ^ 2 ≤ taker * 10 ^ t =
        subst (λ u. raw_fee 175 k n m sp * 10 ^ 2 ≤ taker * u) (sym (hundredth s t (omega arith)))
          enough in
      (
        _,
        taker,
        kalshi_quadratic-value 175 4 k sk n sc m sp price,
        kalshi_quadratic-value 7 2 k sk n sc m sp price,
        div_up-le _ (10 ^ t) taker (pow-pos t) maker_enough,
      )
