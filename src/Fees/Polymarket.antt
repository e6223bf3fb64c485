-- ===== src/Fees/Polymarket.antt =====
-- venue_fees.py: Polymarket's taker fee on prices from 0 to 1, at a rate of `suc bps` basis points. The
-- price is `m * 10 ** -sp` and the size `n * 10 ** -sc`.
use kalshi.Common.{
  ℕ, suc, ◌+◌, ◌-◌, ◌*◌, ◌^◌, ◌≤◌, ◌<◌, ◌≡◌, ◌⊎◌, ◌↔◌, refl, arith, ltb, zero, ◌&&◌, if◌then◌else◌,
  ap, some, Option,
}
use kalshi.Common.Int.{pos}
use kalshi.Fees.{dec, div_half_up, quantize, pm_fee_at, pm_taker_fee, Category}
use kalshi.Fees.Rounding.{pow-pos, sub_ℕ-pos, div_half_up-near}

-- The exact fee in units of `10 ^ -(sc + 4 + sp + sp)`.
abbrev pub raw_fee : ℕ → ℕ → ℕ → ℕ → ℕ
raw_fee bps n m sp = n * bps * m * (10 ^ sp - m)

-- The choice of the least charge, on numbers: nothing to pay, less than half a unit, or the rounded.
abbrev charged : ℕ → ℕ → ℕ
charged raw q = if ltb 0 raw && ltb q 1 then 1 else q

charged-near :
    (raw a unit q : ℕ)
    → 0 < unit
    → a ≡ raw * 10 ^ 5
    → 2 * a ≤ 2 * (q * unit) + unit
    → 2 * (q * unit) ≤ 2 * a + unit
    → ((charged raw q ≡ 0) ↔ (raw ≡ 0))
      × (((charged raw q ≡ 1) × (a ≤ unit))
          ⊎ ((2 * a ≤ 2 * (charged raw q * unit) + unit)
              × (2 * (charged raw q * unit) ≤ 2 * a + unit)))
charged-near raw a unit zero p e low high = ((λ h. ground arith, λ h. ground arith), ground arith)
charged-near raw a unit (suc q) p e low high = ((λ h. ground arith, λ h. grind arith), ground arith)

module _ (bps n sc m sp : ℕ) (price : m ≤ 10 ^ sp) where
  -- The rounded fee before the least charge.
  rounded : ℕ
  rounded = div_half_up (raw_fee (suc bps) n m sp * 10 ^ 5) (10 ^ (sc + 4 + sp + sp))

  pm_fee_at-value :
      pm_fee_at (dec m sp) (dec n sc) (pos (suc bps))
      ≡ dec (charged (raw_fee (suc bps) n m sp) rounded) 5
  unfolding pm_fee_at quantize rounded
  pm_fee_at-value = rw (sub_ℕ-pos (10 ^ sp) m price) (ground arith)

  pub pm_taker_fee_near :
      (category : Option (Option Category))
      → let raw = raw_fee (suc bps) n m sp in
        let unit = 10 ^ (sc + 4 + sp + sp) in
        (fee : ℕ) × (pm_taker_fee (dec m sp) (dec n sc) (some (pos (suc bps))) category
          ≡ some (dec fee 5))
        × ((fee ≡ 0) ↔ (raw ≡ 0))
        × (((fee ≡ 1) × (raw * 10 ^ 5 ≤ unit))
            ⊎ ((2 * (raw * 10 ^ 5) ≤ 2 * (fee * unit) + unit)
                × (2 * (fee * unit) ≤ 2 * (raw * 10 ^ 5) + unit)))
  unfolding pm_taker_fee rounded
  pm_taker_fee_near category =
      let raw = raw_fee (suc bps) n m sp in
      let unit = 10 ^ (sc + 4 + sp + sp) in
      let p = pow-pos (sc + 4 + sp + sp) in
      let (low, high) = div_half_up-near (raw * 10 ^ 5) unit p in
      let (zero_iff, near) = charged-near raw (raw * 10 ^ 5) unit rounded p refl low high in
      (charged raw rounded, ap some pm_fee_at-value, zero_iff, near)
