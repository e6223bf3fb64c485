-- ===== src/Simulated.antt =====
-- kalshi_arbitrage/execution/simulated_gateway.py, and the FeeModel of
-- kalshi_arbitrage/mock_execution.py that it charges with. What a float is as a decimal, and back,
-- is a parameter (`Decimal(str(x))` and `float(d)`), as are the fee client and the fresh order ids.
pub mod Fills
use kalshi.Common.{
  ℕ, zero, suc, Bool, true, false, Option, none, some, List, [], String, if◌then◌else◌,
}
use kalshi.Common.Int.{ℤ, pos, negsuc, leb_ℤ}
use kalshi.Float.{Float, min, max}
use kalshi.KillSwitch.{Venue, kalshi_venue, polymarket_venue}
use kalshi.Order.{
  OrderRequest, OrderOutcome, Seed, filled, ensure_client_order_id, bare_outcome, failed_outcome,
}
use kalshi.Engine.{Placement, returned, Gateway}
use kalshi.Fees.{Decimal, dec, zero_fee, kalshi_taker_fee, pm_fee_at}

-- FeeModel: the fee is a float again.
module _ {A : Type 0} (to_decimal : A → Decimal) (of_decimal : Decimal → A) where
  unfoldable pub model_kalshi_fee : A → A → A
  model_kalshi_fee price size =
      of_decimal (kalshi_taker_fee (to_decimal price) (to_decimal size) (dec 10 1))

  unfoldable pub model_polymarket_fee : A → A → ℤ → A
  model_polymarket_fee price size bps =
      if leb_ℤ bps (pos 0)
      then of_decimal zero_fee
      else of_decimal (pm_fee_at (to_decimal price) (to_decimal size) bps)

-- `rate or Config.POLYMARKET_ESTIMATED_FEE_RATE_BPS`
abbrev pub rate_or_estimate : Option ℤ → ℤ
rate_or_estimate none = pos 500
rate_or_estimate (some (pos zero)) = pos 500
rate_or_estimate (some (pos (suc n))) = pos (suc n)
rate_or_estimate (some (negsuc n)) = negsuc n

module _ {A G : Type 0} ⦃fl : Float A⦄ (to_decimal : A → Decimal) (of_decimal : Decimal → A)
    (coid_of : Seed A → String) (fee_rate : Option String → G → Option ℤ × G)
    (fresh : G → String) where
  open fl use {le, decimal}

  -- The fee of the venue, and what asking for the rate does.
  unfoldable pub fee_of : Venue → A → A → Option String → G → A × G
  fee_of kalshi_venue price size token g = (model_kalshi_fee to_decimal of_decimal price size, g)
  fee_of polymarket_venue price size token g =
      let (rate, g') = fee_rate token g in
      (model_polymarket_fee to_decimal of_decimal price size (rate_or_estimate rate), g')

  unfoldable pub fill_price : A → A
  fill_price limit = max (decimal 1 2) (min (decimal 99 2) limit)

  unfoldable pub simulated_place : Venue → OrderRequest A → G → Placement A × G
  unfolding fill_price
  simulated_place venue req g =
      let coid = (ensure_client_order_id coid_of [] req).client_order_id in
      let price = fill_price req.limit_price in
      let (fee, g') = fee_of venue price req.size req.token_id g in
      if le req.size (decimal 0 1)
      then (returned (failed_outcome venue req.size "non_positive_size" coid), g)
      else (
        returned (record (bare_outcome venue filled req.size) {
          filled_size = req.size;
          avg_price = price;
          fees = fee;
          order_id = some (fresh g');
          client_order_id = coid;
        }),
        g',
      )

  -- `SimulatedGateway(venue)`
  unfoldable pub simulated_gateway : Venue → Gateway A G
  simulated_gateway venue = record {
    place = simulated_place venue;
    cancel = λ order_id g. (true, g);
  }
