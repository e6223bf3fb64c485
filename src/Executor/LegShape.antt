-- ===== src/Executor/LegShape.antt =====
-- kalshi_arbitrage/arbitrage_executor.py: what `_build_legs` returns.
use kalshi.Common.{◌≡◌, ◌≢◌, ◌⊎◌, false, some, arith}
use kalshi.Float.{Float}
use kalshi.Config.{Config}
use kalshi.KillSwitch.{Venue, kalshi_venue}
use kalshi.Order.{buy, sell, OrderRequest}
use kalshi.Executor.{Opportunity, complementary}
use kalshi.Executor.Gates.{capped_volume, buy_price}
use kalshi.Executor.Legs.{build_legs}

module _ {A B : Type 0} where
  -- The venue's price in the opportunity.
  abbrev pub price_on : Opportunity A B → Venue → A
  price_on opp kalshi_venue = opp.kalshi_price
  price_on opp _ = opp.polymarket_price

module _ {A B : Type 0} ⦃fl : Float A⦄ (cfg : Config A) where
  open fl use {le, decimal}

  -- The legs that are built have one and the same size, the capped volume, which is not at most 0;
  -- they go to the two different venues, each limited to its venue's price, and are not
  -- risk-reducing. Both buy in a complementary trade; otherwise the first buys and the second sells.
  pub build_legs_shape :
      (opp : Opportunity A B) {a b : OrderRequest A}
      → build_legs cfg opp ≡ some (a, b)
      → (a.size ≡ capped_volume cfg opp)
        × (b.size ≡ capped_volume cfg opp)
        × (le (capped_volume cfg opp) (decimal 0 1) ≡ false)
        × (a.venue ≢ b.venue)
        × (a.limit_price ≡ price_on opp a.venue)
        × (b.limit_price ≡ price_on opp b.venue)
        × (a.risk_reducing ≡ false)
        × (b.risk_reducing ≡ false)
        × (a.action ≡ buy)
        × (((opp.strategy_type ≡ complementary) × (b.action ≡ buy))
            ⊎ ((opp.strategy_type ≢ complementary)
                × (b.action ≡ sell)
                × (a.limit_price ≡ buy_price opp)))
  unfolding build_legs
  build_legs_shape opp e = ground arith
