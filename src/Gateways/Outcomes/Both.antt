-- ===== src/Gateways/Outcomes/Both.antt =====
-- kalshi_arbitrage/execution/venue_gateway.py: what the outcomes of the gateways say.
use kalshi.Common.{ℕ, suc, true, String, ◌≡◌, []}
use kalshi.Float.{Float, FloatOrder}
use kalshi.Config.{Config}
use kalshi.KillSwitch.{Venue, kalshi_venue, polymarket_venue}
use kalshi.Order.{OrderRequest, Seed, ensure_client_order_id}
use kalshi.Gateways.{Net, Numbers, Timer, PollSettings}
use kalshi.Gateways.Kalshi.{KalshiOrderClient, kalshi_gateway}
use kalshi.Gateways.Polymarket.{PolymarketOrderClient, poly_gateway}
use kalshi.Gateways.Live.{gateway_for}
use kalshi.Gateways.Outcomes.{Tells}
use kalshi.Gateways.Outcomes.OfKalshi.{place_kalshi-Tells}
use kalshi.Gateways.Outcomes.OfPolymarket.{place_poly-Tells}

module _ {A V : Type 0} ⦃fl : Float A⦄ (cfg : Config A) (polling : PollSettings)
    (coid_of : Seed A → String) (numbers : Numbers A) (timer : Timer (Net V)) (wall : Net V → A)
    (kalshi_client : KalshiOrderClient A (Net V))
    (poly_client : PolymarketOrderClient A (Net V)) where
  -- Whatever the venues answer, an outcome that a live gateway returns is done (filled or partial)
  -- exactly if its filled size is positive, and it names the requested size and the order's client
  -- order id; where positive ints are positive floats, and 99.9% of the requested size is positive.
  pub gateway_for-Tells :
      (order : FloatOrder fl) (v : Venue) (req : OrderRequest A) (g : Net V)
      → ((n : ℕ) → fl.lt (fl.decimal 0 1) (fl.of_nat (suc n)) ≡ true)
      → fl.lt (fl.decimal 0 1) (fl.mul req.size (fl.decimal 999 3)) ≡ true
      → Tells req.size
          (ensure_client_order_id coid_of [] req).client_order_id
          ((gateway_for cfg polling coid_of numbers timer wall kalshi_client poly_client v).place
            req g).0
  unfolding gateway_for kalshi_gateway poly_gateway
  gateway_for-Tells order kalshi_venue req g positive sized =
      place_kalshi-Tells cfg polling coid_of numbers timer kalshi_client order positive req g
  gateway_for-Tells order polymarket_venue req g positive sized =
      place_poly-Tells cfg polling coid_of numbers timer wall poly_client order req g sized
