-- ===== src/Executor/Legs.antt =====
-- kalshi_arbitrage/arbitrage_executor.py: the two legs of a trade and the order that unwinds one.
use text.Mathlib.Text.{find?}
use kalshi.Common.{ℕ, Bool, true, false, ◌||◌, Option, none, some, String, if◌then◌else◌}
use kalshi.Float.{Float, min, max}
use kalshi.Config.{Config, Tif, ioc, fok}
use kalshi.KillSwitch.{Venue, kalshi_venue, polymarket_venue}
use kalshi.Order.{
  Action, is_buy, buy, sell, OutcomeSide, yes_side, no_side, Meta, OrderRequest, OrderOutcome,
}
use kalshi.Executor.{Opportunity, is_complementary, is_kalshi}
use kalshi.Executor.Gates.{capped_volume}

abbrev pub is_found : Option ℕ → Bool
is_found none = false
is_found (some i) = true

-- `'S3' in strategy or 'Kalshi YES' in strategy`
unfoldable pub names_kalshi_yes : String → Bool
names_kalshi_yes strategy = is_found (find? strategy "S3") || is_found (find? strategy "Kalshi YES")

-- A missing id is the empty string here.
abbrev pub id_or_empty : Option String → Option String
id_or_empty none = some ""
id_or_empty (some id) = some id

abbrev pub leg_meta : Option String → String → Meta
leg_meta id leg = record { opportunity_id = id; leg = some leg; hedge = false; attempt = none }

abbrev pub opposite : Action → Action
opposite buy = sell
opposite sell = buy

module _ {A : Type 0} where
  -- An order on Kalshi for a leg, immediate or cancel.
  abbrev pub kalshi_leg :
      Action → A → A → Option String → OutcomeSide → Option String → String → OrderRequest A
  kalshi_leg action size price ticker side id leg = record {
    venue = kalshi_venue;
    action = action;
    size = size;
    limit_price = price;
    ticker = ticker;
    outcome_side = side;
    token_id = none;
    tif = ioc;
    ttl_seconds = 0;
    client_order_id = none;
    risk_reducing = false;
    meta = leg_meta id leg;
  }

  -- An order on Polymarket for a leg, of the type in the settings.
  abbrev pub polymarket_leg :
      Config A → Action → A → A → Option String → Option String → String → OrderRequest A
  polymarket_leg cfg action size price token id leg = record {
    venue = polymarket_venue;
    action = action;
    size = size;
    limit_price = price;
    ticker = none;
    outcome_side = yes_side;
    token_id = token;
    tif = cfg.polymarket_order_type;
    ttl_seconds = 0;
    client_order_id = none;
    risk_reducing = false;
    meta = leg_meta id leg;
  }

module _ {A B : Type 0} ⦃fl : Float A⦄ (cfg : Config A) where
  open fl use {le, lt, add, sub, is_zero, decimal}

  -- The two orders of a volume that was found positive.
  unfoldable pub legs_of : A → Opportunity A B → OrderRequest A × OrderRequest A
  legs_of volume opp =
      let k = opp.kalshi_price in
      let p = opp.polymarket_price in
      let ticker = id_or_empty opp.kalshi_id in
      let token = id_or_empty opp.polymarket_token in
      let id = opp.opportunity_id in
      if is_complementary opp.strategy_type
      then (
        kalshi_leg buy volume k ticker (if names_kalshi_yes opp.strategy then yes_side else no_side)
            id "kalshi",
        polymarket_leg cfg buy volume p token id "polymarket",
      )
      else if is_kalshi opp.buy_platform
      then (
        kalshi_leg buy volume k ticker yes_side id "kalshi_buy",
        polymarket_leg cfg sell volume p token id "poly_sell",
      )
      else (
        polymarket_leg cfg buy volume p token id "poly_buy",
        kalshi_leg sell volume k ticker yes_side id "kalshi_sell",
      )

  unfoldable pub build_legs : Opportunity A B → Option (OrderRequest A × OrderRequest A)
  unfolding legs_of
  build_legs opp =
      let volume = capped_volume cfg opp in
      if le volume (decimal 0 1) then none else some (legs_of volume opp)

module _ {A : Type 0} ⦃fl : Float A⦄ (cfg : Config A) where
  open fl use {add, sub, is_zero, decimal}

  abbrev pub unwind_tif : Venue → Tif
  unwind_tif polymarket_venue = fok
  unwind_tif kalshi_venue = ioc

  -- The price of the unwind: a concession beyond the fill, held within a cent of 0 and of 1.
  unfoldable pub unwind_price : Action → A → A
  unwind_price action ref =
      let concession = cfg.hedge_price_concession in
      let price = if is_buy action then add ref concession else sub ref concession in
      min (decimal 99 2) (max (decimal 1 2) price)

  -- The `meta` dict is copied; an `attempt` in it is overwritten before any placement.
  unfoldable pub build_unwind_request : OrderRequest A → OrderOutcome A → A → OrderRequest A
  unfolding unwind_price
  build_unwind_request req out qty =
      let action = opposite req.action in
      let ref = if is_zero out.avg_price then req.limit_price else out.avg_price in
      record {
        venue = req.venue;
        action = action;
        size = qty;
        limit_price = unwind_price action ref;
        ticker = req.ticker;
        outcome_side = req.outcome_side;
        token_id = req.token_id;
        tif = unwind_tif req.venue;
        ttl_seconds = cfg.hedge_timeout_seconds;
        client_order_id = none;
        risk_reducing = true;
        meta = record (req.meta) { hedge = true };
      }
