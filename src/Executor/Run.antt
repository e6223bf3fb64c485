-- ===== src/Executor/Run.antt =====
-- kalshi_arbitrage/arbitrage_executor.py: `_run_arbitrage`. How asyncio runs the two leg tasks up to
-- the timeout is a parameter, `run_legs`: it gives each task's result and the world after both.
use kalshi.Common.{ℕ, ◌+◌, ◌-◌, Bool, false, ◌&&◌, Option, none, some, String, if◌then◌else◌}
use kalshi.Float.{Float, min}
use kalshi.Config.{Config, is_live}
use kalshi.KillSwitch.{Venue}
use kalshi.Order.{OrderRequest, OrderOutcome, Seed, failed_outcome}
use kalshi.Engine.{Gateway, World, AttemptClock}
use kalshi.Executor.{
  Opportunity, is_complementary, Skip, unbuildable_legs, partial_fill_hedged, execution_timeout,
  no_fill, ExecutionResult, HedgeInfo, Desk, Advisers,
}
use kalshi.Executor.Gates.{pre_flight_checks}
use kalshi.Executor.Legs.{build_legs}
use kalshi.Executor.Hedge.{hedge, eps}

-- How a leg task ended: with an outcome, cancelled by the timeout, or by another exception.
pub data TaskResult (A : Type 0) : Type 0 where
  finished : OrderOutcome A → TaskResult A
  cancelled : TaskResult A
  excepted : TaskResult A

pub record LegsRun (A G : Type 0) : Type 0 where
  pub buy_result : TaskResult A
  pub sell_result : TaskResult A
  pub timed_out : Bool
  pub world : World A G

module _ {A : Type 0} ⦃fl : Float A⦄ where
  unfoldable pub coerce_outcome : TaskResult A → OrderRequest A → OrderOutcome A
  coerce_outcome (finished o) req = o
  coerce_outcome cancelled req = failed_outcome req.venue req.size "execution_timeout" none
  coerce_outcome excepted req = failed_outcome req.venue req.size "leg_exception" none

module _ {A B : Type 0} ⦃fl : Float A⦄ where
  open fl use {add, sub, mul, div, lt, decimal}

  -- `opportunity.get('opportunity_id', …)`, where `fresh` is the id drawn for want of one.
  abbrev pub opp_id : String → Opportunity A B → String
  opp_id fresh opp = elim (opp.opportunity_id) [ none ↦ fresh | some id ↦ id ]

  unfoldable pub skipped_result : String → Opportunity A B → Skip → ExecutionResult A
  skipped_result id opp reason =
      let zero = decimal 0 0 in
      record {
        opportunity_id = id;
        buy_platform = opp.buy_platform;
        sell_platform = opp.sell_platform;
        requested_volume = opp.max_tradeable_volume;
        filled_volume = zero;
        avg_buy_price = zero;
        avg_sell_price = zero;
        buy_fees = zero;
        sell_fees = zero;
        gross_profit = zero;
        net_profit = zero;
        profit_margin = zero;
        skipped_reason = some reason;
        buy_order_id = none;
        sell_order_id = none;
        is_exchange = false;
      }

  -- The gross profit and the basis of the margin, by the strategy.
  unfoldable pub gross_and_basis : Opportunity A B → A → A → A → A × A
  gross_and_basis opp buy_price sell_price filled =
      let cost_per_pair = add buy_price sell_price in
      if is_complementary opp.strategy_type
      then (sub (mul filled (decimal 10 1)) (mul cost_per_pair filled), mul cost_per_pair filled)
      else (sub (mul sell_price filled) (mul buy_price filled), mul buy_price filled)

  unfoldable pub net_profit_of : Opportunity A B → OrderOutcome A → OrderOutcome A → A → A
  unfolding gross_and_basis
  net_profit_of opp buy sell filled =
      let (gross, margin_basis) = gross_and_basis opp buy.avg_price sell.avg_price filled in
      sub (sub gross buy.fees) sell.fees

  unfoldable pub build_result :
      Config A → String → Opportunity A B → OrderOutcome A → OrderOutcome A → A → ExecutionResult A
  unfolding gross_and_basis net_profit_of
  build_result cfg id opp buy sell filled =
      let (gross, margin_basis) = gross_and_basis opp buy.avg_price sell.avg_price filled in
      let net = net_profit_of opp buy sell filled in
      record {
        opportunity_id = id;
        buy_platform = some buy.venue;
        sell_platform = some sell.venue;
        requested_volume = opp.max_tradeable_volume;
        filled_volume = filled;
        avg_buy_price = buy.avg_price;
        avg_sell_price = sell.avg_price;
        buy_fees = buy.fees;
        sell_fees = sell.fees;
        gross_profit = gross;
        net_profit = net;
        profit_margin = if lt (decimal 0 0) margin_basis then div net margin_basis else decimal 0 0;
        skipped_reason = none;
        buy_order_id = buy.order_id;
        sell_order_id = sell.order_id;
        is_exchange = is_live cfg.execution_mode;
      }

-- What the trade's surroundings are: the two sets of gateways, the clocks and the drawn id.
pub record Surroundings (A G : Type 0) : Type 0 where
  pub real_gateways : Venue → Option (Gateway A G)
  pub sim_gateways : Venue → Option (Gateway A G)
  pub coid_of : Seed A → String
  pub run_legs :
      (Venue → Option (Gateway A G)) → OrderRequest A → OrderRequest A → World A G → LegsRun A G
  pub clock : ℕ → AttemptClock A
  pub unwind_time : A
  pub today : String
  pub fresh : String
  pub hedge_key : String

module _ {A B G : Type 0} ⦃fl : Float A⦄ (adv : Advisers A B G) (cfg : Config A)
    (s : Surroundings A G) where
  open fl use {lt, sub, abs}

  -- `_sync_engine_gateways`: the gateways that the engine has for this trade.
  unfoldable pub active_gateways : Venue → Option (Gateway A G)
  active_gateways = if is_live cfg.execution_mode then s.real_gateways else s.sim_gateways

  -- The hedge of the two outcomes, if their fills differ and hedging is enabled.
  unfoldable pub hedge_step :
      (Venue → Option (Gateway A G))
      → OrderRequest A
      → OrderOutcome A
      → OrderRequest A
      → OrderOutcome A
      → Desk A G
      → Option (HedgeInfo A) × Desk A G
  hedge_step gateways buy_req buy_out sell_req sell_out d =
      let imbalance = abs (sub buy_out.filled_size sell_out.filled_size) in
      let (info, d') =
        hedge cfg s.coid_of gateways s.clock s.hedge_key s.unwind_time buy_req buy_out sell_req
          sell_out d in
      if lt eps imbalance && cfg.hedge_enabled then (some info, d') else (none, d)

  -- The result of the two outcomes, and the loss of the day after it.
  unfoldable pub settle :
      Opportunity A B
      → OrderOutcome A
      → OrderOutcome A
      → Bool
      → Desk A G
      → ExecutionResult A × Desk A G
  settle opp buy_out sell_out timed_out d =
      let matched = min buy_out.filled_size sell_out.filled_size in
      let imbalance = abs (sub buy_out.filled_size sell_out.filled_size) in
      let id = opp_id s.fresh opp in
      if lt eps matched
      then (
        build_result cfg id opp buy_out sell_out matched,
        record d { daily_loss = sub d.daily_loss (net_profit_of opp buy_out sell_out matched) },
      )
      else if lt eps imbalance
      then (skipped_result id opp partial_fill_hedged, d)
      else (skipped_result id opp (if timed_out then execution_timeout else no_fill), d)

  -- The trade from its two requests on, with the gateways that the engine has.
  unfoldable pub run_both :
      (Venue → Option (Gateway A G))
      → Opportunity A B
      → OrderRequest A
      → OrderRequest A
      → Desk A G
      → ExecutionResult A × Option (HedgeInfo A) × Desk A G
  run_both gateways opp buy_req sell_req d =
      let started = record d { live_in_flight = d.live_in_flight + 1 } in
      let legs = s.run_legs gateways buy_req sell_req started.world in
      let ended = record started {
        world = legs.world;
        live_in_flight = started.live_in_flight - 1;
      } in
      let buy_out = coerce_outcome legs.buy_result buy_req in
      let sell_out = coerce_outcome legs.sell_result sell_req in
      let (info, hedged) = hedge_step gateways buy_req buy_out sell_req sell_out ended in
      let (result, settled) = settle opp buy_out sell_out legs.timed_out hedged in
      (result, info, settled)

  unfoldable pub run_with :
      (Venue → Option (Gateway A G))
      → Opportunity A B
      → Desk A G
      → ExecutionResult A × Option (HedgeInfo A) × Desk A G
  run_with gateways opp d =
      let (rejection, d') = pre_flight_checks adv cfg s.today opp d in
      let id = opp_id s.fresh opp in
      elim rejection [
        | some reason ↦ (skipped_result id opp reason, none, d')
        | none ↦ elim (build_legs cfg opp) [
          | none ↦ (skipped_result id opp unbuildable_legs, none, d')
          | some (buy_req, sell_req) ↦ run_both gateways opp buy_req sell_req d'
        ]
      ]

  unfoldable pub run_arbitrage :
      Opportunity A B → Desk A G → ExecutionResult A × Option (HedgeInfo A) × Desk A G
  unfolding run_with
  run_arbitrage opp d = run_with active_gateways opp d
