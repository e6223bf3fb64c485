-- ===== src/Tests/Trades.antt =====
-- Concrete runs of the arbitrage executor.
use kalshi.Common.{ℕ, ◌≡◌, ◌≢◌, ◌⊎◌, refl, true, false, none, some, [], ◌∷◌, ◌++◌}
use kalshi.Common.Int.{ℤ}
use kalshi.Float.Fixed.{fixed, fixed-FloatOrder}
use kalshi.KillSwitch
use kalshi.KillSwitch.{
  Venue, kalshi_venue, polymarket_venue, KillSwitch, halt_sentinel_present, HaltReason,
}
use kalshi.Order.{
  buy, sell, yes_side, filled, failed, bare_outcome, ensure_client_order_id, is_done, OrderOutcome,
  OrderRequest,
}
use kalshi.Engine.{
  kill_active, execute, execute_through, attempts, try_place, call_gateway, outcome_of, back_off,
  venue_breaker,
}
use kalshi.Breaker.Manager.{get_or_create}
use kalshi.Common.{lookup}
use kalshi.Executor.{Opportunity, same_outcome, complementary, Desk, Receipt, Advisers}
use kalshi.Executor.Gates.{
  capped_volume, buy_price, halt_gate, risk_gate, trade_gates, live_gates, pre_flight_checks,
  maybe_reset_daily_loss,
}
use kalshi.Executor.Legs.{
  kalshi_leg, polymarket_leg, build_legs, build_unwind_request, unwind_price,
}
use kalshi.Executor.Hedge.{hedge, unwind}
use kalshi.Executor.Run.{Surroundings, finished, run_arbitrage}
use kalshi.Executor.Admission.{LiveChecked, pre_flight_checks-admits}
use kalshi.Executor.LegShape.{price_on, build_legs_shape}
use kalshi.Executor.Unwind.{unhedged_halts}
use kalshi.Executor.Accounting.{Booked, run_arbitrage-Booked}
use kalshi.Tests.Data.{
  whole, cents, live_cfg, idle_world, all_fail, all_fill, attempt_clock, coid_of,
}

-- Twelve contracts, bought on Kalshi at 0.40 and sold on Polymarket at 0.55.
abbrev opp : Opportunity ℤ ℕ
opp = record {
  opportunity_id = some "opp-1";
  total_profit = whole 1;
  max_tradeable_volume = whole 12;
  kalshi_price = cents 40;
  polymarket_price = cents 55;
  buy_platform = some kalshi_venue;
  sell_platform = some polymarket_venue;
  strategy_type = same_outcome;
  strategy = "S1";
  kalshi_id = some "KXNBA";
  polymarket_id = none;
  polymarket_token = some "71";
  risk_orderbooks = none;
}

abbrev desk : Desk ℤ ℕ
desk = record {
  world = idle_world;
  daily_loss = whole 0;
  daily_reset_date = some "2026-06-12";
  live_in_flight = 0;
  receipts = some [];
}

-- Every pair is on the allowlist, and either venue holds 100 dollars.
abbrev advisers : Advisers ℤ ℕ ℕ
advisers = record {
  assess = λ o k p. some (record { total_risk_score = whole 93; confidence = whole 0 });
  is_allowlisted = λ k p. true;
  get_balance = λ v g. (some (some (whole 100)), g);
}

abbrev outcome_on : Venue → ℤ → ℤ → OrderOutcome ℤ
outcome_on v size price = record (bare_outcome v filled size) {
  filled_size = size;
  avg_price = price;
}

-- Both legs fill whole.
abbrev surroundings : Surroundings ℤ ℕ
surroundings = record {
  real_gateways = all_fill;
  sim_gateways = all_fill;
  coid_of = coid_of;
  run_legs = λ gateways a b w. record {
    buy_result = finished (outcome_on a.venue a.size a.limit_price);
    sell_result = finished (outcome_on b.venue b.size b.limit_price);
    timed_out = false;
    world = w;
  };
  clock = attempt_clock;
  unwind_time = whole 120;
  today = "2026-06-12";
  fresh = "opp-f";
  hedge_key = "opp-1:hedge";
}

capped_volume_test : capped_volume live_cfg opp ≡ whole 12
unfolding capped_volume
capped_volume_test = refl

pre_flight_checks-admits_example :
    (kill_active live_cfg desk.world ≡ none)
    × (fixed.le live_cfg.max_daily_loss_usd (maybe_reset_daily_loss "2026-06-12" desk).daily_loss
        ≡ false)
    × (fixed.lt opp.total_profit live_cfg.min_profit_after_fees_usd ≡ false)
    × ((true ≡ false) ⊎ (risk_gate advisers live_cfg opp ≡ none))
    × LiveChecked advisers live_cfg opp 0 0
unfolding pre_flight_checks halt_gate trade_gates live_gates risk_gate maybe_reset_daily_loss
    capped_volume KillSwitch.is_active
pre_flight_checks-admits_example =
    pre_flight_checks-admits advisers live_cfg "2026-06-12" opp desk refl refl

run_arbitrage-Booked_example :
    let (result, info, d') = run_arbitrage advisers live_cfg surroundings opp desk in
    (d'.live_in_flight ≡ 0)
    × ((d' ≡ desk)
        ⊎ Booked (maybe_reset_daily_loss "2026-06-12" desk).daily_loss result d'.daily_loss)
run_arbitrage-Booked_example = run_arbitrage-Booked advisers live_cfg surroundings opp desk

-- What the legs of the opportunity are, by `build_legs`.
abbrev buy_leg : OrderRequest ℤ
buy_leg = kalshi_leg buy (whole 12) (cents 40) (some "KXNBA") yes_side (some "opp-1") "kalshi_buy"

abbrev sell_leg : OrderRequest ℤ
sell_leg = polymarket_leg live_cfg sell (whole 12) (cents 55) (some "71") (some "opp-1") "poly_sell"

build_legs_shape_example :
    (buy_leg.size ≡ capped_volume live_cfg opp)
    × (sell_leg.size ≡ capped_volume live_cfg opp)
    × (fixed.le (capped_volume live_cfg opp) (whole 0) ≡ false)
    × (buy_leg.venue ≢ sell_leg.venue)
    × (buy_leg.limit_price ≡ price_on opp kalshi_venue)
    × (sell_leg.limit_price ≡ price_on opp polymarket_venue)
    × (buy_leg.risk_reducing ≡ false)
    × (sell_leg.risk_reducing ≡ false)
    × (buy_leg.action ≡ buy)
    × (((same_outcome ≡ complementary) × (sell_leg.action ≡ buy))
        ⊎ ((same_outcome ≢ complementary)
            × (sell_leg.action ≡ sell)
            × (buy_leg.limit_price ≡ buy_price opp)))
unfolding build_legs capped_volume
build_legs_shape_example = build_legs_shape live_cfg opp {a = buy_leg} {b = sell_leg} refl

-- The bought leg filled twelve, the sold leg none, and no venue takes the unwind.
unhedged_halts_example :
    let (info, d') =
      hedge live_cfg coid_of all_fail attempt_clock "opp-1:hedge"
        (whole 120)
        buy_leg
        (outcome_on kalshi_venue (whole 12) (cents 40))
        sell_leg
        (bare_outcome polymarket_venue failed (whole 12))
        desk in
    (kill_active live_cfg d'.world ≢ none)
    × ((r : Receipt ℤ) × (r.buy_size ≡ info.residual) × (d'.receipts ≡ some ([] ++ r ∷ [])))
unfolding hedge unwind build_unwind_request unwind_price execute execute_through
    KillSwitch.is_active attempts try_place call_gateway outcome_of back_off venue_breaker
    get_or_create lookup ensure_client_order_id is_done
unhedged_halts_example =
    unhedged_halts fixed-FloatOrder live_cfg coid_of all_fail attempt_clock "opp-1:hedge"
      (whole 120) buy_leg sell_leg (outcome_on kalshi_venue (whole 12) (cents 40))
      (bare_outcome polymarket_venue failed (whole 12)) desk [] refl refl refl
