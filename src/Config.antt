-- ===== src/Config.antt =====
-- kalshi_arbitrage/config.py: the settings that the execution stack reads, under the source's
-- names in lower case. `default_config` has the values of the file.
use kalshi.Common.{ℕ, Bool, true, false}
use kalshi.Float.{Float}

-- `EXECUTION_MODE`; any string but "live" behaves as "paper".
pub data ExecutionMode : Type 0 where
  paper live : ExecutionMode

abbrev pub is_live : ExecutionMode → Bool
is_live live = true
is_live paper = false

-- Time in force of an order.
pub data Tif : Type 0 where
  ioc fok fak gtc gtd : Tif

pub record Config (A : Type 0) : Type 0 where
  pub execution_enabled : Bool
  pub execution_mode : ExecutionMode
  pub polymarket_order_type : Tif
  pub max_position_size_usd : A
  pub max_daily_loss_usd : A
  pub hedge_enabled : Bool
  pub min_profit_after_fees_usd : A
  pub execution_max_retries : ℕ
  pub execution_retry_base_delay : A
  pub hedge_timeout_seconds : ℕ
  pub hedge_price_concession : A
  pub risk_gate_enabled : Bool
  pub max_risk_score : A
  pub min_risk_confidence : A
  pub execution_cb_failure_threshold : ℕ
  pub execution_cb_recovery_timeout : ℕ
  pub require_balance_check : Bool
  pub live_max_notional_usd : A
  pub live_max_concurrent_positions : ℕ
  pub match_require_allowlist_for_live : Bool

abbrev pub default_config : {A : Type 0} ⦃fl : Float A⦄ → Config A
default_config ⦃fl⦄ = record {
  execution_enabled = true;
  execution_mode = paper;
  polymarket_order_type = fok;
  max_position_size_usd = fl.decimal 1000 1;
  max_daily_loss_usd = fl.decimal 500 1;
  hedge_enabled = true;
  min_profit_after_fees_usd = fl.decimal 50 2;
  execution_max_retries = 2;
  execution_retry_base_delay = fl.decimal 5 1;
  hedge_timeout_seconds = 15;
  hedge_price_concession = fl.decimal 2 2;
  risk_gate_enabled = true;
  max_risk_score = fl.decimal 600 1;
  min_risk_confidence = fl.decimal 3 1;
  execution_cb_failure_threshold = 4;
  execution_cb_recovery_timeout = 120;
  require_balance_check = true;
  live_max_notional_usd = fl.decimal 50 1;
  live_max_concurrent_positions = 1;
  match_require_allowlist_for_live = true;
}
