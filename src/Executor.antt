-- ===== src/Executor.antt =====
-- kalshi_arbitrage/arbitrage_executor.py: the state of the ArbitrageExecutor, the opportunity that
-- it trades and the result that it returns. The children hold its methods and their properties.
pub mod Gates
pub mod Legs
pub mod Hedge
pub mod Run
pub mod Admission
pub mod LegShape
pub mod Unwind
pub mod Accounting
use kalshi.Common.{ℕ, Bool, true, false, Option, none, some, List, String}
use kalshi.KillSwitch.{Venue, HaltReason}
use kalshi.Order.{OrderOutcome}
use kalshi.Engine.{World}

-- `strategy_type`; every value but "complementary" is handled as "same_outcome".
pub data StrategyType : Type 0 where
  complementary same_outcome : StrategyType

abbrev pub is_complementary : StrategyType → Bool
is_complementary complementary = true
is_complementary same_outcome = false

-- The keys of the `opportunity` dict that the executor reads. A missing number has the default 0 of
-- the source. `B` is a normalized order book.
pub record Opportunity (A B : Type 0) : Type 0 where
  pub opportunity_id : Option String
  pub total_profit : A
  pub max_tradeable_volume : A
  pub kalshi_price : A
  pub polymarket_price : A
  pub buy_platform : Option Venue
  pub sell_platform : Option Venue
  pub strategy_type : StrategyType
  pub strategy : String
  pub kalshi_id : Option String  -- `match_data.kalshi_market.id`
  pub polymarket_id : Option String  -- `match_data.polymarket_market.id`
  pub polymarket_token : Option String
  pub risk_orderbooks : Option (Option B × Option B)

-- Why a trade was skipped.
pub data Skip : Type 0 where
  halted_by : HaltReason → Skip
  daily_loss_limit below_min_profit risk_too_high low_risk_confidence risk_gate_error : Skip
  not_allowlisted max_concurrent_positions insufficient_balance unbuildable_legs : Skip
  partial_fill_hedged execution_timeout no_fill : Skip

-- kalshi_arbitrage/mock_execution.py, ExecutionResult, without its timing, its uuids and the venue's
-- fill and trade ids.
pub record ExecutionResult (A : Type 0) : Type 0 where
  pub opportunity_id : String
  pub buy_platform : Option Venue
  pub sell_platform : Option Venue
  pub requested_volume : A
  pub filled_volume : A
  pub avg_buy_price : A
  pub avg_sell_price : A
  pub buy_fees : A
  pub sell_fees : A
  pub gross_profit : A
  pub net_profit : A
  pub profit_margin : A
  pub skipped_reason : Option Skip
  pub buy_order_id : Option String
  pub sell_order_id : Option String
  pub is_exchange : Bool  -- `confirmation_source == "exchange"`

-- One call of `pnl_tracker.record_execution_receipt` for a position that was not unwound.
pub record Receipt (A : Type 0) : Type 0 where
  pub opportunity_id : String
  pub venue : Venue
  pub buy_price : A
  pub buy_size : A

pub record HedgeInfo (A : Type 0) : Type 0 where
  pub hedged : Bool
  pub residual : A
  pub dust : Bool
  pub unwind_order_id : Option String
  pub unwind_filled : Option A

-- The executor's own fields, the world of its engine, and the calls made of its tracker: `none` is
-- an executor without one. What the tracker raises is caught.
pub record Desk (A G : Type 0) : Type 0 where
  pub world : World A G
  pub daily_loss : A
  pub daily_reset_date : Option String
  pub live_in_flight : ℕ
  pub receipts : Option (List (Receipt A))

-- kalshi_arbitrage/risk_engine.py, the two fields of a RiskAssessment that the gate reads.
pub record Assessment (A : Type 0) : Type 0 where
  pub total_risk_score : A
  pub confidence : A

-- The components that the executor calls: the risk engine, the allowlist and the balance of a real
-- gateway. `none` as an assessment or a balance reply is a raised exception; a balance reply of
-- `some none` is an unknown balance.
pub record Advisers (A B G : Type 0) : Type 0 where
  pub assess : Opportunity A B → Option B → Option B → Option (Assessment A)
  pub is_allowlisted : Option String → Option String → Bool
  pub get_balance : Venue → G → Option (Option A) × G

abbrev pub is_kalshi : Option Venue → Bool
is_kalshi (some Venue.kalshi_venue) = true
is_kalshi _ = false
