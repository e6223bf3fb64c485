-- ===== src/Pnl.antt =====
-- kalshi_arbitrage/confirmed_pnl.py: the records of executions and the ConfirmedPnLTracker. The
-- tracker's calls are in Tracker and Receipt, its tape of public trades in Tape, its totals in Totals; the other
-- children hold properties. A number that the source passes through `_safe_float` is one already.
pub mod Tracker
pub mod Receipt
pub mod Calls
pub mod Tape
pub mod Totals
pub mod FillIds
pub mod History
pub mod Known
pub mod Partition
use kalshi.Common.{
  ℕ, Bool, true, false, ◌&&◌, ◌||◌, Option, none, some, List, [], ◌∷◌, ◌++◌, String, if◌then◌else◌,
}
use kalshi.Float.{Float, min, max}
use kalshi.KillSwitch.{Venue}
use kalshi.Executor.{StrategyType, same_outcome, is_complementary}

-- `source`, its case folded.
pub data Source : Type 0 where
  exchange simulation other_source : Source

abbrev pub is_simulation : Source → Bool
is_simulation simulation = true
is_simulation _ = false

-- A platform that is neither venue is `none`.
pub record FillRecord (A : Type 0) : Type 0 where
  pub fill_id : String
  pub order_id : Option String
  pub trade_id : Option String
  pub platform : Option Venue
  pub market_id : Option String
  pub token_id : Option String
  pub price : A
  pub size : A
  pub fee : A
  pub timestamp : A
  pub source : Source

-- The keys of the `metadata` dict that the code reads: absent, or with a value that may be `None`.
pub record Metadata : Type 0 where
  pub strategy_type : Option (Option StrategyType)
  pub kalshi_ticker : Option (Option String)
  pub polymarket_token : Option (Option String)

pub record ExecutionRecord (A : Type 0) : Type 0 where
  pub execution_id : String
  pub opportunity_id : String
  pub buy_platform : Option Venue
  pub sell_platform : Option Venue
  pub created_at : A
  pub metadata : Metadata
  pub buy_fills : List (FillRecord A)
  pub sell_fills : List (FillRecord A)
  pub buy_confirmed_at : Option A
  pub sell_confirmed_at : Option A
  pub settlement_id : Option String
  pub settled_at : Option A

abbrev pub is_set : {A : Type 0} → Option A → Bool
is_set none = false
is_set (some a) = true

module _ {A : Type 0} where
  abbrev pub has_confirmed_legs : ExecutionRecord A → Bool
  has_confirmed_legs e = is_set e.buy_confirmed_at && is_set e.sell_confirmed_at

  abbrev pub is_settled : ExecutionRecord A → Bool
  is_settled e = is_set e.settled_at

  abbrev pub any_simulation : List (FillRecord A) → Bool
  any_simulation [] = false
  any_simulation (f ∷ fs) = is_simulation f.source || any_simulation fs

  unfoldable pub has_simulation_source : ExecutionRecord A → Bool
  has_simulation_source e = any_simulation (e.buy_fills ++ e.sell_fills)

-- `metadata.get("strategy_type") or "same_outcome"`
abbrev pub strategy_of : Option (Option StrategyType) → StrategyType
strategy_of (some (some s)) = s
strategy_of (some none) = same_outcome
strategy_of none = same_outcome

module _ {A : Type 0} ⦃fl : Float A⦄ where
  open fl use {add, sub, mul, div, le, decimal}

  -- `max(x, 0.0)`
  abbrev pub floored : A → A
  floored x = max x (decimal 0 1)

  unfoldable pub notional : FillRecord A → A
  notional f = mul (floored f.price) (floored f.size)

  -- `sum(g(fill) for fill in fills)`
  abbrev pub sum_on : (FillRecord A → A) → A → List (FillRecord A) → A
  sum_on g acc [] = acc
  sum_on g acc (f ∷ fs) = sum_on g (add acc (g f)) fs

  abbrev pub total_size : List (FillRecord A) → A
  total_size fills = sum_on (λ f. floored f.size) (decimal 0 1) fills

  abbrev pub total_notional : List (FillRecord A) → A
  total_notional fills = sum_on notional (decimal 0 1) fills

  abbrev pub total_fees : List (FillRecord A) → A
  total_fees fills = sum_on (λ f. floored f.fee) (decimal 0 1) fills

  unfoldable pub matched_size : ExecutionRecord A → A
  matched_size e = min (total_size e.buy_fills) (total_size e.sell_fills)

  unfoldable pub realized_pnl : ExecutionRecord A → A
  unfolding matched_size notional
  realized_pnl e =
      let matched = matched_size e in
      let buy_size = total_size e.buy_fills in
      let sell_size = total_size e.sell_fills in
      let buy_notional = mul (total_notional e.buy_fills) (div matched buy_size) in
      let sell_notional = mul (total_notional e.sell_fills) (div matched sell_size) in
      let buy_fees = mul (total_fees e.buy_fills) (div matched buy_size) in
      let sell_fees = mul (total_fees e.sell_fills) (div matched sell_size) in
      if le matched (decimal 0 1)
      then decimal 0 1
      else if le buy_size (decimal 0 1) || le sell_size (decimal 0 1)
      then decimal 0 1
      else if is_complementary (strategy_of e.metadata.strategy_type)
      then sub (sub (sub (sub (mul matched (decimal 10 1)) buy_notional) sell_notional) buy_fees)
          sell_fees
      else sub (sub (sub sell_notional buy_notional) buy_fees) sell_fees
