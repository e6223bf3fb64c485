-- ===== src/Pnl/Totals.antt =====
-- kalshi_arbitrage/confirmed_pnl.py: `summarize`, and which executions it counts.
use kalshi.Common.{
  ℕ, Bool, true, false, ◌&&◌, ◌||◌, not, Option, none, some, List, [], ◌∷◌, String, filter, length,
  if◌then◌else◌,
}
use kalshi.Float.{Float, max}
use kalshi.Pnl.{
  ExecutionRecord, is_settled, has_confirmed_legs, has_simulation_source, realized_pnl,
}
use kalshi.Pnl.Tracker.{PnlTracker, or_value}

pub record Summary (A : Type 0) : Type 0 where
  pub realized_pnl_usd : A
  pub realized_pnl_per_hour_usd : A
  pub realized_pnl_per_day_usd : A
  pub realized_pnl_opportunity_count : ℕ
  pub settled_execution_count : ℕ
  pub pending_execution_count : ℕ
  pub locked_in_pnl_usd : A
  pub locked_in_execution_count : ℕ
  pub cumulative_realized_pnl_usd : A
  pub cumulative_settled_execution_count : ℕ
  pub counting_simulated_confirmations : Bool

module _ {A : Type 0} where
  -- `executions.values()`
  abbrev pub values : List (String × ExecutionRecord A) → List (ExecutionRecord A)
  values [] = []
  values ((id, e) ∷ rest) = e ∷ values rest

module _ {A : Type 0} ⦃fl : Float A⦄ where
  open fl use {add, mul, div, lt, decimal, of_nat}

  -- Settled before the given time. `settled_at or 0.0` is the time, where there is one.
  abbrev pub is_before : Option A → ExecutionRecord A → Bool
  is_before none e = false
  is_before (some since) e = lt (or_value e.settled_at (decimal 0 1)) since

  unfoldable pub is_counted_execution : Bool → Option A → ExecutionRecord A → Bool
  is_counted_execution allow_simulated since e =
      if not (is_settled e) || not (has_confirmed_legs e)
      then false
      else if is_before since e
      then false
      else if not allow_simulated && has_simulation_source e
      then false
      else true

  unfoldable pub is_locked_execution : Bool → ExecutionRecord A → Bool
  is_locked_execution allow_simulated e =
      if is_settled e || not (has_confirmed_legs e)
      then false
      else if not allow_simulated && has_simulation_source e
      then false
      else true

  abbrev pub pnl_sum : A → List (ExecutionRecord A) → A
  pnl_sum acc [] = acc
  pnl_sum acc (e ∷ es) = pnl_sum (add acc (realized_pnl e)) es

  abbrev pub is_profitable : ExecutionRecord A → Bool
  is_profitable e = lt (decimal 0 1) (realized_pnl e)

  unfoldable pub summarize : A → Option A → PnlTracker A → Summary A
  unfolding is_counted_execution is_locked_execution
  summarize scan_interval_seconds since t =
      let interval = max scan_interval_seconds (decimal 10 1) in
      let scans_per_hour = div (of_nat 3600) interval in
      let all = values t.executions in
      let counted = is_counted_execution t.allow_simulated_confirmed in
      let settled_window = filter (counted since) all in
      let settled_all = filter (counted none) all in
      let locked = filter (is_locked_execution t.allow_simulated_confirmed) all in
      let window_realized = pnl_sum (decimal 0 1) settled_window in
      record {
        realized_pnl_usd = window_realized;
        realized_pnl_per_hour_usd = mul window_realized scans_per_hour;
        realized_pnl_per_day_usd = mul (mul window_realized scans_per_hour) (of_nat 24);
        realized_pnl_opportunity_count = length (filter is_profitable settled_window);
        settled_execution_count = length settled_window;
        pending_execution_count = length (filter (λ e. not (is_settled e)) all);
        locked_in_pnl_usd = pnl_sum (decimal 0 1) locked;
        locked_in_execution_count = length locked;
        cumulative_realized_pnl_usd = pnl_sum (decimal 0 1) settled_all;
        cumulative_settled_execution_count = length settled_all;
        counting_simulated_confirmations = t.allow_simulated_confirmed;
      }
