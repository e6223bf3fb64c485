-- ===== src/Breaker/Report.antt =====
-- kalshi_arbitrage/circuit_breaker.py: get_stats and get_all_stats. The text of a point in time,
-- `datetime.fromtimestamp(t).isoformat()`, is a parameter.
use kalshi.Common.{ℕ, Option, none, some, List, [], ◌∷◌, String, ltb, if◌then◌else◌}
use kalshi.Float.{Float}
use kalshi.Breaker.{CircuitState, CircuitBreaker}
use kalshi.Breaker.Manager.{Breakers}

pub record StatsReport (A : Type 0) : Type 0 where
  pub name : String
  pub state : CircuitState
  pub total_calls : ℕ
  pub successful_calls : ℕ
  pub failed_calls : ℕ
  pub success_rate : A
  pub consecutive_failures : ℕ
  pub consecutive_successes : ℕ
  pub circuit_opens : ℕ
  pub last_failure : Option String
  pub last_success : Option String

module _ {A : Type 0} ⦃fl : Float A⦄ (iso : A → String) where
  -- A missing time and the time 0 have no text.
  abbrev pub text_of_time : Option A → Option String
  text_of_time none = none
  text_of_time (some t) = if fl.is_zero t then none else some (iso t)

  unfoldable pub get_stats : CircuitBreaker A → StatsReport A
  get_stats b =
      let s = b.stats in
      record {
        name = b.name;
        state = b.state;
        total_calls = s.total_calls;
        successful_calls = s.successful_calls;
        failed_calls = s.failed_calls;
        success_rate =
            if ltb 0 s.total_calls
            then fl.ratio s.successful_calls s.total_calls
            else fl.decimal 0 1;
        consecutive_failures = s.consecutive_failures;
        consecutive_successes = s.consecutive_successes;
        circuit_opens = s.circuit_opens;
        last_failure = text_of_time s.last_failure_time;
        last_success = text_of_time s.last_success_time;
      }

  unfoldable pub get_all_stats : Breakers A → List (String × StatsReport A)
  unfolding get_stats
  get_all_stats [] = []
  get_all_stats ((name, b) ∷ rest) = (name, get_stats b) ∷ get_all_stats rest
