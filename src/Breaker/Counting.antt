-- ===== src/Breaker/Counting.antt =====
-- kalshi_arbitrage/circuit_breaker.py: what the counters of a breaker satisfy between any two of
-- its locked sections, however the calls of several tasks interleave.
use kalshi.Common.{ℕ, ◌+◌, ◌≤◌, ◌<◌, ◌≡◌, refl, ◌⊎◌, List, [], ◌∷◌, String, arith}
use kalshi.Float.{Float}
use kalshi.Breaker.{
  closed, half_open, CircuitBreakerConfig, CircuitBreaker, Clock, new, add_state_change_handler,
  on_success, reset, on_failure, check_failure_rate, enter,
}

pub record IsSound {A : Type 0} (b : CircuitBreaker A) : Type 0 where
  pub counted : b.stats.total_calls ≡ b.stats.successful_calls + b.stats.failed_calls
  pub failures_capped : b.stats.consecutive_failures ≤ b.stats.failed_calls
  pub successes_capped : b.stats.consecutive_successes ≤ b.stats.successful_calls
  pub one_streak : (b.stats.consecutive_failures ≡ 0) ⊎ (b.stats.consecutive_successes ≡ 0)
  pub below_failure_threshold :
      b.state ≡ closed → b.stats.consecutive_failures < b.config.failure_threshold
  pub below_success_threshold :
      b.state ≡ half_open → b.stats.consecutive_successes < b.config.success_threshold

-- The thresholds are positive.
abbrev pub HasThresholds : {A : Type 0} → CircuitBreakerConfig A → Type 0
HasThresholds c = (0 < c.failure_threshold) × (0 < c.success_threshold)

-- The locked sections of a breaker, each with its clock readings.
pub data Event (A : Type 0) : Type 0 where
  entering : Clock A → Event A
  succeeding : Clock A → Event A
  failing : Clock A → Event A
  resetting : Clock A → Event A
  adding_handler : ℕ → Event A

module _ {A : Type 0} ⦃fl : Float A⦄ where
  unfoldable pub step : Event A → CircuitBreaker A → CircuitBreaker A
  step (entering now) b = (enter now b).0
  step (succeeding now) b = on_success now b
  step (failing now) b = on_failure now b
  step (resetting now) b = reset now b
  step (adding_handler h) b = add_state_change_handler h b

  unfoldable pub run : List (Event A) → CircuitBreaker A → CircuitBreaker A
  run [] b = b
  run (e ∷ es) b = run es (step e b)

  pub new-IsSound :
      (name : String) (c : CircuitBreakerConfig A) (now : Clock A)
      → HasThresholds c
      → IsSound (new name c now)
  unfolding new
  new-IsSound name c now h = ground arith

  check_failure_rate-IsSound :
      (now : Clock A) (b : CircuitBreaker A) → IsSound b → IsSound (check_failure_rate now b)
  unfolding check_failure_rate
  check_failure_rate-IsSound now b h = ground arith

  check_failure_rate-config :
      (now : Clock A) (b : CircuitBreaker A) → (check_failure_rate now b).config ≡ b.config
  unfolding check_failure_rate
  check_failure_rate-config now b = ground arith

  enter-IsSound :
      (now : Clock A) (b : CircuitBreaker A)
      → HasThresholds b.config
      → IsSound b
      → IsSound (enter now b).0
  unfolding enter
  enter-IsSound now b t h =
      ground (arith, check_failure_rate-IsSound now b h, check_failure_rate-config now b)

  on_success-IsSound :
      (now : Clock A) (b : CircuitBreaker A)
      → HasThresholds b.config
      → IsSound b
      → IsSound (on_success now b)
  unfolding on_success
  on_success-IsSound now b t h = ground arith

  on_failure-IsSound :
      (now : Clock A) (b : CircuitBreaker A)
      → HasThresholds b.config
      → IsSound b
      → IsSound (on_failure now b)
  unfolding on_failure
  on_failure-IsSound now b t h = ground arith

  reset-IsSound :
      (now : Clock A) (b : CircuitBreaker A)
      → HasThresholds b.config
      → IsSound b
      → IsSound (reset now b)
  unfolding reset
  reset-IsSound now b t h = ground arith

  pub step-config : (e : Event A) (b : CircuitBreaker A) → (step e b).config ≡ b.config
  unfolding step enter on_success on_failure reset add_state_change_handler
  step-config (entering now) b = ground (arith, check_failure_rate-config now b)
  step-config (succeeding now) b = ground arith
  step-config (failing now) b = ground arith
  step-config (resetting now) b = refl
  step-config (adding_handler n) b = refl

  step-IsSound :
      (e : Event A) (b : CircuitBreaker A) → HasThresholds b.config → IsSound b → IsSound (step e b)
  unfolding step add_state_change_handler
  step-IsSound (entering now) b t h = enter-IsSound now b t h
  step-IsSound (succeeding now) b t h = on_success-IsSound now b t h
  step-IsSound (failing now) b t h = on_failure-IsSound now b t h
  step-IsSound (resetting now) b t h = reset-IsSound now b t h
  step-IsSound (adding_handler n) b t h = ground arith

  pub run-IsSound_from :
      (es : List (Event A)) (b : CircuitBreaker A)
      → HasThresholds b.config
      → IsSound b
      → IsSound (run es b)
  unfolding run
  run-IsSound_from [] b t h = h
  run-IsSound_from (e ∷ es) b t h =
      run-IsSound_from es (step e b) (rw (step-config e b) t) (step-IsSound e b t h)

  -- A breaker with positive thresholds keeps its counters consistent through every sequence of
  -- entries, successes, failures, resets and registrations of a handler: the total is the sum of
  -- successes and failures, no streak exceeds its total, one of the two streaks is zero, a closed
  -- breaker is below the failure threshold and a half-open one below the success threshold.
  pub run-IsSound :
      (name : String) (c : CircuitBreakerConfig A) (now : Clock A) (es : List (Event A))
      → HasThresholds c
      → IsSound (run es (new name c now))
  unfolding new
  run-IsSound name c now es t = run-IsSound_from es (new name c now) t (new-IsSound name c now t)
