-- ===== src/Breaker.antt =====
-- kalshi_arbitrage/circuit_breaker.py: the class CircuitBreaker. A method that changes the object
-- returns the new record. `now i` is the clock at the method's i-th mention of `time.time()`; one
-- that is not reached leaves its reading unused. `call` is split where it awaits: `enter` runs under
-- the lock, then the protected function, and then `on_success` or `on_failure` under the lock again;
-- calls of several tasks interleave between.
pub mod Counting
pub mod Window
pub mod Phases
pub mod Manager
pub mod Report
use kalshi.Common.{
  ℕ, ◌+◌, Bool, true, false, ◌&&◌, Option, none, some, List, [], ◌∷◌, ◌++◌, map, String, ltb, leb,
  if◌then◌else◌, length, filter,
}
use kalshi.Float.{Float}

pub data CircuitState : Type 0 where
  closed : CircuitState  -- normal operation
  opened : CircuitState  -- `OPEN`: calls are blocked
  half_open : CircuitState  -- testing whether the service recovered

pub record CircuitBreakerConfig (A : Type 0) : Type 0 where
  pub failure_threshold : ℕ
  pub recovery_timeout : ℕ
  pub success_threshold : ℕ
  pub monitoring_window : ℕ
  pub failure_rate_threshold : A

pub record CircuitBreakerStats (A : Type 0) : Type 0 where
  pub total_calls : ℕ
  pub successful_calls : ℕ
  pub failed_calls : ℕ
  pub circuit_opens : ℕ
  pub last_failure_time : Option A
  pub last_success_time : Option A
  pub consecutive_failures : ℕ
  pub consecutive_successes : ℕ
  pub failure_timestamps : List A

-- `handlers` are the registered callbacks, by number, and `notified` the calls made of them, oldest
-- first. What a callback raises is caught, so its effect on the breaker is none.
pub record CircuitBreaker (A : Type 0) : Type 0 where
  pub name : String
  pub config : CircuitBreakerConfig A
  pub state : CircuitState
  pub stats : CircuitBreakerStats A
  pub state_changed_at : A
  pub handlers : List ℕ
  pub notified : List (ℕ × CircuitState)

abbrev pub is_closed : CircuitState → Bool
is_closed closed = true
is_closed _ = false

abbrev pub is_opened : CircuitState → Bool
is_opened opened = true
is_opened _ = false

abbrev pub is_half_open : CircuitState → Bool
is_half_open half_open = true
is_half_open _ = false

-- The sequence of clock readings of one method.
abbrev pub Clock : Type 0 → Type 0
Clock A = ℕ → A

module _ {A : Type 0} where
  -- `CircuitBreakerStats()`
  abbrev pub no_stats : CircuitBreakerStats A
  no_stats = record {
    total_calls = 0;
    successful_calls = 0;
    failed_calls = 0;
    circuit_opens = 0;
    last_failure_time = none;
    last_success_time = none;
    consecutive_failures = 0;
    consecutive_successes = 0;
    failure_timestamps = [];
  }

  -- `CircuitBreaker(name, config)`
  unfoldable pub new : String → CircuitBreakerConfig A → Clock A → CircuitBreaker A
  new name config now = record {
    name = name;
    config = config;
    state = closed;
    stats = no_stats;
    state_changed_at = now 0;
    handlers = [];
    notified = [];
  }

  unfoldable pub notify_state_change : CircuitState → CircuitBreaker A → CircuitBreaker A
  notify_state_change s b = record b { notified = b.notified ++ map (λ h. (h, s)) b.handlers }

  unfoldable pub add_state_change_handler : ℕ → CircuitBreaker A → CircuitBreaker A
  add_state_change_handler h b = record b { handlers = b.handlers ++ h ∷ [] }

  -- The three transitions take the time of the change.
  unfoldable pub transition_to_closed : A → CircuitBreaker A → CircuitBreaker A
  unfolding notify_state_change
  transition_to_closed t b = notify_state_change closed (record b {
    state = closed;
    state_changed_at = t;
    stats = record (b.stats) { consecutive_failures = 0 };
  })

  unfoldable pub transition_to_open : A → CircuitBreaker A → CircuitBreaker A
  unfolding notify_state_change
  transition_to_open t b = notify_state_change opened (record b {
    state = opened;
    state_changed_at = t;
    stats = record (b.stats) { circuit_opens = b.stats.circuit_opens + 1 };
  })

  unfoldable pub transition_to_half_open : A → CircuitBreaker A → CircuitBreaker A
  unfolding notify_state_change
  transition_to_half_open t b = notify_state_change half_open (record b {
    state = half_open;
    state_changed_at = t;
    stats = record (b.stats) { consecutive_successes = 0 };
  })

  unfoldable pub on_success : Clock A → CircuitBreaker A → CircuitBreaker A
  unfolding transition_to_closed
  on_success now b =
      let s = b.stats in
      let b' : CircuitBreaker A = record b {
        stats = record s {
          total_calls = s.total_calls + 1;
          successful_calls = s.successful_calls + 1;
          consecutive_successes = s.consecutive_successes + 1;
          consecutive_failures = 0;
          last_success_time = some (now 0);
        };
      } in
      if is_half_open b'.state
      then if leb b'.config.success_threshold b'.stats.consecutive_successes
        then transition_to_closed (now 1) b'
        else b'
      else b'

  unfoldable pub reset : Clock A → CircuitBreaker A → CircuitBreaker A
  reset now b = record b {
    state = closed;
    state_changed_at = now 0;
    stats = record (b.stats) { consecutive_failures = 0; consecutive_successes = 0 };
  }

module _ {A : Type 0} ⦃fl : Float A⦄ where
  open fl use {sub, lt, le, of_nat, ratio}

  -- The timestamps after `t - monitoring_window`.
  unfoldable pub within_window : CircuitBreakerConfig A → A → List A → List A
  within_window c t =
      let cutoff_time = sub t (of_nat c.monitoring_window) in filter (lt cutoff_time)

  unfoldable pub on_failure : Clock A → CircuitBreaker A → CircuitBreaker A
  unfolding transition_to_open
  on_failure now b =
      let s = b.stats in
      let b' : CircuitBreaker A = record b {
        stats = record s {
          total_calls = s.total_calls + 1;
          failed_calls = s.failed_calls + 1;
          consecutive_failures = s.consecutive_failures + 1;
          consecutive_successes = 0;
          last_failure_time = some (now 0);
          failure_timestamps = within_window b.config (now 2) (s.failure_timestamps ++ now 1 ∷ []);
        };
      } in
      if is_half_open b'.state
      then transition_to_open (now 3) b'
      else if is_closed b'.state
      then if leb b'.config.failure_threshold b'.stats.consecutive_failures
        then transition_to_open (now 3) b'
        else b'
      else b'

  unfoldable pub check_failure_rate : Clock A → CircuitBreaker A → CircuitBreaker A
  unfolding transition_to_open
  check_failure_rate now b =
      let stamps = b.stats.failure_timestamps in
      let recent_failures = length (within_window b.config (now 0) stamps) in
      let total_in_window = length (within_window b.config (now 1) stamps) in
      if ltb 0 (length stamps)
      then if leb b.config.failure_threshold recent_failures
        then if ltb 0 total_in_window
          then if le b.config.failure_rate_threshold (ratio recent_failures total_in_window)
            then if is_closed b.state then transition_to_open (now 2) b else b
            else b
          else b
        else b
      else b

  unfoldable pub should_attempt_reset : A → CircuitBreaker A → Bool
  should_attempt_reset t b = le (of_nat b.config.recovery_timeout) (sub t b.state_changed_at)

  -- The part of `call` before the protected function: the breaker after it, and whether the call
  -- goes through. `false` is `CircuitOpenError`.
  unfoldable pub enter : Clock A → CircuitBreaker A → CircuitBreaker A × Bool
  unfolding transition_to_half_open
  enter now b =
      let b' = check_failure_rate now b in
      if is_opened b'.state
      then if should_attempt_reset (now 3) b'
        then (transition_to_half_open (now 4) b', true)
        else (b', false)
      else (b', true)
