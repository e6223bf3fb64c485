-- ===== src/Breaker/Window.antt =====
-- kalshi_arbitrage/circuit_breaker.py: the failure window, `_check_failure_rate` and recovery.
use kalshi.Common.{
  ℕ, ◌+◌, ◌≤◌, ◌<◌, ◌≡◌, ◌↔◌, List, [], ◌∷◌, arith, true, false, length, filter, length-filter,
}
use kalshi.Float.{Float, FloatOrder, FloatArith}
use kalshi.Breaker.{
  closed, opened, half_open, CircuitBreaker, Clock, on_success, check_failure_rate,
  should_attempt_reset, enter, within_window,
}

-- The failures that `_check_failure_rate` counts, when it reads the clock as `t`.
abbrev pub recent : {A : Type 0} ⦃fl : Float A⦄ → A → CircuitBreaker A → ℕ
recent t b = length (within_window b.config t b.stats.failure_timestamps)

module _ {A : Type 0} ⦃fl : Float A⦄ (order : FloatOrder fl) where
  open fl use {lt, le, sub, of_nat, ratio}

  -- A later cutoff keeps no more timestamps.
  length-filter_antitone :
      (c d : A) (xs : List A)
      → le c d ≡ true
      → length (filter (lt d) xs) ≤ length (filter (lt c) xs)
  length-filter_antitone c d [] h = omega arith
  length-filter_antitone c d (x ∷ xs) h =
      ground (arith, length-filter_antitone c d xs h, order.lt_of_le_of_lt c d x)

  recent_antitone :
      (arithmetic : FloatArith fl) (s t : A) (b : CircuitBreaker A)
      → le s t ≡ true
      → recent t b ≤ recent s b
  unfolding within_window
  recent_antitone arithmetic s t b h =
      let w = b.config.monitoring_window in
      length-filter_antitone (sub s (of_nat w)) (sub t (of_nat w)) b.stats.failure_timestamps
        (arithmetic.sub_mono s t w h)

  -- The rate in the window is never below 1, so a threshold of at most 1 is always met.
  rate_met :
      (arithmetic : FloatArith fl) (s t : A) (b : CircuitBreaker A)
      → le b.config.failure_rate_threshold (of_nat 1) ≡ true
      → le s t ≡ true
      → 0 < recent t b
      → le b.config.failure_rate_threshold (ratio (recent s b) (recent t b)) ≡ true
  rate_met arithmetic s t b r m p =
      order.le_trans _ _ _ r
        (arithmetic.one-le-ratio (recent t b) (recent s b) p (recent_antitone arithmetic s t b m))

  recent_le_length : (t : A) (b : CircuitBreaker A) → recent t b ≤ length b.stats.failure_timestamps
  unfolding within_window
  recent_le_length t b = length-filter _ b.stats.failure_timestamps

  -- With a failure rate threshold of at most 1 and a clock that does not go back, a closed breaker
  -- opens in `_check_failure_rate` exactly when the window holds the threshold of failures (and at
  -- least one at its second reading of the clock): how many calls succeeded does not matter.
  pub check_failure_rate-opens :
      (arithmetic : FloatArith fl) (now : Clock A) (b : CircuitBreaker A)
      → b.state ≡ closed
      → le b.config.failure_rate_threshold (of_nat 1) ≡ true
      → le (now 0) (now 1) ≡ true
      → ((check_failure_rate now b).state ≡ opened)
        ↔ ((b.config.failure_threshold ≤ recent (now 0) b) × (0 < recent (now 1) b))
  unfolding check_failure_rate
  check_failure_rate-opens arithmetic now b c r m = (
    λ e. ground arith,
    λ h. ground (arith, rate_met arithmetic (now 0) (now 1) b r m h.1, recent_le_length (now 1) b),
  )

  enter_refuses :
      (now : Clock A) (b : CircuitBreaker A)
      → (check_failure_rate now b).state ≡ opened
      → b.state ≡ closed
      → le (of_nat b.config.recovery_timeout) (sub (now 3) (now 2)) ≡ false
      → ((enter now b).1 ≡ false) × ((enter now b).0.state ≡ opened)
  unfolding enter check_failure_rate should_attempt_reset
  enter_refuses now b o c w = ground arith

  on_success_closes :
      (now : Clock A) (b : CircuitBreaker A)
      → b.state ≡ half_open
      → b.config.success_threshold ≤ b.stats.consecutive_successes + 1
      → ((on_success now b).state ≡ closed)
        × ((on_success now b).config ≡ b.config)
        × ((on_success now b).stats.failure_timestamps ≡ b.stats.failure_timestamps)
  unfolding on_success
  on_success_closes now b c s = ground arith

  -- A half-open breaker that has its last required success closes, and the next call is refused
  -- nevertheless if the window still holds the threshold of failures: closing keeps the timestamps.
  -- Here the failure rate threshold is at most 1, the clock does not go back, and the recovery
  -- timeout is longer than the time between two readings of the clock in that call.
  pub recovered_reopens :
      (arithmetic : FloatArith fl) (now now' : Clock A) (b : CircuitBreaker A)
      → b.state ≡ half_open
      → b.config.success_threshold ≤ b.stats.consecutive_successes + 1
      → le b.config.failure_rate_threshold (of_nat 1) ≡ true
      → le (now' 0) (now' 1) ≡ true
      → b.config.failure_threshold ≤ recent (now' 0) b
      → 0 < recent (now' 1) b
      → le (of_nat b.config.recovery_timeout) (sub (now' 3) (now' 2)) ≡ false
      → ((on_success now b).state ≡ closed)
        × ((enter now' (on_success now b)).1 ≡ false)
        × ((enter now' (on_success now b)).0.state ≡ opened)
  recovered_reopens arithmetic now now' b c s r m f p w =
      let b' = on_success now b in
      let (c', k, t) = on_success_closes now b c s in
      let o = (check_failure_rate-opens arithmetic now' b' c' (rw k r) m).1 (rw (k, t) (f, p)) in
      let (refused, still) = enter_refuses now' b' o c' (rw k w) in (c', refused, still)
