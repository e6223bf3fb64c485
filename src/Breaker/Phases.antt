-- ===== src/Breaker/Phases.antt =====
-- kalshi_arbitrage/circuit_breaker.py: how the state of a breaker moves over interleaved calls.
use kalshi.Common.{ℕ, ◌+◌, ◌-◌, ◌≤◌, ◌≡◌, ◌∙◌, refl, Bool, true, false, List, [], ◌∷◌, arith}
use kalshi.Float.{Float}
use kalshi.Breaker.{
  CircuitState, closed, opened, half_open, CircuitBreakerConfig, CircuitBreaker, Clock,
  add_state_change_handler, on_success, reset, on_failure, check_failure_rate, should_attempt_reset,
  enter,
}
use kalshi.Breaker.Counting.{
  Event, entering, succeeding, failing, resetting, adding_handler, step, run, step-config,
}

abbrev pub is_reset : {A : Type 0} → Event A → Bool
is_reset (resetting now) = true
is_reset _ = false

-- The successes among the events.
abbrev pub successes : {A : Type 0} → List (Event A) → ℕ
successes [] = 0
successes (succeeding now ∷ es) = successes es + 1
successes (_ ∷ es) = successes es

-- No manual reset is among the events.
abbrev pub NoReset : {A : Type 0} → List (Event A) → Type 0
NoReset [] = Unit {0}
NoReset (e ∷ es) = (is_reset e ≡ false) × NoReset es

-- The successes that a breaker is still away from being closed.
abbrev missing_of : CircuitState → ℕ → ℕ → ℕ
missing_of closed threshold streak = 0
missing_of opened threshold streak = threshold
missing_of half_open threshold streak = threshold - streak

abbrev missing : {A : Type 0} → CircuitBreaker A → ℕ
missing b = missing_of b.state b.config.success_threshold b.stats.consecutive_successes

module _ {A : Type 0} ⦃fl : Float A⦄ where
  open fl use {le, sub, of_nat}

  missing-check_failure_rate :
      (now : Clock A) (b : CircuitBreaker A) → missing b ≤ missing (check_failure_rate now b)
  unfolding check_failure_rate
  missing-check_failure_rate now b = ground arith

  missing-enter : (now : Clock A) (b : CircuitBreaker A) → missing b ≤ missing (enter now b).0
  unfolding enter
  missing-enter now b = ground (arith, missing-check_failure_rate now b)

  missing-step :
      (e : Event A) (b : CircuitBreaker A)
      → is_reset e ≡ false
      → missing b ≤ missing (step e b) + successes (e ∷ [])
  unfolding step on_success on_failure reset add_state_change_handler
  missing-step (entering now) b h = omega (arith, missing-enter now b)
  missing-step (succeeding now) b h = ground arith
  missing-step (failing now) b h = ground arith
  missing-step (resetting now) b h = cc
  missing-step (adding_handler n) b h = omega arith

  successes-cons :
      (e : Event A) (es : List (Event A)) → successes (e ∷ es) ≡ successes es + successes (e ∷ [])
  successes-cons (entering now) es = omega arith
  successes-cons (succeeding now) es = omega arith
  successes-cons (failing now) es = omega arith
  successes-cons (resetting now) es = omega arith
  successes-cons (adding_handler n) es = omega arith

  missing-run :
      (es : List (Event A)) (b : CircuitBreaker A)
      → NoReset es
      → missing b ≤ missing (run es b) + successes es
  unfolding run
  missing-run [] b h = omega arith
  missing-run (e ∷ es) b h =
      omega (arith, missing-step e b h.0, missing-run es (step e b) h.1, successes-cons e es)

  -- An open breaker that is closed again, without a manual reset, has seen at least its success
  -- threshold of successful calls since, whatever other events came between.
  pub closing_needs_successes :
      (es : List (Event A)) (b : CircuitBreaker A)
      → b.state ≡ opened
      → NoReset es
      → (run es b).state ≡ closed
      → b.config.success_threshold ≤ successes es
  closing_needs_successes es b o h c = ground (arith, missing-run es b h)

  -- An entry reads the clock before the recovery timeout has passed since `t`; no event resets.
  abbrev pub IsEarly : CircuitBreakerConfig A → A → Event A → Type 0
  IsEarly c t (entering now) = le (of_nat c.recovery_timeout) (sub (now 3) t) ≡ false
  IsEarly c t (resetting now) = ⊥
  IsEarly c t _ = Unit {0}

  abbrev pub AllEarly : CircuitBreakerConfig A → A → List (Event A) → Type 0
  AllEarly c t [] = Unit {0}
  AllEarly c t (e ∷ es) = IsEarly c t e × AllEarly c t es

  check_failure_rate-opened :
      (now : Clock A) (b : CircuitBreaker A) → b.state ≡ opened → check_failure_rate now b ≡ b
  unfolding check_failure_rate
  check_failure_rate-opened now b o = ground arith

  enter_early :
      (now : Clock A) (b : CircuitBreaker A)
      → b.state ≡ opened
      → le (of_nat b.config.recovery_timeout) (sub (now 3) b.state_changed_at) ≡ false
      → enter now b ≡ (b, false)
  unfolding enter should_attempt_reset
  enter_early now b o h = rw (check_failure_rate-opened now b o) (ground arith)

  opened-step :
      (e : Event A) (b : CircuitBreaker A)
      → b.state ≡ opened
      → IsEarly b.config b.state_changed_at e
      → ((step e b).state ≡ opened) × ((step e b).state_changed_at ≡ b.state_changed_at)
  unfolding step on_success on_failure add_state_change_handler
  opened-step (entering now) b o h = ground (arith, enter_early now b o h)
  opened-step (succeeding now) b o h = ground arith
  opened-step (failing now) b o h = ground arith
  opened-step (resetting now) b o h = absurd h
  opened-step (adding_handler n) b o h = (o, refl)

  opened-run :
      (es : List (Event A)) (b : CircuitBreaker A)
      → b.state ≡ opened
      → AllEarly b.config b.state_changed_at es
      → ((run es b).state ≡ opened)
        × ((run es b).state_changed_at ≡ b.state_changed_at)
        × ((run es b).config ≡ b.config)
  unfolding run
  opened-run [] b o h = (o, refl, refl)
  opened-run (e ∷ es) b o h =
      let (o', t) = opened-step e b o h.0 in
      let (o'', t', c) = opened-run es (step e b) o' (rw (t, step-config e b) h.1) in
      (o'', t' ∙ t, c ∙ step-config e b)

  -- From its opening until the recovery timeout has passed, a breaker refuses every call and is
  -- left unchanged by it, after any earlier entries, successes and failures in that time.
  pub opened_refuses :
      (es : List (Event A)) (now : Clock A) (b : CircuitBreaker A)
      → b.state ≡ opened
      → AllEarly b.config b.state_changed_at es
      → IsEarly b.config b.state_changed_at (entering now)
      → enter now (run es b) ≡ (run es b, false)
  opened_refuses es now b o h w =
      let (o', t, c) = opened-run es b o h in enter_early now (run es b) o' (rw (t, c) w)
