-- ===== src/Breaker/Manager.antt =====
-- kalshi_arbitrage/circuit_breaker.py: the class CircuitBreakerManager, a dict of breakers by name.
use text.Mathlib.Text.{◌==◌ as str_eq}
use text.Mathlib.TextPositions.{eq_refl}
use kalshi.Common.{
  ℕ, ◌+◌, ◌-◌, ◌≤◌, ◌≡◌, refl, Bool, false, none, some, [], ◌∷◌, String, Dict, lookup, insert,
  lookup-insert, arith, if◌then◌else◌, length, ltb, Option-cases, inl, inr,
}
use kalshi.Float.{Float}
use kalshi.Breaker.{
  CircuitState, CircuitBreakerConfig, CircuitBreaker, Clock, new, reset, is_opened, is_half_open,
}

-- `_breakers`: no name occurs twice, since `get_or_create` alone adds to it.
abbrev pub Breakers : Type 0 → Type 0
Breakers A = Dict (CircuitBreaker A)

module _ {A : Type 0} where
  -- `get_or_create`: the breaker of that name, and the dict after.
  unfoldable pub get_or_create :
      String → CircuitBreakerConfig A → Clock A → Breakers A → CircuitBreaker A × Breakers A
  get_or_create name config now m = elim (lookup name m) [
    | some b ↦ (b, m)
    | none ↦ (new name config now, insert name (new name config now) m)
  ]

  -- `reset_all`: every breaker with clock readings of its own.
  unfoldable pub reset_all : (String → Clock A) → Breakers A → Breakers A
  reset_all now [] = []
  reset_all now ((k, b) ∷ m) = (k, reset (now k) b) ∷ reset_all now m

  pub count_state : (CircuitState → Bool) → Breakers A → ℕ
  count_state p [] = 0
  count_state p ((k, b) ∷ m) = let n = count_state p m in if p b.state then n + 1 else n

pub record HealthStatus (A : Type 0) : Type 0 where
  pub total_services : ℕ
  pub healthy_services : ℕ
  pub degraded_services : ℕ
  pub failed_services : ℕ
  pub health_percentage : A

module _ {A : Type 0} ⦃fl : Float A⦄ where
  open fl use {mul, ratio, of_nat}

  pub get_health_status : Breakers A → HealthStatus A
  get_health_status m =
      let total_breakers = length m in
      let open_breakers = count_state is_opened m in
      record {
        total_services = total_breakers;
        healthy_services = total_breakers - open_breakers;
        degraded_services = count_state is_half_open m;
        failed_services = open_breakers;
        health_percentage =
            if ltb 0 total_breakers
            then mul (ratio (total_breakers - open_breakers) total_breakers) (of_nat 100)
            else of_nat 100;
      }

  states_le_length :
      (m : Breakers A) → count_state is_opened m + count_state is_half_open m ≤ length m
  unfolding count_state
  states_le_length [] = omega arith
  states_le_length ((k, b) ∷ m) = ground (arith, states_le_length m)

  -- The health report adds up: healthy and failed services are all services, and the degraded ones
  -- are among the healthy.
  pub get_health_status_adds_up :
      (m : Breakers A)
      → let h = get_health_status m in
        (h.healthy_services + h.failed_services ≡ h.total_services)
        × (h.degraded_services ≤ h.healthy_services)
  unfolding get_health_status
  get_health_status_adds_up m = omega (arith, states_le_length m)

  opened-reset_all :
      (now : String → Clock A) (m : Breakers A)
      → (count_state is_opened (reset_all now m) ≡ 0)
        × (count_state is_half_open (reset_all now m) ≡ 0)
        × (length (reset_all now m) ≡ length m)
  unfolding count_state reset_all reset
  opened-reset_all now [] = (refl, refl, refl)
  opened-reset_all now ((k, b) ∷ m) = omega (arith, opened-reset_all now m)

  -- After `reset_all` every service is healthy, none is degraded or failed, and none is lost.
  pub get_health_status-reset_all :
      (now : String → Clock A) (m : Breakers A)
      → let h = get_health_status (reset_all now m) in
        (h.healthy_services ≡ length m) × (h.degraded_services ≡ 0) × (h.failed_services ≡ 0)
  unfolding get_health_status
  get_health_status-reset_all now m = omega (arith, opened-reset_all now m)

  pub get_or_create_twice :
      (name : String) (c c' : CircuitBreakerConfig A) (now now' : Clock A) (m : Breakers A)
      → let (b, m') = get_or_create name c now m in get_or_create name c' now' m' ≡ (b, m')
  unfolding get_or_create
  get_or_create_twice name c c' now now' m = elim (Option-cases (lookup name m)) [
    | inl fresh ↦ ground (arith, lookup-insert name name (new name c now) m, eq_refl name)
    | inr (b, known) ↦ ground arith
  ]

  -- A second `get_or_create` of a name returns the same breaker and leaves the dict alone, whatever
  -- configuration it is given; every other name keeps what it had.
  pub get_or_create_again :
      (name other : String) (c c' : CircuitBreakerConfig A) (now now' : Clock A) (m : Breakers A)
      → str_eq name other ≡ false
      → let (b, m') = get_or_create name c now m in
        (get_or_create name c' now' m' ≡ (b, m')) × (lookup other m' ≡ lookup other m)
  unfolding get_or_create
  get_or_create_again name other c c' now now' m ne = (
    get_or_create_twice name c c' now now' m,
    elim (Option-cases (lookup name m)) [
      | inl fresh ↦ ground (arith, lookup-insert name other (new name c now) m)
      | inr (b, known) ↦ ground arith
    ],
  )
