-- ===== src/Engine.antt =====
-- kalshi_arbitrage/execution/single_leg.py: ExecutionEngine. One call of `execute` runs from its
-- start to its end here; what another task does meanwhile is not interleaved into it. A gateway is
-- an interface over a state `G` of its own (the venue, the network), which `place` may change.
pub mod Halts
pub mod Attempts
pub mod Placements
pub mod Tripped
use kalshi.Common.{
  ℕ, zero, suc, ◌+◌, ◌^◌, Bool, true, false, not, Option, none, some, List, [], ◌∷◌, ◌++◌, String,
  ltb, if◌then◌else◌,
}
use kalshi.Float.{Float}
use kalshi.Config.{Config}
use kalshi.KillSwitch
use kalshi.KillSwitch.{
  Venue, kalshi_venue, polymarket_venue, TripReason, circuit_open, HaltReason, KillSwitch, Disk,
}
use kalshi.Breaker.{CircuitBreakerConfig, CircuitBreaker, Clock, enter, on_success, on_failure}
use kalshi.Breaker.Manager.{Breakers, get_or_create}
use kalshi.Common.{insert}
use kalshi.Order.{
  OrderRequest, OrderOutcome, Seed, is_failed, is_done, ensure_client_order_id, failed_outcome,
  halted_outcome,
}

-- A gateway's `place` returns an outcome or raises an exception, of which the text is kept.
pub data Placement (A : Type 0) : Type 0 where
  returned : OrderOutcome A → Placement A
  raised : String → Placement A

-- The class VenueGateway (execution/venue_gateway.py), as far as the engine calls it.
pub record Gateway (A G : Type 0) : Type 0 where
  pub place : OrderRequest A → G → Placement A × G
  pub cancel : String → G → Bool × G

-- What the engine reads and changes: the kill switch and its disk, the breakers of the process, the
-- state behind the gateways, and the delays slept so far, oldest first.
pub record World (A G : Type 0) : Type 0 where
  pub kill : KillSwitch A
  pub disk : Disk
  pub breakers : Breakers A
  pub gates : G
  pub slept : List A

-- How one attempt ended: with an outcome, or refused by the breaker.
pub data Attempt (A : Type 0) : Type 0 where
  came : OrderOutcome A → Attempt A
  refused : Attempt A

-- `f"exec:{venue}"`
abbrev pub breaker_name : Venue → String
breaker_name kalshi_venue = "exec:kalshi"
breaker_name polymarket_venue = "exec:polymarket"

module _ {A : Type 0} where
  abbrev pub outcome_failed : Placement A → Bool
  outcome_failed (returned o) = is_failed o.status
  outcome_failed (raised e) = true

  abbrev pub with_attempt : ℕ → OrderRequest A → OrderRequest A
  with_attempt n req = record req { meta = record (req.meta) { attempt = some n } }

module _ {A : Type 0} ⦃fl : Float A⦄ where
  -- `self._cb_config`: the thresholds of the settings, the other fields at their defaults.
  abbrev pub cb_config : Config A → CircuitBreakerConfig A
  cb_config cfg = record {
    failure_threshold = cfg.execution_cb_failure_threshold;
    recovery_timeout = cfg.execution_cb_recovery_timeout;
    success_threshold = 3;
    monitoring_window = 300;
    failure_rate_threshold = fl.decimal 5 1;
  }

  -- `except Exception`: what was raised becomes a failed outcome.
  unfoldable pub outcome_of : OrderRequest A → Placement A → OrderOutcome A
  outcome_of req (returned o) = o
  outcome_of req (raised e) = failed_outcome req.venue req.size e req.client_order_id

module _ {A G : Type 0} where
  abbrev pub kill_active : Config A → World A G → Option HaltReason
  kill_active cfg w = KillSwitch.is_active cfg w.disk w.kill

  -- `self.kill_switch.trip(reason)` at the time `t`.
  unfoldable pub trip_kill : A → TripReason → World A G → World A G
  trip_kill t reason w =
      let (k, d) = KillSwitch.trip t reason w.disk w.kill in record w { kill = k; disk = d }

  -- The breaker object is shared with the dict, so what it becomes stands there too.
  unfoldable pub store_breaker : Venue → CircuitBreaker A → World A G → World A G
  store_breaker v b w = record w { breakers = insert (breaker_name v) b w.breakers }

module _ {A G : Type 0} ⦃fl : Float A⦄ where
  -- `breaker.call(_place_counted)`: a returned failure counts as a failure, like a raised one.
  unfoldable pub call_breaker :
      Clock A
      → Clock A
      → Gateway A G
      → OrderRequest A
      → CircuitBreaker A
      → World A G
      → Attempt A × World A G
  unfolding store_breaker outcome_of
  call_breaker at_entry at_exit gateway req b w =
      let (b', through) = enter at_entry b in
      let (p, g) = gateway.place req w.gates in
      if through
      then (
        came (outcome_of req p),
        store_breaker req.venue
            (if outcome_failed p then on_failure at_exit b' else on_success at_exit b')
            (record w { gates = g }),
      )
      else (refused, store_breaker req.venue b' w)

  -- The placement without the breaker, of a risk-reducing order.
  unfoldable pub call_gateway : Gateway A G → OrderRequest A → World A G → Attempt A × World A G
  unfolding outcome_of
  call_gateway gateway req w =
      let (p, g) = gateway.place req w.gates in (came (outcome_of req p), record w { gates = g })

-- The clock of one attempt: the breaker's entry, its exit, and a trip of the kill switch.
pub record AttemptClock (A : Type 0) : Type 0 where
  pub at_entry : Clock A
  pub at_exit : Clock A
  pub at_trip : A

module _ {A G : Type 0} ⦃fl : Float A⦄ (cfg : Config A) (coid_of : Seed A → String)
    (gateways : Venue → Option (Gateway A G)) (clock : ℕ → AttemptClock A) where
  open fl use {mul, of_nat}

  -- `await asyncio.sleep(delay)`, unless this was the last attempt.
  unfoldable pub back_off : ℕ → World A G → World A G
  back_off attempt w =
      if ltb attempt cfg.execution_max_retries
      then record w {
        slept = w.slept ++ mul cfg.execution_retry_base_delay (of_nat (2 ^ attempt)) ∷ [];
      }
      else w

  -- `get_or_create` of the venue's breaker, made when `execute` began.
  unfoldable pub venue_breaker : Venue → World A G → CircuitBreaker A × World A G
  venue_breaker v w =
      let (b, m) = get_or_create (breaker_name v) (cb_config cfg) ((clock 0).at_entry) w.breakers in
      (b, record w { breakers = m })

  -- The `try` of the attempt number `n`.
  unfoldable pub try_place : ℕ → Gateway A G → OrderRequest A → World A G → Attempt A × World A G
  unfolding venue_breaker
  try_place n gateway req w =
      let (b, w') = venue_breaker req.venue w in
      if req.risk_reducing
      then call_gateway gateway req w
      else call_breaker (clock n).at_entry (clock n).at_exit gateway req b w'

  -- The loop, with the rounds left, the number of the attempt and the last outcome.
  unfoldable pub attempts :
      ℕ → ℕ → OrderOutcome A → Gateway A G → OrderRequest A → World A G → OrderOutcome A × World A G
  attempts zero n last gateway req w = (last, w)
  attempts (suc rounds) n last gateway req w =
      let (a, w') = try_place n gateway (with_attempt n req) w in
      elim a [
        | refused ↦ (
          halted_outcome req.venue req.size,
          trip_kill (clock n).at_trip (circuit_open req.venue) w',
        )
        | came o ↦
            let o' : OrderOutcome A = record o { attempts = n + 1 } in
            let rest = attempts rounds (n + 1) o' gateway req (back_off n w') in
            if is_done o' then (o', w') else if o'.retryable then rest else (o', w')
      ]

  -- The part of `execute` behind the kill switch.
  unfoldable pub execute_through : OrderRequest A → String → World A G → OrderOutcome A × World A G
  execute_through req stable_key w = elim (gateways req.venue) [
    | none ↦ (failed_outcome req.venue req.size "no_gateway" none, w)
    | some gateway ↦
        let req' = ensure_client_order_id coid_of (stable_key ∷ []) req in
        let exhausted =
          failed_outcome req.venue req.size "exhausted_retries" req'.client_order_id in
        attempts (suc cfg.execution_max_retries) 0 exhausted gateway req'
          (venue_breaker req.venue w).1
  ]

  unfoldable pub execute : OrderRequest A → String → World A G → OrderOutcome A × World A G
  execute req stable_key w = elim (kill_active cfg w) [
    | none ↦ execute_through req stable_key w
    | some reason ↦
        if req.risk_reducing
        then execute_through req stable_key w
        else (halted_outcome req.venue req.size, w)
  ]

  -- `cancel` of an order on a venue.
  unfoldable pub cancel : Venue → String → World A G → Bool × World A G
  cancel v order_id w = elim (gateways v) [
    | none ↦ (false, w)
    | some gateway ↦
        let (done, g) = gateway.cancel order_id w.gates in (done, record w { gates = g })
  ]
