-- ===== src/Engine/Halts.antt =====
-- kalshi_arbitrage/execution/single_leg.py: the engine and the kill switch.
use kalshi.Common.{
  ℕ, zero, suc, ◌+◌, ◌≡◌, ◌≢◌, ◌∙◌, refl, inl, inr, true, false, Option, none, some, [], ◌∷◌,
  String, arith, if◌then◌else◌, ap,
}
use kalshi.Float.{Float}
use kalshi.Config.{Config}
use kalshi.KillSwitch
use kalshi.KillSwitch.{Venue, circuit_open}
use kalshi.Breaker.{enter}
use kalshi.Breaker.Manager.{get_or_create_twice}
use kalshi.Order.{
  OrderRequest, OrderOutcome, Seed, halted_outcome, failed_outcome, ensure_client_order_id,
}
use kalshi.Engine.{
  Gateway, World, AttemptClock, refused, outcome_of, with_attempt, back_off, venue_breaker,
  try_place, trip_kill, attempts, execute, call_breaker, kill_active, execute_through, breaker_name,
  cb_config,
}
use kalshi.Engine.Placements.{
  wants_retry, attempts-zero, attempts-cases, gates-back_off, gates-venue_breaker, after_attempt,
  counted_outcome,
}

module _ {A G : Type 0} ⦃fl : Float A⦄ where
  -- The retry loop with nothing but the gateway: no kill switch, no breaker, no delays.
  unfoldable pub plain_attempts :
      ℕ → ℕ → OrderOutcome A → Gateway A G → OrderRequest A → G → OrderOutcome A × G
  plain_attempts zero n last gateway req g = (last, g)
  plain_attempts (suc rounds) n last gateway req g =
      let (p, g') = gateway.place (with_attempt n req) g in
      let o' : OrderOutcome A = record (outcome_of (with_attempt n req) p) { attempts = n + 1 } in
      let rest = plain_attempts rounds (n + 1) o' gateway req g' in
      if wants_retry (with_attempt n req) p then rest else (o', g')

module _ {A G : Type 0} ⦃fl : Float A⦄ (cfg : Config A) (coid_of : Seed A → String)
    (gateways : Venue → Option (Gateway A G)) (clock : ℕ → AttemptClock A) where
  attempts-reducing :
      (rounds n : ℕ) (last : OrderOutcome A) (gateway : Gateway A G) (req : OrderRequest A)
      (w : World A G) (g : G)
      → req.risk_reducing ≡ true
      → w.gates ≡ g
      → let (o, w') = attempts cfg coid_of gateways clock rounds n last gateway req w in
        (o, w'.gates) ≡ plain_attempts rounds n last gateway req g
  unfolding plain_attempts
  attempts-reducing zero n last gateway req w g h e =
      rw (attempts-zero cfg coid_of gateways clock n last gateway req w) (ground arith)
  attempts-reducing (suc rounds) n last gateway req w g h e =
      let w' = after_attempt cfg coid_of gateways clock n gateway req w in
      let o' = counted_outcome cfg coid_of gateways clock n gateway req w in
      let w'' = back_off cfg coid_of gateways clock n w' in
      let same = gates-back_off cfg coid_of gateways clock n w' in
      elim (attempts-cases cfg coid_of gateways clock rounds n last gateway req w) [
        | inl (k, u, r) ↦ cc
        | inr (inl (k, stop, r)) ↦ ground arith
        | inr (inr (k, again, r)) ↦ ground (
          arith,
          attempts-reducing rounds (n + 1) o' gateway req w''
              (gateway.place (with_attempt n req) w.gates).1 h (same ∙ k),
        )
      ]

  -- A risk-reducing order is executed as the plain retry loop on its gateway: its outcome and what
  -- it does behind the gateways are the same whether the kill switch is active or not and whatever
  -- the breakers say.
  pub execute-reducing :
      (gateway : Gateway A G) (req : OrderRequest A) (stable_key : String) (w : World A G)
      → gateways req.venue ≡ some gateway
      → req.risk_reducing ≡ true
      → let (o, w') = execute cfg coid_of gateways clock req stable_key w in
        let req' = ensure_client_order_id coid_of (stable_key ∷ []) req in
        (o, w'.gates)
        ≡ plain_attempts
            (suc cfg.execution_max_retries)
            0
            (failed_outcome req.venue req.size "exhausted_retries" req'.client_order_id)
            gateway
            req'
            w.gates
  unfolding execute execute_through ensure_client_order_id
  execute-reducing gateway req stable_key w known h =
      let req' = ensure_client_order_id coid_of (stable_key ∷ []) req in
      ground (
        arith,
        attempts-reducing (suc cfg.execution_max_retries) 0
            (failed_outcome req.venue req.size "exhausted_retries" req'.client_order_id) gateway
            req' (venue_breaker cfg coid_of gateways clock req.venue w).1 w.gates (ground arith)
            (gates-venue_breaker cfg coid_of gateways clock req.venue w),
      )

  -- While the switch is active an order that is not risk-reducing is halted and changes nothing.
  execute-active :
      (req : OrderRequest A) (stable_key : String) (w : World A G)
      → kill_active cfg w ≢ none
      → req.risk_reducing ≡ false
      → execute cfg coid_of gateways clock req stable_key w ≡ (halted_outcome req.venue req.size, w)
  unfolding execute
  execute-active req stable_key w active h = ground arith

  trip_kill-active :
      (t : A) (v : Venue) (w : World A G)
      → (kill_active cfg (trip_kill t (circuit_open v) w) ≢ none)
        × ((trip_kill t (circuit_open v) w).kill.reason ≡ some (circuit_open v))
        × ((trip_kill t (circuit_open v) w).gates ≡ w.gates)
  unfolding trip_kill KillSwitch.trip KillSwitch.is_active
  trip_kill-active t v w = ground arith

  venue_breaker_twice :
      (v : Venue) (w : World A G)
      → let (b, w') = venue_breaker cfg coid_of gateways clock v w in
        venue_breaker cfg coid_of gateways clock v w' ≡ (b, w')
  unfolding venue_breaker
  venue_breaker_twice v w =
      ap (λ r. (r.0, record w { breakers = r.1 }))
        (get_or_create_twice (breaker_name v) (cb_config cfg) (cb_config cfg) ((clock 0).at_entry)
          ((clock 0).at_entry) w.breakers)

  try_place-refused :
      (gateway : Gateway A G) (req : OrderRequest A) (w : World A G)
      → req.risk_reducing ≡ false
      → (enter ((clock 0).at_entry) (venue_breaker cfg coid_of gateways clock req.venue w).0).1
        ≡ false
      → let (a, w') = try_place cfg coid_of gateways clock 0 gateway req w in
        (a ≡ refused) × (w'.gates ≡ w.gates)
  unfolding try_place call_breaker
  try_place-refused gateway req w h e = ground arith

  attempts-refused :
      (rounds : ℕ) (last : OrderOutcome A) (gateway : Gateway A G) (req : OrderRequest A)
      (w : World A G)
      → let (a, w') = try_place cfg coid_of gateways clock 0 gateway (with_attempt 0 req) w in
        a ≡ refused
        → attempts cfg coid_of gateways clock (suc rounds) 0 last gateway req w ≡ (
          halted_outcome req.venue req.size,
          trip_kill ((clock 0).at_trip) (circuit_open req.venue) w',
        )
  unfolding attempts
  attempts-refused rounds last gateway req w e = ground arith

  -- What execution comes to when the switch is not active.
  execute-idle :
      (gateway : Gateway A G) (req : OrderRequest A) (stable_key : String) (w : World A G)
      → gateways req.venue ≡ some gateway
      → kill_active cfg w ≡ none
      → let req' = ensure_client_order_id coid_of (stable_key ∷ []) req in
        execute cfg coid_of gateways clock req stable_key w
        ≡ attempts cfg coid_of gateways clock
            (suc cfg.execution_max_retries)
            0
            (failed_outcome req.venue req.size "exhausted_retries" req'.client_order_id)
            gateway
            req'
            (venue_breaker cfg coid_of gateways clock req.venue w).1
  unfolding execute execute_through
  execute-idle gateway req stable_key w known idle = ground arith

  ensure-keeps :
      (key : String) (req : OrderRequest A)
      → let req' = ensure_client_order_id coid_of (key ∷ []) req in
        (req'.venue ≡ req.venue) × (req'.size ≡ req.size) × (req'.risk_reducing ≡ req.risk_reducing)
  unfolding ensure_client_order_id
  ensure-keeps key req = ground arith

  -- An idle engine whose breaker for the venue refuses: the outcome and the world after.
  execute-refused :
      (gateway : Gateway A G) (req : OrderRequest A) (key : String) (w : World A G)
      → gateways req.venue ≡ some gateway
      → kill_active cfg w ≡ none
      → req.risk_reducing ≡ false
      → (enter ((clock 0).at_entry) (venue_breaker cfg coid_of gateways clock req.venue w).0).1
        ≡ false
      → (w' : World A G) × (w'.gates ≡ w.gates)
        × (execute cfg coid_of gateways clock req key w ≡ (
          halted_outcome req.venue req.size,
          trip_kill ((clock 0).at_trip) (circuit_open req.venue) w',
        ))
  execute-refused gateway req key w known idle opening refusing =
      let req' = with_attempt 0 (ensure_client_order_id coid_of (key ∷ []) req) in
      let (v, s, u) = ensure-keeps key req in
      let (b, w₀) = venue_breaker cfg coid_of gateways clock req.venue w in
      let refuses =
        ap (λ r. (enter ((clock 0).at_entry) r.0).1) (venue_breaker_twice req.venue w) in
      let (a, same) = try_place-refused gateway req' w₀ (u ∙ opening) (rw v (refuses ∙ refusing)) in
      (
        (try_place cfg coid_of gateways clock 0 gateway req' w₀).1,
        same ∙ gates-venue_breaker cfg coid_of gateways clock req.venue w,
        rw (execute-idle gateway req key w known idle) (
            rw (attempts-refused _ _ gateway (ensure_client_order_id coid_of (key ∷ []) req) w₀ a)
              (rw (v, s))),
      )

  -- A breaker that refuses the first attempt of an order halts the desk: no gateway is called, the
  -- kill switch is tripped with the venue as its reason, and any later order that is not
  -- risk-reducing, on whatever venue, is halted and changes nothing.
  pub refused_halts_all :
      (gateway : Gateway A G) (req later : OrderRequest A) (key key' : String) (w : World A G)
      → gateways req.venue ≡ some gateway
      → kill_active cfg w ≡ none
      → req.risk_reducing ≡ false
      → (enter ((clock 0).at_entry) (venue_breaker cfg coid_of gateways clock req.venue w).0).1
        ≡ false
      → later.risk_reducing ≡ false
      → let (o, w') = execute cfg coid_of gateways clock req key w in
        (o ≡ halted_outcome req.venue req.size)
        × (w'.gates ≡ w.gates)
        × (w'.kill.reason ≡ some (circuit_open req.venue))
        × (execute cfg coid_of gateways clock later key' w'
            ≡ (halted_outcome later.venue later.size, w'))
  refused_halts_all gateway req later key key' w known idle opening refusing opening' =
      let (w', same, e) = execute-refused gateway req key w known idle opening refusing in
      let (active, reason, gates) = trip_kill-active ((clock 0).at_trip) req.venue w' in
      rw e (refl, gates ∙ same, reason, execute-active later key' _ active opening')
