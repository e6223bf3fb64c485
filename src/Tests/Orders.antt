-- ===== src/Tests/Orders.antt =====
-- Concrete runs of the kill switch and the execution engine.
use kalshi.Common.{◌+◌, ◌≤◌, ◌≡◌, ◌⊎◌, refl, some, [], ◌∷◌}
use kalshi.Float.Fixed.{fixed}
use kalshi.KillSwitch
use kalshi.KillSwitch.{given, kalshi_venue, circuit_open, untripped}
use kalshi.Breaker.{enter, check_failure_rate, should_attempt_reset, within_window}
use kalshi.Breaker.Manager.{get_or_create}
use kalshi.Common.{lookup}
use kalshi.Order.{halted_outcome, failed_outcome, ensure_client_order_id}
use kalshi.Engine.{execute, venue_breaker}
use kalshi.Engine.Attempts.{execute-calls}
use kalshi.Engine.Halts.{plain_attempts, execute-reducing, refused_halts_all}
use kalshi.Tests.Data.{
  whole, cfg, idle_world, open_world, failing_gateway, filling_gateway, all_fail, all_fill,
  attempt_clock, coid_of, order, reducing,
}

-- The default settings retry twice.
execute-calls_example :
    let (o, w') = execute cfg coid_of all_fail attempt_clock reducing "opp-1:hedge" idle_world in
    (w'.gates ≤ 3) × ((o ≡ halted_outcome kalshi_venue (whole 10)) ⊎ (w'.gates ≡ 0 + o.attempts))
execute-calls_example =
    execute-calls cfg coid_of all_fail attempt_clock (λ g. g) failing_gateway (λ req g. refl)
      reducing "opp-1:hedge" idle_world refl

execute-reducing_example :
    let (o, w') = execute cfg coid_of all_fill attempt_clock reducing "opp-1:hedge" open_world in
    let req' = ensure_client_order_id coid_of ("opp-1:hedge" ∷ []) reducing in
    (o, w'.gates)
    ≡ plain_attempts 3 0
        (failed_outcome kalshi_venue (whole 10) "exhausted_retries" req'.client_order_id)
        filling_gateway
        req'
        0
execute-reducing_example =
    execute-reducing cfg coid_of all_fill attempt_clock filling_gateway reducing "opp-1:hedge"
      open_world refl refl

refused_halts_all_example :
    let (o, w') = execute cfg coid_of all_fill attempt_clock order "opp-1:buy" open_world in
    (o ≡ halted_outcome kalshi_venue (whole 10))
    × (w'.gates ≡ 0)
    × (w'.kill.reason ≡ some (circuit_open kalshi_venue))
    × (execute cfg coid_of all_fill attempt_clock order "opp-2:buy" w'
        ≡ (halted_outcome kalshi_venue (whole 10), w'))
unfolding KillSwitch.is_active enter check_failure_rate should_attempt_reset venue_breaker
    get_or_create lookup within_window
refused_halts_all_example =
    refused_halts_all cfg coid_of all_fill attempt_clock filling_gateway order order "opp-1:buy"
      "opp-2:buy" open_world refl refl refl refl refl
