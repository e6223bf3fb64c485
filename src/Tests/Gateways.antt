-- ===== src/Tests/Gateways.antt =====
-- Concrete runs of the live gateways and the Kalshi client.
use kalshi.Common.{
  ℕ, ◌+◌, ◌≤◌, ◌≡◌, ◌⊎◌, refl, true, false, Option, none, some, List, [], ◌∷◌, arith,
}
use kalshi.Common.Int.{ℤ, pos, ltb_ℤ}
use kalshi.Float.Fixed.{fixed, fixed-FloatOrder}
use kalshi.Config.{gtc}
use kalshi.KillSwitch.{Venue, kalshi_venue}
use kalshi.LiveLock.{is_armed, arm_token_present, env_carries, file_carries}
use kalshi.Order.{is_done, ensure_client_order_id}
use kalshi.Engine.{Gateway, execute, outcome_of}
use kalshi.Engine.Placements.{wants_retry}
use kalshi.Gateways.{Call, gave, Net, Timer}
use kalshi.Books.Polymarket.{or_zero}
use kalshi.Gateways.Timeouts.{timeout_retries_unfilled}
use kalshi.Gateways.Resting.{resting_order_retried}
use kalshi.Gateways.Polymarket.Fills.{parse_fill}
use kalshi.Gateways.Poll.{is_final, poll_round, poll_until, backoff_poll, backoff_poll_ends}
use kalshi.Gateways.Kalshi.{
  KalshiOrder, kalshi_gateway, refreshed, price_or, follow, after_timeout, outcome_from_order,
  report_outcome, poll_order,
}
use kalshi.Gateways.Polymarket.{
  poly_gateway, poll_resting, is_ambiguous_error, handle_poly_response,
}
use kalshi.Gateways.Live.{gateway_for, locked_execute_sends_nothing}
use kalshi.Gateways.Doubt.{Settled, SettledBefore, execute_stops_in_doubt}
use kalshi.Gateways.Outcomes.{Tells}
use kalshi.Gateways.Outcomes.Both.{gateway_for-Tells}
use kalshi.Clients.{OrderBody, kalshi_order_client}
use kalshi.Clients.Wire.{Proper, execute_sends_one_order}
use kalshi.Tests.Data.{live_cfg, attempt_clock, coid_of, order}
use kalshi.Tests.Site.{
  Site, locked, armed, live_world, numbers, ticking, polling, http, resting_client, accepted,
  doubtful_client, wall, poly_order,
}

-- Every body that was sent is the order's.
abbrev AllProper : List OrderBody → Type 0
AllProper [] = Unit
AllProper (b ∷ bs) =
    Proper live_cfg polling coid_of numbers ticking 5 http order (some "coid-1") b × AllProper bs

abbrev on_the_wire : Venue → Option (Gateway ℤ (Net Site))
on_the_wire v = some (
    kalshi_gateway live_cfg polling coid_of numbers ticking
      (kalshi_order_client live_cfg (live_world armed).disk (live_world armed).kill 5 http))

execute_sends_one_order_example :
    AllProper
      (execute live_cfg coid_of on_the_wire attempt_clock order "key"
        (live_world armed)).1.gates.venue.bodies
unfolding ensure_client_order_id
execute_sends_one_order_example =
    execute_sends_one_order live_cfg polling coid_of numbers ticking 5 http on_the_wire
      attempt_clock order "key" (live_world armed) (λ g. AllProper g.venue.bodies) refl (λ s. refl)
      (λ b g p. p) (λ d g p. p) (λ e g p. p) (λ i g _ p. p) (λ body g proper _ _ p. (proper, p)) tt

abbrev live_gateways : Venue → Gateway ℤ (Net Site)
live_gateways =
    gateway_for live_cfg polling coid_of numbers ticking wall resting_client doubtful_client

locked_execute_sends_nothing_example :
    let w' =
      (execute live_cfg coid_of
        (λ (v : Venue). some (live_gateways v))
        attempt_clock
        order
        "key"
        (live_world locked)).1 in
    (w'.gates.venue ≡ locked.venue) × (w'.gates.arm ≡ locked.arm)
unfolding is_armed arm_token_present env_carries file_carries
locked_execute_sends_nothing_example =
    locked_execute_sends_nothing live_cfg polling coid_of numbers ticking wall resting_client
      doubtful_client attempt_clock order "key" (live_world locked) refl

abbrev in_the_dark : Venue → Option (Gateway ℤ (Net Site))
in_the_dark v = some (poly_gateway live_cfg polling coid_of numbers ticking wall doubtful_client)

execute_stops_in_doubt_example :
    SettledBefore
      (execute live_cfg coid_of in_the_dark attempt_clock poly_order "key"
        (live_world armed)).1.gates.venue.doubts
unfolding is_ambiguous_error Settled
execute_stops_in_doubt_example =
    execute_stops_in_doubt live_cfg polling coid_of numbers ticking wall doubtful_client
      (λ g. g.venue.doubts) (λ b g. refl) (λ p g. refl) (λ i g. refl) (λ g. refl) (λ t g. refl)
      (λ d g. refl) in_the_dark attempt_clock poly_order "key" (live_world armed) refl tt

gateway_for-Tells_example :
    Tells order.size (some "coid-1") ((live_gateways kalshi_venue).place order armed).0
unfolding ensure_client_order_id
gateway_for-Tells_example =
    gateway_for-Tells live_cfg polling coid_of numbers ticking wall resting_client doubtful_client
      fixed-FloatOrder kalshi_venue order armed (λ n. ground arith) refl

abbrev stopwatch : Timer ℕ
stopwatch = record { now = λ g. g; sleep = λ d g. g + d }

abbrev never : ℕ → Call (Option ℕ) × ℕ
never g = (gave none, g)

backoff_poll_ends_example :
    let (r, g') = backoff_poll stopwatch 15_000 250 2_000 never 7 in
    (is_final r ≡ true) ⊎ (7 + 15_000 ≤ g')
backoff_poll_ends_example =
    backoff_poll_ends stopwatch 15_000 250 2_000 never 7 (λ d h. omega arith) (λ h. omega arith)
      (omega arith) (omega arith)

-- The market's order has polled three times, at the milliseconds 1, 3 and 4.
abbrev late : Net Site
late = record armed { venue = record (armed.venue) { clock = 4 } }

timeout_retries_unfilled_example :
    (o : KalshiOrder ℤ) × (refreshed live_cfg polling coid_of numbers ticking resting_client
        (resting_client.get_order "k-1" late).0
      ≡ some o)
    × ((size price : ℤ)
        → or_zero o.count_filled ≡ some size
        → price_or order.limit_price o.average_fill_price ≡ some price
        → ltb_ℤ (pos 0) size ≡ false)
unfolding follow after_timeout outcome_from_order report_outcome backoff_poll poll_until poll_round
    poll_order is_done outcome_of
timeout_retries_unfilled_example =
    (timeout_retries_unfilled live_cfg polling coid_of numbers ticking resting_client
      fixed-FloatOrder order "k-1" (some "coid-1") armed late (pos 10) (λ n. ground arith) refl refl
      refl refl).1

resting_order_retried_example :
    let (p, g') =
      handle_poly_response live_cfg polling coid_of numbers ticking wall doubtful_client poly_order
        gtc none
        (some "coid-1")
        accepted
        armed in
    (wants_retry poly_order p ≡ true)
    × ((outcome_of poly_order p).order_id ≡ some "p-1")
    × (g' ≡ late)
unfolding backoff_poll poll_until poll_round poll_resting parse_fill
resting_order_retried_example =
    resting_order_retried live_cfg polling coid_of numbers ticking wall doubtful_client
      fixed-FloatOrder poly_order gtc none (some "coid-1") accepted (pos 0) poly_order.limit_price
      armed late refl refl refl refl refl refl refl
