-- ===== src/Gateways/Live.antt =====
-- kalshi_arbitrage/execution/venue_gateway.py: `gateway_for`, and the live lock in front of both
-- gateways.
use kalshi.Common.{ℕ, true, false, some, String, ◌≡◌, refl, [], arith, ap, ◌∙◌}
use kalshi.Float.{Float}
use kalshi.Config.{Config}
use kalshi.KillSwitch.{Venue, kalshi_venue, polymarket_venue}
use kalshi.LiveLock.{is_armed, assert_or_warn}
use kalshi.Order.{OrderRequest, Seed, ensure_client_order_id}
use kalshi.Engine.{Gateway, World, AttemptClock, returned, execute}
use kalshi.Engine.Placements.{execute_places_only}
use kalshi.Gateways.{Net, Numbers, Timer, PollSettings, failed_for, ask_lock}
use kalshi.Gateways.Kalshi.{KalshiOrderClient, place_kalshi, kalshi_gateway}
use kalshi.Gateways.Polymarket.{PolymarketOrderClient, place_poly, poly_gateway}

ask_lock-locked :
    {A V : Type 0} (cfg : Config A) (g : Net V)
    → is_armed cfg g.arm ≡ false
    → ask_lock cfg g ≡ ((false, some "live_trading_locked"), record g { warned = true })
unfolding ask_lock assert_or_warn
ask_lock-locked cfg g h = rw (h, assert_or_warn) refl

module _ {A V : Type 0} ⦃fl : Float A⦄ (cfg : Config A) (polling : PollSettings)
    (coid_of : Seed A → String) (numbers : Numbers A) (timer : Timer (Net V)) (wall : Net V → A)
    (kalshi_client : KalshiOrderClient A (Net V))
    (poly_client : PolymarketOrderClient A (Net V)) where
  unfoldable pub gateway_for : Venue → Gateway A (Net V)
  unfolding kalshi_gateway poly_gateway
  gateway_for kalshi_venue = kalshi_gateway cfg polling coid_of numbers timer kalshi_client
  gateway_for polymarket_venue = poly_gateway cfg polling coid_of numbers timer wall poly_client

  -- While the live lock is not armed, both gateways refuse an order with the lock's reason, and all
  -- that changes is that the warning has been given.
  pub locked_refuses :
      (v : Venue) (req : OrderRequest A) (g : Net V)
      → is_armed cfg g.arm ≡ false
      → let coid = (ensure_client_order_id coid_of [] req).client_order_id in
        (gateway_for v).place req g ≡ (
          returned (failed_for v req.size (some "live_trading_locked") coid),
          record g { warned = true },
        )
  unfolding gateway_for place_kalshi place_poly
  locked_refuses kalshi_venue req g h = ground (arith, ask_lock-locked cfg g h)
  locked_refuses polymarket_venue req g h = ground (arith, ask_lock-locked cfg g h)

  -- While the live lock is not armed, one call of `execute`, of whatever order, with the gateways
  -- that `gateway_for` makes, leaves the venue and the network as they were, and the lock unarmed:
  -- nothing is sent, not even for an order that reduces risk.
  pub locked_execute_sends_nothing :
      (clock : ℕ → AttemptClock A) (req : OrderRequest A) (stable_key : String)
      (w : World A (Net V))
      → is_armed cfg w.gates.arm ≡ false
      → let w' =
          (execute cfg coid_of (λ (v : Venue). some (gateway_for v)) clock req stable_key w).1 in
        (w'.gates.venue ≡ w.gates.venue) × (w'.gates.arm ≡ w.gates.arm)
  locked_execute_sends_nothing clock req stable_key w h =
      execute_places_only cfg coid_of (λ (v : Venue). some (gateway_for v)) clock (λ g. Unit)
        (λ g. (g.venue ≡ w.gates.venue) × (g.arm ≡ w.gates.arm)) (gateway_for req.venue) req
        stable_key w refl
        (λ k g _ _ same.
          (rw (locked_refuses req.venue _ g (ap (is_armed cfg) same.1 ∙ h)) same, λ _. tt))
        tt (refl, refl)
