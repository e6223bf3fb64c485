-- ===== src/Engine/Tripped.antt =====
-- kalshi_arbitrage/execution/single_leg.py: a tripped kill switch stays tripped.
use kalshi.Common.{
  ℕ, zero, suc, ◌+◌, ◌≡◌, ◌∙◌, refl, inl, inr, true, false, Option, String, arith, ap,
}
use kalshi.Float.{Float}
use kalshi.Config.{Config}
use kalshi.KillSwitch
use kalshi.KillSwitch.{Venue, TripReason}
use kalshi.Order.{OrderRequest, OrderOutcome, Seed, halted_outcome}
use kalshi.Engine.{
  Gateway, World, AttemptClock, call_breaker, call_gateway, store_breaker, venue_breaker, back_off,
  try_place, trip_kill, attempts, execute, execute_through,
}
use kalshi.Engine.Placements.{attempts-cases, attempts-zero, after_attempt, counted_outcome}

module _ {A G : Type 0} where
  pub trip_kill-tripped :
      (t : A) (r : TripReason) (w : World A G) → (trip_kill t r w).kill.tripped ≡ true
  unfolding trip_kill KillSwitch.trip
  trip_kill-tripped t r w = refl

module _ {A G : Type 0} ⦃fl : Float A⦄ (cfg : Config A) (coid_of : Seed A → String)
    (gateways : Venue → Option (Gateway A G)) (clock : ℕ → AttemptClock A) where
  kill-try_place :
      (n : ℕ) (gateway : Gateway A G) (req : OrderRequest A) (w : World A G)
      → (try_place cfg coid_of gateways clock n gateway req w).1.kill ≡ w.kill
  unfolding try_place call_breaker call_gateway store_breaker venue_breaker
  kill-try_place n gateway req w = ground arith

  kill-back_off : (n : ℕ) (w : World A G) → (back_off cfg coid_of gateways clock n w).kill ≡ w.kill
  unfolding back_off
  kill-back_off n w = ground arith

  kill-venue_breaker :
      (v : Venue) (w : World A G) → (venue_breaker cfg coid_of gateways clock v w).1.kill ≡ w.kill
  unfolding venue_breaker
  kill-venue_breaker v w = refl

  attempts-tripped :
      (rounds n : ℕ) (last : OrderOutcome A) (gateway : Gateway A G) (req : OrderRequest A)
      (w : World A G)
      → w.kill.tripped ≡ true
      → (attempts cfg coid_of gateways clock rounds n last gateway req w).1.kill.tripped ≡ true
  attempts-tripped zero n last gateway req w h =
      rw (attempts-zero cfg coid_of gateways clock n last gateway req w) h
  attempts-tripped (suc rounds) n last gateway req w h =
      let w' = after_attempt cfg coid_of gateways clock n gateway req w in
      let o' = counted_outcome cfg coid_of gateways clock n gateway req w in
      let kept : w'.kill.tripped ≡ true = ap (λ k. k.tripped) (kill-try_place n gateway _ w) ∙ h in
      elim (attempts-cases cfg coid_of gateways clock rounds n last gateway req w) [
        | inl (g, u, r) ↦ rw r (trip_kill-tripped _ _ w')
        | inr (inl (g, stop, r)) ↦ rw r kept
        | inr (inr (g, again, r)) ↦
            let w'' = back_off cfg coid_of gateways clock n w' in
            rw r (
              attempts-tripped rounds (n + 1) o' gateway req w''
                (ap (λ k. k.tripped) (kill-back_off n w') ∙ kept))
      ]

  -- Whatever order is executed, the kill switch stays tripped if it was.
  pub execute-tripped :
      (req : OrderRequest A) (stable_key : String) (w : World A G)
      → w.kill.tripped ≡ true
      → (execute cfg coid_of gateways clock req stable_key w).1.kill.tripped ≡ true
  unfolding execute execute_through
  execute-tripped req stable_key w h = grind (arith, attempts-tripped, kill-venue_breaker)

  pub tripped-halts :
      (req : OrderRequest A) (stable_key : String) (w : World A G)
      → w.kill.tripped ≡ true
      → req.risk_reducing ≡ false
      → execute cfg coid_of gateways clock req stable_key w ≡ (halted_outcome req.venue req.size, w)
  unfolding execute KillSwitch.is_active
  tripped-halts req stable_key w h opens = ground arith
