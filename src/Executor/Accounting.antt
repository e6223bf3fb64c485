-- ===== src/Executor/Accounting.antt =====
-- kalshi_arbitrage/arbitrage_executor.py: what a whole trade does to the executor's own counters.
use kalshi.Common.{
  ◌+◌, ◌-◌, ◌≡◌, ◌≢◌, ◌⊎◌, inl, inr, Bool, Option, none, arith, Option-cases, ◌∙◌, subst,
}
use kalshi.Float.{Float}
use kalshi.Config.{Config}
use kalshi.KillSwitch.{Venue}
use kalshi.Order.{OrderRequest, OrderOutcome}
use kalshi.Engine.{Gateway}
use kalshi.Executor.{Opportunity, ExecutionResult, Desk, Advisers}
use kalshi.Executor.Gates.{pre_flight_checks, maybe_reset_daily_loss}
use kalshi.Executor.Legs.{build_legs}
use kalshi.Executor.Hedge.{record_residual_exposure, unwind, hedge}
use kalshi.Executor.Run.{
  Surroundings, skipped_result, build_result, coerce_outcome, hedge_step, settle, run_both,
  active_gateways, run_arbitrage,
}

-- The fields of the desk that hedging leaves alone.
abbrev pub SameBooks : {A G : Type 0} → Desk A G → Desk A G → Type 0
SameBooks d d' = (d'.daily_loss ≡ d.daily_loss) × (d'.live_in_flight ≡ d.live_in_flight)

module _ {A G : Type 0} where
  record_residual_exposure-SameBooks :
      (req : OrderRequest A) (qty price : A) (d : Desk A G)
      → SameBooks d (record_residual_exposure req qty price d)
  unfolding record_residual_exposure
  record_residual_exposure-SameBooks req qty price d = ground arith

module _ {A : Type 0} ⦃fl : Float A⦄ where
  -- The loss of the day after a result: less its net profit if the trade filled.
  abbrev pub Booked : A → ExecutionResult A → A → Type 0
  Booked before result after =
      ((result.skipped_reason ≡ none) × (after ≡ fl.sub before result.net_profit))
      ⊎ ((result.skipped_reason ≢ none) × (after ≡ before))

module _ {A B G : Type 0} ⦃fl : Float A⦄ (adv : Advisers A B G) (cfg : Config A)
    (s : Surroundings A G) where
  hedge_step-SameBooks :
      (gateways : Venue → Option (Gateway A G)) (buy_req sell_req : OrderRequest A)
      (buy_out sell_out : OrderOutcome A) (d : Desk A G)
      → SameBooks d (hedge_step adv cfg s gateways buy_req buy_out sell_req sell_out d).1
  unfolding hedge_step hedge unwind record_residual_exposure
  hedge_step-SameBooks gateways buy_req sell_req buy_out sell_out d = ground arith

  settle-Booked :
      (opp : Opportunity A B) (buy_out sell_out : OrderOutcome A) (timed_out : Bool) (d : Desk A G)
      → let (result, d') = settle adv cfg s opp buy_out sell_out timed_out d in
        Booked d.daily_loss result d'.daily_loss × (d'.live_in_flight ≡ d.live_in_flight)
  unfolding settle build_result skipped_result
  settle-Booked opp buy_out sell_out timed_out d = ground arith

  run_both-Booked :
      (gateways : Venue → Option (Gateway A G)) (opp : Opportunity A B)
      (buy_req sell_req : OrderRequest A) (d : Desk A G)
      → let (result, info, d') = run_both adv cfg s gateways opp buy_req sell_req d in
        Booked d.daily_loss result d'.daily_loss × (d'.live_in_flight ≡ d.live_in_flight)
  unfolding run_both
  run_both-Booked gateways opp buy_req sell_req d =
      let legs = s.run_legs gateways buy_req sell_req d.world in
      let ended : Desk A G = record d {
        world = legs.world;
        live_in_flight = d.live_in_flight + 1 - 1;
      } in
      let buy_out = coerce_outcome legs.buy_result buy_req in
      let sell_out = coerce_outcome legs.sell_result sell_req in
      let hedged = (hedge_step adv cfg s gateways buy_req buy_out sell_req sell_out ended).1 in
      let (loss, flying) = hedge_step-SameBooks gateways buy_req sell_req buy_out sell_out ended in
      let (result, settled) = settle adv cfg s opp buy_out sell_out legs.timed_out hedged in
      let (booked, same) = settle-Booked opp buy_out sell_out legs.timed_out hedged in
      (
        subst (λ before. Booked before result settled.daily_loss) loss booked,
        same ∙ flying ∙ omega arith,
      )

  -- The desk after the pre-flight checks.
  pre_flight_checks-cases :
      (opp : Opportunity A B) (d : Desk A G)
      → let (reason, d') = pre_flight_checks adv cfg s.today opp d in
        (d'.live_in_flight ≡ d.live_in_flight)
        × (((reason ≢ none) × (d' ≡ d))
            ⊎ (d'.daily_loss ≡ (maybe_reset_daily_loss s.today d).daily_loss))
  unfolding pre_flight_checks maybe_reset_daily_loss
  pre_flight_checks-cases opp d = ground arith

  -- A trade is stopped by the checks, or for want of legs, or run with its two legs.
  run_arbitrage-cases :
      (opp : Opportunity A B) (d : Desk A G)
      → let r = run_arbitrage adv cfg s opp d in
        let (reason, d') = pre_flight_checks adv cfg s.today opp d in
        ((r.0.skipped_reason ≢ none) × (r.2 ≡ d'))
        ⊎ ((reason ≡ none)
            × ((a : OrderRequest A) × (b : OrderRequest A) × (r
                  ≡ run_both adv cfg s (active_gateways adv cfg s) opp a b d')))
  unfolding run_arbitrage skipped_result
  run_arbitrage-cases opp d = elim (Option-cases (pre_flight_checks adv cfg s.today opp d).0) [
    | inr (why, stopped) ↦ inl (ground arith)
    | inl go ↦ elim (Option-cases (build_legs cfg opp)) [
      | inl unbuilt ↦ inl (ground arith)
      | inr (legs, built) ↦ inr (go, (legs.0, legs.1, ground arith))
    ]
  ]

  pub run_arbitrage-Booked :
      (opp : Opportunity A B) (d : Desk A G)
      → let (result, info, d') = run_arbitrage adv cfg s opp d in
        (d'.live_in_flight ≡ d.live_in_flight)
        × ((d' ≡ d) ⊎ Booked (maybe_reset_daily_loss s.today d).daily_loss result d'.daily_loss)
  run_arbitrage-Booked opp d =
      let (reason, d') = pre_flight_checks adv cfg s.today opp d in
      let (flying, start) = pre_flight_checks-cases opp d in
      elim (run_arbitrage-cases opp d) [
        | inl (why, same) ↦ ground arith
        | inr (go, (a, b, e)) ↦
            let (booked, kept) = run_both-Booked (active_gateways adv cfg s) opp a b d' in
            rw e (
              kept ∙ flying,
              elim start [
                | inl (stopped, same) ↦ absurd (stopped go)
                | inr reset ↦
                    let (result, info, after) =
                      run_both adv cfg s (active_gateways adv cfg s) opp a b d' in
                    inr (subst (λ before. Booked before result after.daily_loss) reset booked)
              ],
            )
      ]
