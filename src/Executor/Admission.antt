-- ===== src/Executor/Admission.antt =====
-- kalshi_arbitrage/arbitrage_executor.py: which trades the pre-flight checks let through, and what a
-- trade that they stop leaves unchanged.
use kalshi.Common.{
  ℕ, ◌<◌, ◌≡◌, ◌⊎◌, inl, inr, true, false, Option, none, some, String, arith, if◌then◌else◌,
  Bool-cases, Option-cases, ap, sym, ◌∙◌,
}
use kalshi.Float.{Float}
use kalshi.Config.{Config, paper, live, is_live}
use kalshi.KillSwitch
use kalshi.KillSwitch.{HaltReason, Venue, kalshi_venue, polymarket_venue}
use kalshi.Order.{OrderRequest, Seed, halted_outcome}
use kalshi.Engine.{Gateway, World, AttemptClock, kill_active, execute}
use kalshi.Executor.{Opportunity, halted_by, Desk, Assessment, Advisers, is_kalshi}
use kalshi.Executor.Gates.{
  or_else, buy_price, capped_volume, halt_gate, risk_gate, balance_gate, live_gates, trade_gates,
  maybe_reset_daily_loss, pre_flight_checks,
}
use kalshi.Executor.Run.{
  Surroundings, opp_id, skipped_result, run_arbitrage, run_both, run_with, hedge_step, settle,
  active_gateways,
}

module _ {A B G : Type 0} ⦃fl : Float A⦄ (adv : Advisers A B G) (cfg : Config A) where
  open fl use {le, lt, mul}
  open adv use {assess, is_allowlisted, get_balance}

  abbrev pub buying_venue : Opportunity A B → Venue
  buying_venue opp = if is_kalshi opp.buy_platform then kalshi_venue else polymarket_venue

  -- A balance that is known is not below the notional.
  abbrev pub Covers : Option (Option A) → A → Type 0
  Covers none notional = Unit {0}
  Covers (some none) notional = Unit {0}
  Covers (some (some balance)) notional = lt balance notional ≡ false

  balance_gate-Covers :
      (opp : Opportunity A B) (g : G)
      → (balance_gate adv cfg opp g).0 ≡ none
      → Covers (get_balance (buying_venue opp) g).0 (mul (capped_volume cfg opp) (buy_price opp))
  unfolding balance_gate
  balance_gate-Covers opp g h = elim (Option-cases (get_balance (buying_venue opp) g).0) [
    | inl e ↦ rw e tt
    | inr (known, e) ↦ elim (Option-cases known) [
      | inl f ↦ rw (e, f) tt
      | inr (balance, f) ↦ rw (e, f) (ground arith)
    ]
  ]

  -- What the gates of live mode have checked when they let a trade pass.
  pub record LiveChecked (opp : Opportunity A B) (in_flight : ℕ) (g : G) : Type 0 where
    pub allowlisted :
        (cfg.match_require_allowlist_for_live ≡ false)
        ⊎ (is_allowlisted opp.kalshi_id (or_else opp.polymarket_token opp.polymarket_id) ≡ true)
    pub below_cap : in_flight < cfg.live_max_concurrent_positions
    pub covered :
        (cfg.require_balance_check ≡ false)
        ⊎ Covers (get_balance (buying_venue opp) g).0 (mul (capped_volume cfg opp) (buy_price opp))

  live_gates-LiveChecked :
      (opp : Opportunity A B) (n : ℕ) (g : G)
      → (live_gates adv cfg opp n g).0 ≡ none
      → LiveChecked opp n g
  unfolding live_gates
  live_gates-LiveChecked opp n g h = record {
    allowlisted = ground arith;
    below_cap = ground arith;
    covered = elim (Bool-cases cfg.require_balance_check) [
      | inl on ↦ inr (balance_gate-Covers opp g (ground arith))
      | inr off ↦ inl off
    ];
  }

  trade_gates-admits :
      (opp : Opportunity A B) (loss : A) (n : ℕ) (g : G)
      → cfg.execution_mode ≡ live
      → (trade_gates adv cfg opp loss n g).0 ≡ none
      → (le cfg.max_daily_loss_usd loss ≡ false)
        × (lt opp.total_profit cfg.min_profit_after_fees_usd ≡ false)
        × ((cfg.risk_gate_enabled ≡ false) ⊎ (risk_gate adv cfg opp ≡ none))
        × ((live_gates adv cfg opp n g).0 ≡ none)
  unfolding trade_gates
  trade_gates-admits opp loss n g l h = ground arith

  halt_gate-live :
      (w : World A G)
      → cfg.execution_mode ≡ live
      → halt_gate adv cfg w ≡ none
      → kill_active cfg w ≡ none
  unfolding halt_gate
  halt_gate-live w l h = ground arith

  -- A trade that is admitted in live mode has passed every gate: the kill switch is not active, the
  -- loss of the day (after its reset on a new day) is below the maximum, the profit is not below
  -- the minimum, the risk gate is off or passed, the pair is on the allowlist if that is required,
  -- fewer trades are in flight than allowed, and the balance of the buying venue, where it is
  -- required and known, covers the volume at the buying price.
  pub pre_flight_checks-admits :
      (today : String) (opp : Opportunity A B) (d : Desk A G)
      → cfg.execution_mode ≡ live
      → (pre_flight_checks adv cfg today opp d).0 ≡ none
      → (kill_active cfg d.world ≡ none)
        × (le cfg.max_daily_loss_usd (maybe_reset_daily_loss today d).daily_loss ≡ false)
        × (lt opp.total_profit cfg.min_profit_after_fees_usd ≡ false)
        × ((cfg.risk_gate_enabled ≡ false) ⊎ (risk_gate adv cfg opp ≡ none))
        × LiveChecked opp d.live_in_flight d.world.gates
  unfolding pre_flight_checks maybe_reset_daily_loss
  pre_flight_checks-admits today opp d l h =
      let idle = halt_gate-live d.world l (ground arith) in
      let d' = maybe_reset_daily_loss today d in
      let passed : (trade_gates adv cfg opp d'.daily_loss d.live_in_flight d.world.gates).0 ≡ none =
        ground arith in
      let (loss, profit, risk, rest) =
        trade_gates-admits opp d'.daily_loss d.live_in_flight d.world.gates l passed in
      (idle, loss, profit, risk, live_gates-LiveChecked opp d.live_in_flight d.world.gates rest)

module _ {A B G : Type 0} ⦃fl : Float A⦄ (adv : Advisers A B G) (cfg : Config A) where
  risk_gate-bookless :
      (opp : Opportunity A B)
      → (opp.risk_orderbooks ≡ none) ⊎ (opp.risk_orderbooks ≡ some (none, none))
      → risk_gate adv cfg opp ≡ none
  unfolding risk_gate
  risk_gate-bookless opp (inl e) = ground arith
  risk_gate-bookless opp (inr e) = ground arith

module _ {A B G : Type 0} ⦃fl : Float A⦄ (adv : Advisers A B G) (cfg : Config A) where
  trade_gates-bookless :
      (other : Opportunity A B → Option B → Option B → Option (Assessment A))
      (opp : Opportunity A B) (loss : A) (n : ℕ) (g : G)
      → (opp.risk_orderbooks ≡ none) ⊎ (opp.risk_orderbooks ≡ some (none, none))
      → trade_gates (record adv { assess = other }) cfg opp loss n g
        ≡ trade_gates adv cfg opp loss n g
  unfolding trade_gates live_gates
  trade_gates-bookless other opp loss n g h = ground (
    arith,
    risk_gate-bookless adv cfg opp h,
    risk_gate-bookless (record adv { assess = other }) cfg opp h,
  )

  -- The pre-flight checks of an opportunity without order books do not depend on the risk engine:
  -- the risk gate gives no reason, and with any other scoring the checks come to the same.
  pub bookless_unassessed :
      (other : Opportunity A B → Option B → Option B → Option (Assessment A)) (today : String)
      (opp : Opportunity A B) (d : Desk A G)
      → (opp.risk_orderbooks ≡ none) ⊎ (opp.risk_orderbooks ≡ some (none, none))
      → (risk_gate adv cfg opp ≡ none)
        × (pre_flight_checks (record adv { assess = other }) cfg today opp d
            ≡ pre_flight_checks adv cfg today opp d)
  unfolding pre_flight_checks halt_gate
  bookless_unassessed other today opp d h =
      let d' = maybe_reset_daily_loss today d in
      (
        risk_gate-bookless adv cfg opp h,
        ground (
          arith,
          trade_gates-bookless other opp d'.daily_loss d'.live_in_flight d'.world.gates h,
        ),
      )

  -- With execution disabled in paper mode the pre-flight halt gate lets every trade pass, and the
  -- engine then halts each order that is not risk-reducing, simulated gateway or not.
  pub paper_disabled_halts :
      (coid_of : Seed A → String) (gateways : Venue → Option (Gateway A G))
      (clock : ℕ → AttemptClock A) (req : OrderRequest A) (key : String) (w : World A G)
      → cfg.execution_mode ≡ paper
      → cfg.execution_enabled ≡ false
      → req.risk_reducing ≡ false
      → (halt_gate adv cfg w ≡ none)
        × (execute cfg coid_of gateways clock req key w ≡ (halted_outcome req.venue req.size, w))
  unfolding halt_gate execute KillSwitch.is_active
  paper_disabled_halts coid_of gateways clock req key w p off opening = ground arith

  active_gateways-paper :
      (s : Surroundings A G)
      → cfg.execution_mode ≡ paper
      → active_gateways adv cfg s ≡ s.sim_gateways
  unfolding active_gateways
  active_gateways-paper s p = ap (λ m. if is_live m then s.real_gateways else s.sim_gateways) p

  -- In paper mode a trade is the same whatever the real gateways are: they are not used.
  pub paper_ignores_real :
      (s : Surroundings A G) (real : Venue → Option (Gateway A G)) (opp : Opportunity A B)
      (d : Desk A G)
      → cfg.execution_mode ≡ paper
      → run_arbitrage adv cfg (record s { real_gateways = real }) opp d
        ≡ run_arbitrage adv cfg s opp d
  unfolding run_arbitrage run_both hedge_step settle
  paper_ignores_real s real opp d p =
      ap (λ gateways. run_with adv cfg s gateways opp d)
        (active_gateways-paper (record s { real_gateways = real }) p
          ∙ sym (active_gateways-paper s p))

  -- A trade in live mode under an active kill switch is skipped with the switch's reason, and it
  -- leaves the desk as it was: no gateway is asked, no leg is placed, no loss is booked.
  pub run_arbitrage-halted :
      (s : Surroundings A G) (opp : Opportunity A B) (d : Desk A G) {why : HaltReason}
      → cfg.execution_mode ≡ live
      → kill_active cfg d.world ≡ some why
      → run_arbitrage adv cfg s opp d
        ≡ (skipped_result (opp_id s.fresh opp) opp (halted_by why), none, d)
  unfolding run_arbitrage pre_flight_checks halt_gate
  run_arbitrage-halted s opp d l active = ground arith
