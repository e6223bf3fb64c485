-- ===== src/Executor/Gates.antt =====
-- kalshi_arbitrage/arbitrage_executor.py: the pre-flight checks and the volume that they use.
use kalshi.Common.{
  ℕ, Bool, true, false, not, ◌&&◌, ◌||◌, Option, none, some, String, leb, is_truthy, if◌then◌else◌,
}
use text.Mathlib.Text.{◌==◌ as str_eq}
use kalshi.Float.{Float, min, max}
use kalshi.Config.{Config, is_live}
use kalshi.KillSwitch.{HaltReason, execution_disabled, kalshi_venue, polymarket_venue}
use kalshi.Engine.{World, kill_active}
use kalshi.Executor.{
  Opportunity, Skip, halted_by, daily_loss_limit, below_min_profit, risk_too_high,
  low_risk_confidence, risk_gate_error, not_allowlisted, max_concurrent_positions,
  insufficient_balance, Desk, Assessment, Advisers, is_kalshi,
}

abbrev pub is_execution_disabled : HaltReason → Bool
is_execution_disabled execution_disabled = true
is_execution_disabled _ = false

-- `a or b` for two optional strings.
abbrev pub or_else : Option String → Option String → Option String
or_else a b = if is_truthy a then a else b

module _ {A B : Type 0} ⦃fl : Float A⦄ where
  open fl use {add, div, floor, decimal}

  abbrev pub buy_price : Opportunity A B → A
  buy_price opp = if is_kalshi opp.buy_platform then opp.kalshi_price else opp.polymarket_price

  unfoldable pub capped_volume : Config A → Opportunity A B → A
  capped_volume cfg opp =
      let avg_price = max (buy_price opp) (decimal 1 2) in
      let notional_cap =
        if is_live cfg.execution_mode
        then min cfg.max_position_size_usd cfg.live_max_notional_usd
        else cfg.max_position_size_usd in
      let raw = min opp.max_tradeable_volume (div notional_cap avg_price) in
      floor (add raw (decimal 1 9))

module _ {A B G : Type 0} ⦃fl : Float A⦄ (adv : Advisers A B G) (cfg : Config A) where
  open fl use {lt, le, mul, decimal}
  open adv use {assess, is_allowlisted, get_balance}

  -- A trade is halted by an active switch, except that paper mode passes over a disabled execution.
  unfoldable pub halt_gate : World A G → Option Skip
  halt_gate w = elim (kill_active cfg w) [
    | none ↦ none
    | some why ↦
        if is_live cfg.execution_mode || not (is_execution_disabled why)
        then some (halted_by why)
        else none
  ]

  unfoldable pub judge : Option (Assessment A) → Option Skip
  judge none = some risk_gate_error
  judge (some a) =
      if lt cfg.max_risk_score a.total_risk_score
      then some risk_too_high
      else if lt a.confidence cfg.min_risk_confidence
      then some low_risk_confidence
      else none

  -- Without order books the gate abstains.
  unfoldable pub risk_gate_of : Opportunity A B → Option (Option B × Option B) → Option Skip
  risk_gate_of opp none = none
  risk_gate_of opp (some (none, none)) = none
  risk_gate_of opp (some (none, some p)) = judge (assess opp none (some p))
  risk_gate_of opp (some (some k, none)) = judge (assess opp (some k) none)
  risk_gate_of opp (some (some k, some p)) = judge (assess opp (some k) (some p))

  unfoldable pub risk_gate : Opportunity A B → Option Skip
  unfolding risk_gate_of judge
  risk_gate opp = risk_gate_of opp opp.risk_orderbooks

  -- The balance of the buying venue; one that cannot be had lets the trade pass.
  unfoldable pub balance_gate : Opportunity A B → G → Option Skip × G
  balance_gate opp g =
      let notional = mul (capped_volume cfg opp) (buy_price opp) in
      let venue = if is_kalshi opp.buy_platform then kalshi_venue else polymarket_venue in
      let (reply, g') = get_balance venue g in
      (
        elim reply [
          | none ↦ none
          | some known ↦ elim known [
            | none ↦ none
            | some balance ↦ if lt balance notional then some insufficient_balance else none
          ]
        ],
        g',
      )

  -- The gates of live mode, the last of which asks a gateway.
  unfoldable pub live_gates : Opportunity A B → ℕ → G → Option Skip × G
  unfolding balance_gate
  live_gates opp in_flight g =
      if cfg.match_require_allowlist_for_live
        && not (is_allowlisted opp.kalshi_id (or_else opp.polymarket_token opp.polymarket_id))
      then (some not_allowlisted, g)
      else if leb cfg.live_max_concurrent_positions in_flight
      then (some max_concurrent_positions, g)
      else if cfg.require_balance_check
      then balance_gate opp g
      else (none, g)

  -- The gates after the daily reset, on the loss of the day.
  unfoldable pub trade_gates : Opportunity A B → A → ℕ → G → Option Skip × G
  trade_gates opp daily_loss in_flight g =
      if le cfg.max_daily_loss_usd daily_loss
      then (some daily_loss_limit, g)
      else if lt opp.total_profit cfg.min_profit_after_fees_usd
      then (some below_min_profit, g)
      else elim (if cfg.risk_gate_enabled then risk_gate opp else none) [
        | some reason ↦ (some reason, g)
        | none ↦ if is_live cfg.execution_mode then live_gates opp in_flight g else (none, g)
      ]

abbrev pub is_today : String → Option String → Bool
is_today today none = false
is_today today (some d) = str_eq d today

module _ {A G : Type 0} ⦃fl : Float A⦄ where
  unfoldable pub maybe_reset_daily_loss : String → Desk A G → Desk A G
  maybe_reset_daily_loss today d =
      if is_today today d.daily_reset_date
      then d
      else record d { daily_loss = fl.decimal 0 1; daily_reset_date = some today }

module _ {A B G : Type 0} ⦃fl : Float A⦄ (adv : Advisers A B G) (cfg : Config A) where
  -- `_pre_flight_checks`: a reason to skip the trade, or `none`, and the desk after.
  unfoldable pub pre_flight_checks : String → Opportunity A B → Desk A G → Option Skip × Desk A G
  pre_flight_checks today opp d = elim (halt_gate adv cfg d.world) [
    | some reason ↦ (some reason, d)
    | none ↦
        let d' = maybe_reset_daily_loss today d in
        let (reason, g) = trade_gates adv cfg opp d'.daily_loss d'.live_in_flight d'.world.gates in
        (reason, record d' { world = record (d'.world) { gates = g } })
  ]
