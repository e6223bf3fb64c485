-- ===== src/Executor/Hedge.antt =====
-- kalshi_arbitrage/arbitrage_executor.py: the hedge of unequal fills, and the record of what is left.
use kalshi.Common.{ℕ, true, false, Option, none, some, [], ◌∷◌, ◌++◌, String, if◌then◌else◌}
use kalshi.Float.{Float, max}
use kalshi.Config.{Config}
use kalshi.KillSwitch.{Venue, unwind_failed}
use kalshi.Order.{OrderRequest, OrderOutcome, Seed}
use kalshi.Engine.{Gateway, AttemptClock, trip_kill, execute}
use kalshi.Executor.{HedgeInfo, Desk}
use kalshi.Executor.Legs.{build_unwind_request}

abbrev pub id_or_unknown : Option String → String
id_or_unknown none = "unknown"
id_or_unknown (some id) = id

module _ {A G : Type 0} where
  -- The call of the tracker, if there is one.
  unfoldable pub record_residual_exposure : OrderRequest A → A → A → Desk A G → Desk A G
  record_residual_exposure req qty price d = elim d.receipts [
    | none ↦ d
    | some made ↦ record d {
      receipts = some (
          made
          ++ record {
            opportunity_id = id_or_unknown req.meta.opportunity_id;
            venue = req.venue;
            buy_price = price;
            buy_size = qty;
          }
            ∷ []);
    }
  ]

module _ {A : Type 0} ⦃fl : Float A⦄ where
  open fl use {mul, decimal}

  -- `_EPS`
  abbrev pub eps : A
  eps = decimal 1 6

  -- `max(_EPS, qty * 0.01)`
  abbrev pub tolerance : A → A
  tolerance qty = max eps (mul qty (decimal 1 2))

  abbrev pub flat : HedgeInfo A
  flat = record {
    hedged = true;
    residual = decimal 0 1;
    dust = false;
    unwind_order_id = none;
    unwind_filled = none;
  }

-- How the engine is called by the hedge: its key is the opportunity's id with ":hedge" behind it.
module _ {A G : Type 0} ⦃fl : Float A⦄ (cfg : Config A) (coid_of : Seed A → String)
    (gateways : Venue → Option (Gateway A G)) (clock : ℕ → AttemptClock A) (hedge_key : String)
    (t : A) where
  open fl use {lt, le, sub, abs, decimal}

  -- The unwind of `qty` on the leg that filled more, after the trip at the time `t` if it fails.
  unfoldable pub unwind : OrderRequest A → OrderOutcome A → A → Desk A G → HedgeInfo A × Desk A G
  unwind over_req over_out qty d =
      let unwind_req = build_unwind_request cfg over_req over_out qty in
      let (outcome, w) = execute cfg coid_of gateways clock unwind_req hedge_key d.world in
      let residual = sub qty outcome.filled_size in
      let incomplete = lt (tolerance qty) residual in
      let reason = unwind_failed over_req.meta.opportunity_id in
      (
        record {
          hedged = le residual (tolerance qty);
          residual = residual;
          dust = false;
          unwind_order_id = outcome.order_id;
          unwind_filled = some outcome.filled_size;
        },
        if incomplete
            then record_residual_exposure over_req residual over_out.avg_price
                (record d { world = trip_kill t reason w })
            else record d { world = w },
      )

  unfoldable pub hedge :
      OrderRequest A
      → OrderOutcome A
      → OrderRequest A
      → OrderOutcome A
      → Desk A G
      → HedgeInfo A × Desk A G
  hedge buy_req buy_out sell_req sell_out d =
      let imbalance = sub buy_out.filled_size sell_out.filled_size in
      let qty = abs imbalance in
      let bought_more = lt (decimal 0 1) imbalance in
      let over_req = if bought_more then buy_req else sell_req in
      let over_out = if bought_more then buy_out else sell_out in
      if le qty eps
      then (flat, d)
      else if lt qty (decimal 10 1)
      then (
        record flat { residual = qty; dust = true },
        record_residual_exposure over_req qty over_out.avg_price d,
      )
      else unwind over_req over_out qty d
