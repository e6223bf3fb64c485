-- ===== src/Executor/Unwind.antt =====
-- kalshi_arbitrage/arbitrage_executor.py: what the hedge leaves behind.
use kalshi.Common.{
  ℕ, ◌≡◌, ◌≢◌, refl, ◌⊎◌, inl, inr, true, false, Option, none, some, List, [], ◌∷◌, ◌++◌, String,
  arith, if◌then◌else◌,
}
use kalshi.Float.{Float, FloatOrder, min, max}
use kalshi.Config.{Config}
use kalshi.KillSwitch
use kalshi.KillSwitch.{Venue, unwind_failed}
use kalshi.Order.{OrderRequest, OrderOutcome, Seed}
use kalshi.Engine.{Gateway, World, AttemptClock, kill_active, trip_kill, execute}
use kalshi.Executor.{Receipt, Desk}
use kalshi.Executor.Legs.{opposite, build_unwind_request, unwind_price}
use kalshi.Executor.Hedge.{record_residual_exposure, eps, tolerance, unwind, hedge, id_or_unknown}

module _ {A : Type 0} ⦃fl : Float A⦄ (order : FloatOrder fl) (cfg : Config A) where
  open fl use {le, lt, decimal}

  clamp_bounds :
      (lo hi x : A)
      → le lo lo ≡ true
      → le hi hi ≡ true
      → lt lo hi ≡ true
      → (le lo (min hi (max lo x)) ≡ true) × (le (min hi (max lo x)) hi ≡ true)
  clamp_bounds lo hi x p q h =
      ground (
        arith,
        order.le_of_lt lo hi,
        order.le_of_lt lo x,
        order.le_of_lt x hi,
        order.le_of_lt lo hi,
      )

  -- The request that unwinds a leg is the opposite order on the same venue and instrument, for the
  -- given size, risk-reducing, and priced from 0.01 to 0.99, whatever the fill price was (a NaN
  -- included).
  pub build_unwind_request_shape :
      (req : OrderRequest A) (out : OrderOutcome A) (qty : A)
      → let r = build_unwind_request cfg req out qty in
        (r.venue ≡ req.venue)
        × (r.action ≡ opposite req.action)
        × (r.ticker ≡ req.ticker)
        × (r.token_id ≡ req.token_id)
        × (r.outcome_side ≡ req.outcome_side)
        × (r.size ≡ qty)
        × (r.risk_reducing ≡ true)
        × (le (decimal 1 2) r.limit_price ≡ true)
        × (le r.limit_price (decimal 99 2) ≡ true)
  unfolding build_unwind_request unwind_price
  build_unwind_request_shape req out qty =
      let cent = order.le-decimal 1 2 in
      let dollar = order.le-decimal 99 2 in
      let apart = order.lt-decimal 1 99 2 (omega arith) (omega arith) (omega arith) in
      let (low, high) = clamp_bounds (decimal 1 2) (decimal 99 2) _ cent dollar apart in
      (refl, refl, refl, refl, refl, refl, refl, low, high)

module _ {A G : Type 0} ⦃fl : Float A⦄ (order : FloatOrder fl) (cfg : Config A)
    (coid_of : Seed A → String) (gateways : Venue → Option (Gateway A G))
    (clock : ℕ → AttemptClock A) (hedge_key : String) (t : A) where
  open fl use {lt, le, sub, abs, decimal}

  le_refl-tolerance : (qty : A) → le (tolerance qty) (tolerance qty) ≡ true
  le_refl-tolerance qty =
      let part = fl.mul qty (decimal 1 2) in
      ground (arith, order.le-decimal 1 6, order.le_of_lt eps part, order.le_refl_right eps part)

  trip_kill-active :
      (i : Option String) (w : World A G) → kill_active cfg (trip_kill t (unwind_failed i) w) ≢ none
  unfolding trip_kill KillSwitch.trip KillSwitch.is_active
  trip_kill-active i w = ground arith

  kill-record_residual_exposure :
      (req : OrderRequest A) (qty price : A) (d : Desk A G)
      → (record_residual_exposure req qty price d).world ≡ d.world
  unfolding record_residual_exposure
  kill-record_residual_exposure req qty price d = ground arith

  receipts-record_residual_exposure :
      (req : OrderRequest A) (qty price : A) (d : Desk A G) (made : List (Receipt A))
      → d.receipts ≡ some made
      → (record_residual_exposure req qty price d).receipts
        ≡ some (
            made
            ++ record {
              opportunity_id = id_or_unknown req.meta.opportunity_id;
              venue = req.venue;
              buy_price = price;
              buy_size = qty;
            }
              ∷ [])
  unfolding record_residual_exposure
  receipts-record_residual_exposure req qty price d made had = ground arith

  unwind_halts :
      (req : OrderRequest A) (out : OrderOutcome A) (qty : A) (d : Desk A G)
      (made : List (Receipt A))
      → d.receipts ≡ some made
      → let (info, d') = unwind cfg coid_of gateways clock hedge_key t req out qty d in
        info.hedged ≡ false
        → le info.residual info.residual ≡ true
        → (kill_active cfg d'.world ≢ none)
          × ((r : Receipt A) × (r.buy_size ≡ info.residual) × (d'.receipts ≡ some (made ++ r ∷ [])))
  unfolding unwind
  unwind_halts req out qty d made had unhedged number =
      let request = build_unwind_request cfg req out qty in
      let (outcome, w) = execute cfg coid_of gateways clock request hedge_key d.world in
      let residual = sub qty outcome.filled_size in
      let reason = unwind_failed req.meta.opportunity_id in
      let over : lt (tolerance qty) residual ≡ true =
        ground (arith, order.le_of_not_lt (tolerance qty) residual, le_refl-tolerance qty) in
      let d' : Desk A G = record d { world = trip_kill t reason w } in
      rw over (
        rw (kill-record_residual_exposure req residual out.avg_price d')
            (trip_kill-active req.meta.opportunity_id w),
        (_, refl, receipts-record_residual_exposure req residual out.avg_price d' made had),
      )

  -- The outcome is flat or dust, or it is that of the unwind of the leg that filled more.
  hedge-cases :
      (buy_req sell_req : OrderRequest A) (buy_out sell_out : OrderOutcome A) (d : Desk A G)
      → let r = hedge cfg coid_of gateways clock hedge_key t buy_req buy_out sell_req sell_out d in
        let qty = abs (sub buy_out.filled_size sell_out.filled_size) in
        let more = lt (decimal 0 1) (sub buy_out.filled_size sell_out.filled_size) in
        (r.0.hedged ≡ true)
        ⊎ (r
            ≡ unwind cfg coid_of gateways clock hedge_key t
                (if more then buy_req else sell_req)
                (if more then buy_out else sell_out)
                qty
                d)
  unfolding hedge
  hedge-cases buy_req sell_req buy_out sell_out d = ground arith

  -- On a desk with a tracker, a hedge that reports itself not hedged, its residual being a number, has
  -- halted the desk: the kill switch is active, and the tracker has got one more receipt, with the
  -- residual as its size.
  pub unhedged_halts :
      (buy_req sell_req : OrderRequest A) (buy_out sell_out : OrderOutcome A) (d : Desk A G)
      (made : List (Receipt A))
      → d.receipts ≡ some made
      → let (info, d') =
          hedge cfg coid_of gateways clock hedge_key t buy_req buy_out sell_req sell_out d in
        info.hedged ≡ false
        → le info.residual info.residual ≡ true
        → (kill_active cfg d'.world ≢ none)
          × ((r : Receipt A) × (r.buy_size ≡ info.residual) × (d'.receipts ≡ some (made ++ r ∷ [])))
  unhedged_halts buy_req sell_req buy_out sell_out d made had unhedged number =
      elim (hedge-cases buy_req sell_req buy_out sell_out d) [
        | inl hedged ↦ cc
        | inr e ↦ rw e (unwind_halts _ _ _ d made had (rw e at unhedged) (rw e at number))
      ]
