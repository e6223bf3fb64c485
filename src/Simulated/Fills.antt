-- ===== src/Simulated/Fills.antt =====
-- kalshi_arbitrage/execution/simulated_gateway.py under the engine and the hedge: paper trading.
use kalshi.Common.{ℕ, ◌≡◌, refl, true, false, Option, some, String, arith}
use kalshi.Common.Int.{ℤ}
use kalshi.Float.{Float, FloatOrder, min, max}
use kalshi.Config.{Config}
use kalshi.KillSwitch.{Venue}
use kalshi.Order.{filled, OrderRequest, OrderOutcome, Seed, ensure_client_order_id, is_done}
use kalshi.Engine.{returned, Gateway, World, AttemptClock, outcome_of, execute}
use kalshi.Engine.Halts.{plain_attempts, execute-reducing}
use kalshi.Executor.{Desk}
use kalshi.Executor.Legs.{build_unwind_request}
use kalshi.Executor.Hedge.{tolerance, unwind}
use kalshi.Fees.{Decimal}
use kalshi.Simulated.{fill_price, simulated_place, simulated_gateway}

module _ {A : Type 0} ⦃fl : Float A⦄ (order : FloatOrder fl) where
  open fl use {le, lt}

  clamp_bounds :
      (lo hi x : A)
      → le lo lo ≡ true
      → le hi hi ≡ true
      → lt lo hi ≡ true
      → (le lo (max lo (min hi x)) ≡ true) × (le (max lo (min hi x)) hi ≡ true)
  clamp_bounds lo hi x p q h =
      ground (arith, order.le_of_lt lo hi, order.le_of_lt lo x, order.le_of_lt x hi)

module _ {A G : Type 0} ⦃fl : Float A⦄ (to_decimal : A → Decimal) (of_decimal : Decimal → A)
    (coid_of : Seed A → String) (fee_rate : Option String → G → Option ℤ × G)
    (fresh : G → String) where
  open fl use {le, lt, sub, decimal}

  abbrev pub paper_gateways : Venue → Option (Gateway A G)
  paper_gateways v = some (simulated_gateway to_decimal of_decimal coid_of fee_rate fresh v)

  -- An order whose size is not at most 0 is filled in full by a simulated gateway, at a price from
  -- 0.01 to 0.99, whatever its limit (a NaN included).
  pub simulated_place_fills :
      (order : FloatOrder fl) (v : Venue) (req : OrderRequest A) (g : G)
      → le req.size (decimal 0 1) ≡ false
      → (o : OrderOutcome A) × ((simulated_place to_decimal of_decimal coid_of fee_rate fresh v req
            g).0
          ≡ returned o)
        × (o.status ≡ filled)
        × (o.filled_size ≡ req.size)
        × (le (decimal 1 2) o.avg_price ≡ true)
        × (le o.avg_price (decimal 99 2) ≡ true)
  unfolding simulated_place fill_price
  simulated_place_fills order v req g size =
      let apart = order.lt-decimal 1 99 2 (omega arith) (omega arith) (omega arith) in
      let (low, high) =
        clamp_bounds order (decimal 1 2) (decimal 99 2) req.limit_price (order.le-decimal 1 2)
          (order.le-decimal 99 2) apart in
      rw size (_, refl, refl, refl, low, high)

  -- In paper mode a risk-reducing order whose size is not at most 0 is filled in full at the first
  -- attempt, whatever the kill switch and the breakers say.
  pub paper_reducing_fills :
      (cfg : Config A) (clock : ℕ → AttemptClock A) (req : OrderRequest A) (key : String)
      (w : World A G)
      → req.risk_reducing ≡ true
      → le req.size (decimal 0 1) ≡ false
      → let (o, w') = execute cfg coid_of paper_gateways clock req key w in
        (o.status ≡ filled) × (o.filled_size ≡ req.size) × (o.attempts ≡ 1)
  unfolding plain_attempts simulated_place simulated_gateway outcome_of is_done
      ensure_client_order_id
  paper_reducing_fills cfg clock req key w reducing size =
      let plain =
        execute-reducing cfg coid_of paper_gateways clock
          (simulated_gateway to_decimal of_decimal coid_of fee_rate fresh req.venue) req key w refl
          reducing in
      ground (arith, plain, size)

  -- In paper mode the unwind of a quantity that is not at most 0 succeeds: the leg is hedged, the
  -- whole quantity is unwound and the tracker gets no receipt. The quantity's difference from itself is
  -- within the tolerance and not beyond it, as for any finite float.
  pub paper_unwind_hedges :
      (cfg : Config A) (clock : ℕ → AttemptClock A) (key : String) (t : A) (req : OrderRequest A)
      (out : OrderOutcome A) (qty : A) (d : Desk A G)
      → le qty (decimal 0 1) ≡ false
      → le (sub qty qty) (tolerance qty) ≡ true
      → lt (tolerance qty) (sub qty qty) ≡ false
      → let (info, d') = unwind cfg coid_of paper_gateways clock key t req out qty d in
        (info.hedged ≡ true) × (info.unwind_filled ≡ some qty) × (d'.receipts ≡ d.receipts)
  unfolding unwind build_unwind_request
  paper_unwind_hedges cfg clock key t req out qty d size finite below =
      let request = build_unwind_request cfg req out qty in
      let (status, all, once) = paper_reducing_fills cfg clock request key d.world refl size in
      rw all (rw below (finite, refl, refl))
