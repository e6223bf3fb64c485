-- ===== src/Reconcile/Fills.antt =====
-- kalshi_arbitrage/reconcile.py: what reconciling an execution's fills leaves as it was.
use kalshi.Common.{◌≡◌, refl, ap, ◌∙◌, List, [], ◌∷◌, arith}
use kalshi.Float.{Float, min}
use kalshi.Pnl.{
  FillRecord, ExecutionRecord, floored, notional, sum_on, total_size, total_notional, matched_size,
  has_confirmed_legs, is_settled,
}
use kalshi.Reconcile.{apply_kalshi_fill, apply_poly_trade}
use kalshi.Reconcile.Run.{Venues, reconcile_fill, reconcile_list, reconcile_fills}

module _ {A G : Type 0} ⦃fl : Float A⦄ (v : Venues A G) where
  open fl use {add, mul, decimal}

  reconcile_fill-keeps :
      (fr : FillRecord A) (g : G)
      → let fr' = (reconcile_fill v fr g).0.0 in (fr'.price ≡ fr.price) × (fr'.size ≡ fr.size)
  unfolding reconcile_fill apply_kalshi_fill apply_poly_trade
  reconcile_fill-keeps fr g = ground arith

  -- A total over the reconciled fills, of a figure of the price and size.
  sum_on-reconcile_list :
      (h : A → A → A) (acc : A) (fills : List (FillRecord A)) (g : G)
      → sum_on (λ f. h f.price f.size) acc (reconcile_list v fills g).0.0
        ≡ sum_on (λ f. h f.price f.size) acc fills
  unfolding reconcile_list
  sum_on-reconcile_list h acc [] g = refl
  sum_on-reconcile_list h acc (f ∷ fs) g =
      let (price, size) = reconcile_fill-keeps f g in
      let rest = reconcile_list v fs (reconcile_fill v f g).1 in
      ap
        (λ x.
          sum_on (λ f'. h f'.price f'.size) (add acc (h x (reconcile_fill v f g).0.0.size))
            rest.0.0)
        price
      ∙ ap (λ x. sum_on (λ f'. h f'.price f'.size) (add acc (h f.price x)) rest.0.0) size
      ∙ sum_on-reconcile_list h (add acc (h f.price f.size)) fs (reconcile_fill v f g).1

  -- Reconciling an execution's fills changes neither leg's size and notional, so not the matched
  -- size, and neither the confirmations nor the settlement.
  pub reconcile_fills_keeps :
      (e : ExecutionRecord A) (g : G)
      → let e' = (reconcile_fills v e g).0.0 in
        (matched_size e' ≡ matched_size e)
        × (total_notional e'.buy_fills ≡ total_notional e.buy_fills)
        × (total_notional e'.sell_fills ≡ total_notional e.sell_fills)
        × (has_confirmed_legs e' ≡ has_confirmed_legs e)
        × (is_settled e' ≡ is_settled e)
  unfolding reconcile_fills matched_size notional
  reconcile_fills_keeps e g =
      let sizes : (fills : List (FillRecord A)) (g' : G)
          → total_size (reconcile_list v fills g').0.0 ≡ total_size fills =
        sum_on-reconcile_list (λ price size. floored size) (decimal 0 1) in
      let notionals : (fills : List (FillRecord A)) (g' : G)
          → total_notional (reconcile_list v fills g').0.0 ≡ total_notional fills =
        sum_on-reconcile_list (λ price size. mul (floored price) (floored size)) (decimal 0 1) in
      let g' = (reconcile_list v e.buy_fills g).1 in
      (
        ap (λ x. min x (total_size (reconcile_list v e.sell_fills g').0.0)) (sizes e.buy_fills g)
            ∙ ap (min (total_size e.buy_fills)) (sizes e.sell_fills g'),
        notionals e.buy_fills g,
        notionals e.sell_fills g',
        refl,
        refl,
      )
