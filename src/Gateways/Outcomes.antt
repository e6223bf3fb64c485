-- ===== src/Gateways/Outcomes.antt =====
-- kalshi_arbitrage/execution/venue_gateway.py: what an outcome says of an order. The children have
-- the two gateways, and both of them.
pub mod OfKalshi
pub mod OfPolymarket
pub mod Both
use kalshi.Common.{
  ℕ, zero, suc, Bool, true, false, not, ◌&&◌, Option, none, some, String, ◌≡◌, refl, ap, sym, ◌∙◌,
  ◌⊎◌, inl, inr, List, [], ◌∷◌, arith, is_truthy, Bool-cases, Option-cases, if◌then◌else◌, subst,
}
use kalshi.Common.Int.{ℤ, pos, negsuc, leb_ℤ, ltb_ℤ}
use kalshi.Float.{Float, FloatOrder}
use kalshi.Config.{Config, Tif}
use kalshi.KillSwitch.{Venue, kalshi_venue, polymarket_venue}
use kalshi.Order.{OrderRequest, OrderOutcome, Seed, is_done, ensure_client_order_id}
use kalshi.Engine.{Placement, returned, raised}
use kalshi.Books.Polymarket.{Field, or_zero}
use kalshi.Gateways.{
  Call, gave, threw, Call-cases, text_or_empty, placement_of, failed_for, Net, Numbers, Timer,
  PollSettings, ask_lock,
}
use kalshi.Gateways.Poll.{backoff_poll}
use kalshi.Gateways.Kalshi.{
  KalshiOrder, KalshiResponse, KalshiPost, KalshiOrderClient, of_int, price_or, order_or_empty,
  is_executed, report_outcome, outcome_from_order, poll_order, refreshed, note_timeout, unverified,
  after_timeout, follow, handle_response, post_of, post_order, submit, place_kalshi,
}

module _ {A : Type 0} ⦃fl : Float A⦄ where
  -- What an outcome says of an order: done exactly if some of it was filled, of the size that was
  -- requested, under the order's client order id.
  unfoldable pub Says : A → Option String → OrderOutcome A → Type 0
  Says size coid o =
      (is_done o ≡ fl.lt (fl.decimal 0 1) o.filled_size)
      × (o.requested_size ≡ size)
      × (o.client_order_id ≡ coid)

  -- Of a placement that returns.
  unfoldable pub Tells : A → Option String → Placement A → Type 0
  Tells size coid (returned o) = Says size coid o
  Tells size coid (raised e) = Unit

module _ {A : Type 0} ⦃fl : Float A⦄ (order : FloatOrder fl) where
  open fl use {lt, le, decimal, of_nat}

  pub lt_irrefl-zero : lt (decimal 0 1) (decimal 0 1) ≡ false
  lt_irrefl-zero = elim (Bool-cases (lt (decimal 0 1) (decimal 0 1))) [
    | inr h ↦ h
    | inl h ↦
        let no = order.not_le_of_lt (decimal 0 1) (decimal 0 1) h in
        let le_zero = order.le-decimal 0 1 in ground arith
  ]

  pub failed_for-Says :
      (v : Venue) (size : A) (error coid : Option String)
      → Says size coid (failed_for v size error coid)
  unfolding Says failed_for is_done
  failed_for-Says v size error coid = (sym lt_irrefl-zero, refl, refl)
