-- ===== src/Gateways/Resting.antt =====
-- kalshi_arbitrage/execution/venue_gateway.py: a limit order on Polymarket that rests until the
-- polling runs out.
use kalshi.Common.{
  true, false, Option, none, some, String, ◌≡◌, refl, ap, ◌∙◌, inl, inr, arith, is_truthy,
  Bool-cases,
}
use kalshi.Float.{Float, FloatOrder}
use kalshi.Config.{Config, Tif}
use kalshi.Order.{OrderRequest, Seed, is_done}
use kalshi.Engine.{outcome_of}
use kalshi.Engine.Placements.{wants_retry}
use kalshi.Gateways.{gave, Net, Numbers, Timer, PollSettings, text_or_empty}
use kalshi.Gateways.Poll.{backoff_poll}
use kalshi.Gateways.Polymarket.{
  PolymarketOrderClient, is_resting, poll_resting, poly_fees, conclude, rest_and_poll,
  confirm_order, handle_poly_response,
}
use kalshi.Gateways.Polymarket.Fills.{PolyResponse, parse_fill}

module _ {A V : Type 0} ⦃fl : Float A⦄ (cfg : Config A) (polling : PollSettings)
    (coid_of : Seed A → String) (numbers : Numbers A) (timer : Timer (Net V)) (wall : Net V → A)
    (client : PolymarketOrderClient A (Net V)) where
  open fl use {lt, le, mul, decimal}

  conclude-unfilled :
      (order : FloatOrder fl) (req : OrderRequest A) (i : String) (coid : Option String)
      (resp : PolyResponse A) (size price : A) (g : Net V)
      → lt (decimal 0 1) (mul req.size (decimal 999 3)) ≡ true
      → le size (decimal 0 1) ≡ true
      → let (p, g') =
          conclude cfg polling coid_of numbers timer wall client req i coid resp (size, price) g in
        (wants_retry req p ≡ true) × ((outcome_of req p).order_id ≡ some i) × (g' ≡ g)
  unfolding conclude poly_fees outcome_of is_done
  conclude-unfilled order req i coid resp size price g sized empty =
      let over = order.lt_of_lt_of_le (decimal 0 1) (mul req.size (decimal 999 3)) size sized in
      let not_more = order.not_le_of_lt (decimal 0 1) size in
      elim (Bool-cases (le (mul req.size (decimal 999 3)) size)) [
        | inl k ↦ let more = not_more (over k) in ground arith
        | inr k ↦ elim (Bool-cases (lt (decimal 0 1) size)) [
          | inl l ↦ let more = not_more l in ground arith
          | inr l ↦ ground arith
        ]
      ]

  rest_and_poll-out :
      (req : OrderRequest A) (i : String) (coid : Option String) (resp : PolyResponse A)
      (fill : A × A) (g h : Net V)
      → backoff_poll timer polling.fill_poll_budget polling.fill_poll_base_interval
          polling.fill_poll_max_interval
          (poll_resting cfg polling coid_of numbers timer wall client i)
          g
        ≡ (gave none, h)
      → rest_and_poll cfg polling coid_of numbers timer wall client req i coid resp fill g
        ≡ conclude cfg polling coid_of numbers timer wall client req i coid resp fill h
  unfolding rest_and_poll
  rest_and_poll-out req i coid resp fill g h over =
      rw (ap (λ r. r.0) over, rest_and_poll)
        (ap (λ r. conclude cfg polling coid_of numbers timer wall client req i coid resp fill r.1)
          over)

  handle-rests :
      (req : OrderRequest A) (t : Tif) (amount : Option A) (coid : Option String)
      (resp : PolyResponse A) (fill : A × A) (g : Net V)
      → is_truthy resp.error ≡ false
      → is_truthy resp.order_id ≡ true
      → parse_fill numbers.float_error resp req amount ≡ gave fill
      → le fill.0 (decimal 0 1) ≡ true
      → is_resting t ≡ true
      → handle_poly_response cfg polling coid_of numbers timer wall client req t amount coid resp g
        ≡ rest_and_poll cfg polling coid_of numbers timer wall client req
            (text_or_empty resp.order_id)
            coid
            resp
            fill
            g
  unfolding handle_poly_response confirm_order
  handle-rests req t amount coid resp fill g clean named parsed empty rests =
      rw (clean, named, parsed, empty, rests, handle_poly_response, confirm_order) refl

  -- A resting order (GTC or GTD) that Polymarket accepts without a fill, and that has not ended when
  -- its polling runs out, is left on the book: no cancel follows the last poll. The outcome
  -- names the order's id and is one that the engine places again, although there is no server-side
  -- check for duplicates. The order's size is positive, 99.9% of it too.
  pub resting_order_retried :
      (order : FloatOrder fl) (req : OrderRequest A) (t : Tif) (amount : Option A)
      (coid : Option String) (resp : PolyResponse A) (size price : A) (g h : Net V)
      → let i = text_or_empty resp.order_id in
        is_truthy resp.error ≡ false
        → is_truthy resp.order_id ≡ true
        → parse_fill numbers.float_error resp req amount ≡ gave (size, price)
        → le size (decimal 0 1) ≡ true
        → is_resting t ≡ true
        → lt (decimal 0 1) (mul req.size (decimal 999 3)) ≡ true
        → backoff_poll timer polling.fill_poll_budget polling.fill_poll_base_interval
            polling.fill_poll_max_interval
            (poll_resting cfg polling coid_of numbers timer wall client i)
            g
          ≡ (gave none, h)
        → let (p, g') =
            handle_poly_response cfg polling coid_of numbers timer wall client req t amount coid
              resp g in
          (wants_retry req p ≡ true) × ((outcome_of req p).order_id ≡ some i) × (g' ≡ h)
  resting_order_retried order req t amount coid resp size price g h clean named parsed empty rests
        sized over =
      let i = text_or_empty resp.order_id in
      let done = conclude-unfilled order req i coid resp size price h sized empty in
      let e : handle_poly_response cfg polling coid_of numbers timer wall client req t amount coid
            resp g
          ≡ conclude cfg polling coid_of numbers timer wall client req i coid resp (size, price) h =
        handle-rests req t amount coid resp (size, price) g clean named parsed empty rests
        ∙ rest_and_poll-out req i coid resp (size, price) g h over in
      (
        ap (λ r. wants_retry req r.0) e ∙ done.0,
        ap (λ r. (outcome_of req r.0).order_id) e ∙ done.1,
        ap (λ r. r.1) e ∙ done.2,
      )
