-- ===== src/Gateways/Outcomes/OfPolymarket.antt =====
-- kalshi_arbitrage/execution/venue_gateway.py: what the outcomes of PolymarketGateway say.
use kalshi.Common.{
  true, ◌&&◌, Option, none, some, String, ◌≡◌, refl, sym, inl, inr, [], arith, is_truthy,
  Bool-cases, Option-cases,
}
use kalshi.Float.{Float, FloatOrder}
use kalshi.Config.{Config, Tif}
use kalshi.KillSwitch.{polymarket_venue}
use kalshi.Order.{is_buy, OrderRequest, Seed, is_done, ensure_client_order_id}
use kalshi.Gateways.{
  Call-cases, text_or_empty, failed_for, Net, Numbers, Timer, PollSettings, ask_lock,
}
use kalshi.Gateways.Poll.{backoff_poll}
use kalshi.Gateways.Polymarket.{
  PolymarketOrderClient, is_ambiguous_error, is_resting, is_marketable, order_type_or,
  find_recent_fill, reconciled_outcome, ambiguous_failure, ambiguous_outcome, poll_resting,
  conclude, rest_and_poll, confirm_order, handle_poly_response, poly_post_of, send_poly_order,
  submit_poly, place_poly,
}
use kalshi.Gateways.Polymarket.Fills.{PolyResponse, parse_fill}
use kalshi.Gateways.Outcomes.{Says, Tells, lt_irrefl-zero, failed_for-Says}

module _ {A V : Type 0} ⦃fl : Float A⦄ (cfg : Config A) (polling : PollSettings)
    (coid_of : Seed A → String) (numbers : Numbers A) (timer : Timer (Net V)) (wall : Net V → A)
    (client : PolymarketOrderClient A (Net V)) (order : FloatOrder fl) where
  open fl use {lt, le, mul, decimal}

  ambiguous_outcome-Says :
      (req : OrderRequest A) (coid : Option String) (err : String) (g : Net V)
      → Says req.size coid
          (ambiguous_outcome cfg polling coid_of numbers timer wall client req coid err g).0
  unfolding Says ambiguous_outcome reconciled_outcome ambiguous_failure failed_for is_done
  ambiguous_outcome-Says req coid err g =
      let none_filled = lt_irrefl-zero order in
      elim (Bool-cases (
        lt (decimal 0 1)
          (find_recent_fill cfg polling coid_of numbers timer wall client req g).0.size)) [
            | inl h ↦ rw h (ground arith, refl, refl)
            | inr h ↦ rw h (sym none_filled, refl, refl)
          ]

  module _ (req : OrderRequest A) (coid : Option String)
      (sized : lt (decimal 0 1) (mul req.size (decimal 999 3)) ≡ true) where
    conclude-Tells :
        (i : String) (resp : PolyResponse A) (fill : A × A) (g : Net V)
        → Tells req.size coid
            (conclude cfg polling coid_of numbers timer wall client req i coid resp fill g).0
    unfolding conclude Tells Says is_done
    conclude-Tells i resp (size, price) g =
        let over = order.lt_of_lt_of_le (decimal 0 1) (mul req.size (decimal 999 3)) size sized in
        elim (Bool-cases (le (mul req.size (decimal 999 3)) size)) [
          | inl k ↦ let more = over k in (ground arith, refl, refl)
          | inr k ↦ (ground arith, refl, refl)
        ]

    rest_and_poll-Tells :
        (i : String) (resp : PolyResponse A) (fill : A × A) (g : Net V)
        → Tells req.size coid
            (rest_and_poll cfg polling coid_of numbers timer wall client req i coid resp fill g).0
    unfolding rest_and_poll Tells
    rest_and_poll-Tells i resp fill g =
        let polled =
          backoff_poll timer polling.fill_poll_budget polling.fill_poll_base_interval
            polling.fill_poll_max_interval
            (poll_resting cfg polling coid_of numbers timer wall client i) g in
        elim (Call-cases polled.0) [
          | inl (e, h) ↦ rw (h, rest_and_poll) tt
          | inr (r, h) ↦ elim (Option-cases r) [
            | inl k ↦ rw (h, k, rest_and_poll) (conclude-Tells i resp fill polled.1)
            | inr (o, k) ↦ elim (Call-cases (parse_fill numbers.float_error o req none)) [
              | inl (e, l) ↦ rw (h, k, l, rest_and_poll) tt
              | inr (fill', l) ↦ rw (h, k, l, rest_and_poll) (conclude-Tells i resp fill' polled.1)
            ]
          ]
        ]

    confirm_order-Tells :
        (t : Tif) (amount : Option A) (i : String) (resp : PolyResponse A) (g : Net V)
        → Tells req.size coid
            (confirm_order cfg polling coid_of numbers timer wall client req t amount i coid resp
              g).0
    unfolding confirm_order Tells
    confirm_order-Tells t amount i resp g =
        elim (Call-cases (parse_fill numbers.float_error resp req amount)) [
          | inl (e, h) ↦ rw (h, confirm_order) tt
          | inr (fill, h) ↦ elim (Bool-cases (le fill.0 (decimal 0 1) && is_resting t)) [
            | inl k ↦ rw (h, k, confirm_order) (rest_and_poll-Tells i resp fill g)
            | inr k ↦ rw (h, k, confirm_order) (conclude-Tells i resp fill g)
          ]
        ]

    handle-Tells :
        (t : Tif) (amount : Option A) (resp : PolyResponse A) (g : Net V)
        → Tells req.size coid
            (handle_poly_response cfg polling coid_of numbers timer wall client req t amount coid
              resp g).0
    unfolding handle_poly_response Tells
    handle-Tells t amount resp g = elim (Bool-cases (is_truthy resp.error)) [
      | inl h ↦ elim (Bool-cases (is_ambiguous_error (text_or_empty resp.error))) [
        | inl k ↦ rw (h, k, handle_poly_response) (ambiguous_outcome-Says req coid _ g)
        | inr k ↦
            rw (h, k, handle_poly_response) (failed_for-Says order polymarket_venue req.size _ coid)
      ]
      | inr h ↦ elim (Bool-cases (is_truthy resp.order_id)) [
        | inl k ↦ rw (h, k, handle_poly_response) (confirm_order-Tells t amount _ resp g)
        | inr k ↦ rw (h, k, handle_poly_response) (ambiguous_outcome-Says req coid _ g)
      ]
    ]

    send-Tells :
        (t : Tif) (amount : Option A) (g : Net V)
        → Tells req.size coid
            (send_poly_order cfg polling coid_of numbers timer wall client req t amount coid g).0
    unfolding send_poly_order Tells
    send-Tells t amount g =
        let size : A = elim amount [ none ↦ req.size | some dollars ↦ dollars ] in
        let (r, g') =
          client.place_order (poly_post_of cfg polling coid_of numbers timer wall client req t size)
            g in
        elim (Call-cases r) [
          | inl (e, h) ↦ rw (h, send_poly_order) tt
          | inr (resp, h) ↦ rw (h, send_poly_order) (handle-Tells t amount resp g')
        ]

    submit-Tells :
        (g : Net V)
        → Tells req.size coid
            (submit_poly cfg polling coid_of numbers timer wall client req coid g).0
    unfolding submit_poly Tells
    submit-Tells g =
        let t = order_type_or req.tif cfg.polymarket_order_type in
        let dollars = numbers.to_dollars (mul req.size req.limit_price) in
        let refused =
          λ (e : Option String). failed_for-Says order polymarket_venue req.size e coid in
        elim (Bool-cases (is_marketable t && is_buy req.action)) [
          | inr h ↦ rw (h, submit_poly) (send-Tells t none g)
          | inl h ↦ elim (Bool-cases (le req.limit_price (decimal 0 1))) [
            | inl k ↦ rw (h, k, submit_poly) (refused _)
            | inr k ↦ elim (Bool-cases (le dollars (decimal 0 1))) [
              | inl l ↦ rw (h, k, l, submit_poly) (refused _)
              | inr l ↦ rw (h, k, l, submit_poly) (send-Tells t (some dollars) g)
            ]
          ]
        ]

  pub place_poly-Tells :
      (req : OrderRequest A) (g : Net V)
      → lt (decimal 0 1) (mul req.size (decimal 999 3)) ≡ true
      → let coid = (ensure_client_order_id coid_of [] req).client_order_id in
        Tells req.size coid (place_poly cfg polling coid_of numbers timer wall client req g).0
  unfolding place_poly Tells
  place_poly-Tells req g sized =
      let coid = (ensure_client_order_id coid_of [] req).client_order_id in
      elim (Bool-cases (ask_lock cfg g).0.0) [
        | inl h ↦ rw (h, place_poly) (submit-Tells req coid sized (ask_lock cfg g).1)
        | inr h ↦ rw (h, place_poly) (failed_for-Says order polymarket_venue req.size _ coid)
      ]
