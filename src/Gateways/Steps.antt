-- ===== src/Gateways/Steps.antt =====
-- kalshi_arbitrage/execution/venue_gateway.py: which calls a placement of PolymarketGateway makes.
use kalshi.Common.{
  ℕ, Bool, true, false, not, ◌&&◌, Option, none, some, String, ◌≡◌, refl, ◌⊎◌, inl, inr, [], arith,
  is_truthy, Bool-cases, Option-cases, if◌then◌else◌,
}
use kalshi.Float.{Float}
use kalshi.Config.{Config, Tif}
use kalshi.Order.{is_buy, OrderRequest, Seed, ensure_client_order_id}
use kalshi.Engine.{returned}
use kalshi.Gateways.{
  gave, threw, Call-cases, text_or_empty, Net, Numbers, Timer, PollSettings, ask_lock,
}
use kalshi.Gateways.Poll.{backoff_poll, backoff_poll_keeps}
use kalshi.Gateways.Polymarket.{
  PolyPost, PolymarketOrderClient, is_ambiguous_error, is_resting, is_marketable, order_type_or,
  poly_fees, find_recent_fill, ambiguous_outcome, poll_resting, conclude, rest_and_poll,
  confirm_order, handle_poly_response, poly_post_of, send_poly_order, submit_poly, place_poly,
}
use kalshi.Gateways.Polymarket.Fills.{PolyResponse, parse_fill}

-- The answer to the POST leaves open whether the order has landed.
abbrev pub in_doubt : {A : Type 0} → PolyResponse A → Bool
in_doubt resp =
    if is_truthy resp.error
    then is_ambiguous_error (text_or_empty resp.error)
    else not (is_truthy resp.order_id)

module _ {A V : Type 0} ⦃fl : Float A⦄ (cfg : Config A) (polling : PollSettings)
    (coid_of : Seed A → String) (numbers : Numbers A) (timer : Timer (Net V)) (wall : Net V → A)
    (client : PolymarketOrderClient A (Net V)) where
  -- The state after the fee rate was asked for, or was not.
  unfoldable pub Charged : Option String → Net V → Net V → Type 0
  Charged token g g' = (g' ≡ g) ⊎ (g' ≡ (client.get_fee_rate_bps token g).1)

  abbrev pub polled : String → Net V → Net V
  polled i g =
      (backoff_poll timer polling.fill_poll_budget polling.fill_poll_base_interval
        polling.fill_poll_max_interval
        (poll_resting cfg polling coid_of numbers timer wall client i) g).1

  conclude-Charged :
      (req : OrderRequest A) (i : String) (coid : Option String) (resp : PolyResponse A)
      (fill : A × A) (g : Net V)
      → Charged req.token_id g
          (conclude cfg polling coid_of numbers timer wall client req i coid resp fill g).1
  unfolding conclude poly_fees Charged
  conclude-Charged req i coid resp (size, price) g = ground arith

  rest_and_poll-Charged :
      (req : OrderRequest A) (i : String) (coid : Option String) (resp : PolyResponse A)
      (fill : A × A) (g : Net V)
      → Charged req.token_id
          (polled i g)
          (rest_and_poll cfg polling coid_of numbers timer wall client req i coid resp fill g).1
  unfolding rest_and_poll Charged
  rest_and_poll-Charged req i coid resp fill g =
      let poll = poll_resting cfg polling coid_of numbers timer wall client i in
      elim (Call-cases
        (backoff_poll timer polling.fill_poll_budget polling.fill_poll_base_interval
          polling.fill_poll_max_interval poll g).0) [
            | inl (e, h) ↦ rw (h, rest_and_poll) (inl refl)
            | inr (r, h) ↦ elim (Option-cases r) [
              | inl k ↦
                  rw (h, k, rest_and_poll) (conclude-Charged req i coid resp fill (polled i g))
              | inr (o, k) ↦ elim (Call-cases (parse_fill numbers.float_error o req none)) [
                | inl (e, l) ↦ rw (h, k, l, rest_and_poll) (inl refl)
                | inr (fill', l) ↦
                    rw (h, k, l, rest_and_poll)
                      (conclude-Charged req i coid resp fill' (polled i g))
              ]
            ]
          ]

  pub confirm_order-Charged :
      (req : OrderRequest A) (t : Tif) (amount : Option A) (i : String) (coid : Option String)
      (resp : PolyResponse A) (g : Net V)
      → let g' =
          (confirm_order cfg polling coid_of numbers timer wall client req t amount i coid resp
            g).1 in
        Charged req.token_id g g' ⊎ Charged req.token_id (polled i g) g'
  unfolding confirm_order Charged
  confirm_order-Charged req t amount i coid resp g =
      elim (Call-cases (parse_fill numbers.float_error resp req amount)) [
        | inl (e, h) ↦ rw (h, confirm_order) (inl (inl refl))
        | inr (fill, h) ↦ elim (Bool-cases (fl.le fill.0 (fl.decimal 0 1) && is_resting t)) [
          | inl k ↦ rw (h, k, confirm_order) (inr (rest_and_poll-Charged req i coid resp fill g))
          | inr k ↦ rw (h, k, confirm_order) (inl (conclude-Charged req i coid resp fill g))
        ]
      ]

  ambiguous_outcome-Charged :
      (req : OrderRequest A) (coid : Option String) (err : String) (g : Net V)
      → Charged req.token_id
          (client.get_trades g).1
          (ambiguous_outcome cfg polling coid_of numbers timer wall client req coid err g).1
  unfolding ambiguous_outcome find_recent_fill poly_fees Charged
  ambiguous_outcome-Charged req coid err g = ground arith

  pub handle-cases :
      (req : OrderRequest A) (t : Tif) (amount : Option A) (coid : Option String)
      (resp : PolyResponse A) (g : Net V)
      → let (p, g') =
          handle_poly_response cfg polling coid_of numbers timer wall client req t amount coid resp
            g in
        let i = text_or_empty resp.order_id in
        ((in_doubt resp ≡ true)
          × ((err : String) × (p
                ≡ returned
                    (ambiguous_outcome cfg polling coid_of numbers timer wall client req coid err
                      g).0)
              × (g'
                  ≡ (ambiguous_outcome cfg polling coid_of numbers timer wall client req coid err
                      g).1)))
        ⊎ ((in_doubt resp ≡ false)
            × ((g' ≡ g)
                ⊎ (g'
                    ≡ (confirm_order cfg polling coid_of numbers timer wall client req t amount i
                        coid resp g).1)))
  unfolding handle_poly_response
  handle-cases req t amount coid resp g = elim (Bool-cases (is_truthy resp.error)) [
    | inl h ↦ elim (Bool-cases (is_ambiguous_error (text_or_empty resp.error))) [
      | inl k ↦ rw (h, k, handle_poly_response) (inl (refl, (text_or_empty resp.error, refl, refl)))
      | inr k ↦ rw (h, k, handle_poly_response) (inr (refl, inl refl))
    ]
    | inr h ↦ elim (Bool-cases (is_truthy resp.order_id)) [
      | inl k ↦ rw (h, k, handle_poly_response) (inr (refl, inr refl))
      | inr k ↦ rw (h, k, handle_poly_response) (inl (refl, ("no_order_id", refl, refl)))
    ]
  ]

  pub send-cases :
      (req : OrderRequest A) (t : Tif) (amount : Option A) (coid : Option String) (g : Net V)
      → let g' =
          (send_poly_order cfg polling coid_of numbers timer wall client req t amount coid g).1 in
        (post : PolyPost A) × (((e : String) × ((client.place_order post g).0 ≡ threw e)
            × (g' ≡ (client.place_order post g).1))
          ⊎ ((resp : PolyResponse A) × ((client.place_order post g).0 ≡ gave resp)
              × (send_poly_order cfg polling coid_of numbers timer wall client req t amount coid g
                  ≡ handle_poly_response cfg polling coid_of numbers timer wall client req t amount
                      coid resp
                      (client.place_order post g).1)))
  unfolding send_poly_order
  send-cases req t amount coid g =
      let size : A = elim amount [ none ↦ req.size | some dollars ↦ dollars ] in
      let post = poly_post_of cfg polling coid_of numbers timer wall client req t size in
      elim (Call-cases (client.place_order post g).0) [
        | inl (e, h) ↦ (post, inl (e, h, rw (h, send_poly_order) refl))
        | inr (resp, h) ↦ (post, inr (resp, h, rw (h, send_poly_order) refl))
      ]

  pub submit-cases :
      (req : OrderRequest A) (coid : Option String) (g : Net V)
      → let r = submit_poly cfg polling coid_of numbers timer wall client req coid g in
        (r.1 ≡ g)
        ⊎ ((t : Tif) × (amount : Option A) × (r
              ≡ send_poly_order cfg polling coid_of numbers timer wall client req t amount coid g))
  unfolding submit_poly
  submit-cases req coid g =
      let t = order_type_or req.tif cfg.polymarket_order_type in
      let dollars = numbers.to_dollars (fl.mul req.size req.limit_price) in
      elim (Bool-cases (is_marketable t && is_buy req.action)) [
        | inr h ↦ rw (h, submit_poly) (inr (t, none, refl))
        | inl h ↦ elim (Bool-cases (fl.le req.limit_price (fl.decimal 0 1))) [
          | inl k ↦ rw (h, k, submit_poly) (inl refl)
          | inr k ↦ elim (Bool-cases (fl.le dollars (fl.decimal 0 1))) [
            | inl l ↦ rw (h, k, l, submit_poly) (inl refl)
            | inr l ↦ rw (h, k, l, submit_poly) (inr (t, some dollars, refl))
          ]
        ]
      ]

  pub place-cases :
      (req : OrderRequest A) (g : Net V)
      → let r = place_poly cfg polling coid_of numbers timer wall client req g in
        let h = (ask_lock cfg g).1 in
        (r.1 ≡ h)
        ⊎ ((coid : Option String) × (r
              ≡ submit_poly cfg polling coid_of numbers timer wall client req coid h))
  unfolding place_poly
  place-cases req g =
      let coid = (ensure_client_order_id coid_of [] req).client_order_id in
      elim (Bool-cases (ask_lock cfg g).0.0) [
        | inl h ↦ rw (h, place_poly) (inr (coid, refl))
        | inr h ↦ rw (h, place_poly) (inl refl)
      ]

  -- The calls other than the POST.
  module _ (P : Net V → Type 0) (gets : (i : String) (g : Net V) → P g → P (client.get_order i g).1)
      (trades : (g : Net V) → P g → P (client.get_trades g).1)
      (rates : (token : Option String) (g : Net V) → P g → P (client.get_fee_rate_bps token g).1)
      (sleeps : (d : ℕ) (g : Net V) → P g → P (timer.sleep d g)) where
    charged_keeps : (token : Option String) (g g' : Net V) → Charged token g g' → P g → P g'
    unfolding Charged
    charged_keeps token g g' (inl e) p = rw e p
    charged_keeps token g g' (inr e) p = rw e (rates token g p)

    poll_resting_keeps :
        (i : String) (g : Net V)
        → P g
        → P (poll_resting cfg polling coid_of numbers timer wall client i g).1
    unfolding poll_resting
    poll_resting_keeps i g p = elim (Call-cases (client.get_order i g).0) [
      | inl (e, h) ↦ rw (h, poll_resting) (gets i g p)
      | inr (resp, h) ↦ rw (h, poll_resting) (gets i g p)
    ]

    polled_keeps : (i : String) (g : Net V) → P g → P (polled i g)
    polled_keeps i g p =
        (backoff_poll_keeps timer P _ _ _
          (poll_resting cfg polling coid_of numbers timer wall client i) g
          (λ d h q. poll_resting_keeps i (timer.sleep d h) (sleeps d h q)) p).0

    pub handle_keeps :
        (req : OrderRequest A) (t : Tif) (amount : Option A) (coid : Option String)
        (resp : PolyResponse A) (g : Net V)
        → P g
        → P
            (handle_poly_response cfg polling coid_of numbers timer wall client req t amount coid
              resp g).1
    handle_keeps req t amount coid resp g p =
        let i = text_or_empty resp.order_id in
        elim (handle-cases req t amount coid resp g) [
          | inl (u, (err, e, h)) ↦
              rw h (charged_keeps _ _ _ (ambiguous_outcome-Charged req coid err g) (trades g p))
          | inr (u, inl h) ↦ rw h p
          | inr (u, inr h) ↦ rw h (elim (confirm_order-Charged req t amount i coid resp g) [
            | inl c ↦ charged_keeps _ _ _ c p
            | inr c ↦ charged_keeps _ _ _ c (polled_keeps i g p)
          ])
        ]
