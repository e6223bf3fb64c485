-- ===== src/Gateways/Posts.antt =====
-- kalshi_arbitrage/execution/venue_gateway.py: which orders KalshiGateway posts.
use kalshi.Common.{
  ℕ, Bool, true, false, Option, String, ◌≡◌, refl, ◌⊎◌, inl, inr, [], arith, Bool-cases,
}
use kalshi.Common.Int.{ℤ, pos, leb_ℤ, ltb_ℤ}
use kalshi.Float.{Float}
use kalshi.Config.{Config}
use kalshi.LiveLock.{is_armed, assert_or_warn}
use kalshi.Order.{OrderRequest, Seed, ensure_client_order_id}
use kalshi.Gateways.{gave, Call-cases, text_or_empty, Net, Numbers, Timer, PollSettings, ask_lock}
use kalshi.Gateways.Poll.{backoff_poll, backoff_poll_keeps}
use kalshi.Gateways.Kalshi.{
  KalshiPost, KalshiOrderClient, KalshiResponse, order_or_empty, poll_order, after_timeout, follow,
  handle_response, post_of, post_order, submit, place_kalshi,
}

module _ {A V : Type 0} ⦃fl : Float A⦄ (cfg : Config A) (polling : PollSettings)
    (coid_of : Seed A → String) (numbers : Numbers A) (timer : Timer (Net V))
    (client : KalshiOrderClient A (Net V)) where
  open numbers use {truncate}

  -- A POST as it should be: a positive count, the whole part of the order's size; a price from one
  -- cent to 99; the order's identity, its side, its mark of reducing risk and its market.
  unfoldable pub Fits : OrderRequest A → Option String → KalshiPost → Type 0
  Fits req coid post =
      (truncate req.size ≡ gave post.count)
      × (ltb_ℤ (pos 0) post.count ≡ true)
      × (leb_ℤ (pos 1) post.price_cents ≡ true)
      × (leb_ℤ post.price_cents (pos 99) ≡ true)
      × (post.client_order_id ≡ coid)
      × (post.ticker ≡ req.ticker)
      × (post.side ≡ req.outcome_side)
      × (post.action ≡ req.action)
      × (post.risk_reducing ≡ req.risk_reducing)

  post_of-Fits :
      (req : OrderRequest A) (coid : Option String) (count cents : ℤ)
      → truncate req.size ≡ gave count
      → leb_ℤ count (pos 0) ≡ false
      → Fits req coid (post_of cfg polling coid_of numbers timer client req coid count cents)
  unfolding Fits post_of
  post_of-Fits req coid count cents e h = ground arith

  abbrev polled : String → Net V → Net V
  polled i g =
      (backoff_poll timer polling.fill_poll_budget polling.fill_poll_base_interval
        polling.fill_poll_max_interval (poll_order cfg polling coid_of numbers timer client i) g).1

  venue-after_timeout :
      (req : OrderRequest A) (i : String) (coid : Option String) (g : Net V)
      → (after_timeout cfg polling coid_of numbers timer client req i coid g).1
        ≡ (client.get_order i (client.cancel_order i g).1).1
  unfolding after_timeout
  venue-after_timeout req i coid g = ground arith

  follow-cases :
      (req : OrderRequest A) (i : String) (coid : Option String) (g : Net V)
      → let g' = (follow cfg polling coid_of numbers timer client req i coid g).1 in
        (g' ≡ polled i g) ⊎ (g' ≡ (client.get_order i (client.cancel_order i (polled i g)).1).1)
  unfolding follow
  follow-cases req i coid g = ground (arith, venue-after_timeout req i coid (polled i g))

  handle_response-cases :
      (req : OrderRequest A) (coid : Option String) (resp : KalshiResponse A) (g : Net V)
      → let g' = (handle_response cfg polling coid_of numbers timer client req coid resp g).1 in
        let i = text_or_empty (order_or_empty resp).order_id in
        (g' ≡ g) ⊎ (g' ≡ (follow cfg polling coid_of numbers timer client req i coid g).1)
  unfolding handle_response
  handle_response-cases req coid resp g = ground arith

  post_order-cases :
      (req : OrderRequest A) (coid : Option String) (post : KalshiPost) (g : Net V)
      → let g' = (post_order cfg polling coid_of numbers timer client req coid post g).1 in
        let h = (client.place_order post g).1 in
        (g' ≡ h)
        ⊎ ((resp : KalshiResponse A) × (g'
              ≡ (handle_response cfg polling coid_of numbers timer client req coid resp h).1))
  unfolding post_order
  post_order-cases req coid post g = elim (Call-cases (client.place_order post g).0) [
    | inl (e, h) ↦ rw (h, post_order) (inl refl)
    | inr (resp, h) ↦ rw (h, post_order) (inr (resp, refl))
  ]

  submit-cases :
      (req : OrderRequest A) (coid : Option String) (g : Net V)
      → let g' = (submit cfg polling coid_of numbers timer client req coid g).1 in
        (g' ≡ g)
        ⊎ ((post : KalshiPost) × Fits req coid post
            × (g' ≡ (post_order cfg polling coid_of numbers timer client req coid post g).1))
  unfolding submit
  submit-cases req coid g = elim (Call-cases (truncate req.size)) [
    | inl (e, h) ↦ rw (h, submit) (inl refl)
    | inr (count, h) ↦ elim (Bool-cases (leb_ℤ count (pos 0))) [
      | inl none_left ↦ rw (h, none_left, submit) (inl refl)
      | inr some_left ↦ elim (Call-cases (numbers.to_cents req.limit_price)) [
        | inl (e, k) ↦ rw (h, some_left, k, submit) (inl refl)
        | inr (cents, k) ↦
            rw (h, some_left, k, submit)
              (inr (
                post_of cfg polling coid_of numbers timer client req coid count cents,
                post_of-Fits req coid count cents h some_left,
                refl,
              ))
      ]
    ]
  ]

  place_kalshi-cases :
      (req : OrderRequest A) (g : Net V)
      → let coid = (ensure_client_order_id coid_of [] req).client_order_id in
        let h = (ask_lock cfg g).1 in
        let g' = (place_kalshi cfg polling coid_of numbers timer client req g).1 in
        (g' ≡ h)
        ⊎ ((is_armed cfg g.arm ≡ true)
            × (g' ≡ (submit cfg polling coid_of numbers timer client req coid h).1))
  unfolding place_kalshi ask_lock assert_or_warn
  place_kalshi-cases req g = ground arith

  -- What is kept by the client's calls, the lock's warning and the passing of time.
  module _ (P : Net V → Type 0) (req : OrderRequest A)
      (warns : (b : Bool) (g : Net V) → P g → P (record g { warned = b }))
      (posts : (post : KalshiPost) (g : Net V)
        → Fits req (ensure_client_order_id coid_of [] req).client_order_id post
        → is_armed cfg g.arm ≡ true
        → P g
        → P (client.place_order post g).1)
      (gets : (i : String) (g : Net V) → P g → P (client.get_order i g).1)
      (cancels : (i : String) (g : Net V) → P g → P (client.cancel_order i g).1)
      (sleeps : (d : ℕ) (g : Net V) → P g → P (timer.sleep d g)) where
    poll_order_keeps :
        (i : String) (g : Net V)
        → P g
        → P (poll_order cfg polling coid_of numbers timer client i g).1
    unfolding poll_order
    poll_order_keeps i g p = elim (Call-cases (client.get_order i g).0) [
      | inl (e, h) ↦ rw (h, poll_order) (gets i g p)
      | inr (resp, h) ↦ rw (h, poll_order) (gets i g p)
    ]

    polled_keeps : (i : String) (g : Net V) → P g → P (polled i g)
    polled_keeps i g p =
        (backoff_poll_keeps timer P _ _ _ (poll_order cfg polling coid_of numbers timer client i) g
          (λ d h q. poll_order_keeps i (timer.sleep d h) (sleeps d h q)) p).0

    follow_keeps :
        (i : String) (coid : Option String) (g : Net V)
        → P g
        → P (follow cfg polling coid_of numbers timer client req i coid g).1
    follow_keeps i coid g p =
        let q = polled_keeps i g p in
        elim (follow-cases req i coid g) [
          | inl e ↦ rw e q
          | inr e ↦ rw e (gets i _ (cancels i _ q))
        ]

    handle_response_keeps :
        (coid : Option String) (resp : KalshiResponse A) (g : Net V)
        → P g
        → P (handle_response cfg polling coid_of numbers timer client req coid resp g).1
    handle_response_keeps coid resp g p = elim (handle_response-cases req coid resp g) [
      | inl e ↦ rw e p
      | inr e ↦ rw e (follow_keeps (text_or_empty (order_or_empty resp).order_id) coid g p)
    ]

    post_order_keeps :
        (coid : Option String) (post : KalshiPost) (g : Net V)
        → P (client.place_order post g).1
        → P (post_order cfg polling coid_of numbers timer client req coid post g).1
    post_order_keeps coid post g p = elim (post_order-cases req coid post g) [
      | inl e ↦ rw e p
      | inr (resp, e) ↦ rw e (handle_response_keeps coid resp _ p)
    ]

    -- Whatever the clients answer, a placement posts only while the live lock is armed, and only
    -- an order that fits the request: a positive count, the whole part of the size; a price from 1
    -- to 99 cents; the request's client order id, market, side, action and mark of reducing risk.
    -- So what such posts keep, and fetching, cancelling, the lock's warning and sleeping keep, the
    -- placement keeps.
    pub place_kalshi_posts_only :
        (g : Net V) → P g → P (place_kalshi cfg polling coid_of numbers timer client req g).1
    unfolding ask_lock assert_or_warn
    place_kalshi_posts_only g p =
        let coid = (ensure_client_order_id coid_of [] req).client_order_id in
        let q = warns _ g p in
        elim (place_kalshi-cases req g) [
          | inl e ↦ rw e q
          | inr (armed, e) ↦ elim (submit-cases req coid (ask_lock cfg g).1) [
            | inl k ↦ rw (e, k) q
            | inr (post, fits, k) ↦
                rw (e, k) (post_order_keeps coid post _ (posts post _ fits armed q))
          ]
        ]
