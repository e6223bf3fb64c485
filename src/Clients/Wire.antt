-- ===== src/Clients/Wire.antt =====
-- kalshi_arbitrage/kalshi_executor.py under venue_gateway.py and single_leg.py: the requests that one
-- call of the engine's `execute` sends to Kalshi.
use kalshi.Common.{
  ℕ, Bool, true, false, Option, none, some, String, ◌≡◌, refl, ◌⊎◌, inl, inr, [], ◌∷◌, arith,
  is_truthy,
}
use kalshi.Common.Int.{ℤ, pos, ltb_ℤ, leb_ℤ, ◌*ℤ◌}
use kalshi.Float.{Float}
use kalshi.Config.{Config}
use kalshi.KillSwitch
use kalshi.KillSwitch.{Venue, KillSwitch, Disk}
use kalshi.LiveLock.{is_armed}
use kalshi.Order.{OrderRequest, OutcomeSide, Seed, seed, yes_side, no_side, ensure_client_order_id}
use kalshi.Engine.{Gateway, World, AttemptClock, execute}
use kalshi.Gateways.{gave, Net, Numbers, Timer, PollSettings}
use kalshi.Gateways.Kalshi.{KalshiPost, kalshi_gateway}
use kalshi.Gateways.Posts.{Fits}
use kalshi.Gateways.Identity.{execute_posts_one_order}
use kalshi.Clients.{
  Method, Endpoint, OrderBody, Http, get, post, delete, orders, order_at, body_of, place_order,
  cancel_order, get_order, kalshi_order_client,
}
use kalshi.Clients.Gate.{May, request-cases}

-- The price of an order stands on its side alone.
abbrev pub prices_of : OutcomeSide → ℤ → Option ℤ × Option ℤ
prices_of yes_side c = (some c, none)
prices_of no_side c = (none, some c)

module _ {A V : Type 0} ⦃fl : Float A⦄ (cfg : Config A) (polling : PollSettings)
    (coid_of : Seed A → String) (numbers : Numbers A) (timer : Timer (Net V)) (ttl_default : ℕ)
    (http : Http A V) where
  open http use {send}

  -- The body of an order as it should be: the whole part of the size, which is positive, at a price
  -- from 1 to 99 cents on the order's side, for at most their product, under the order's id.
  unfoldable pub Proper : OrderRequest A → Option String → OrderBody → Type 0
  Proper req coid body =
      (numbers.truncate req.size ≡ gave body.count)
      × (ltb_ℤ (pos 0) body.count ≡ true)
      × (body.client_order_id ≡ coid)
      × (body.ticker ≡ req.ticker)
      × (body.action ≡ req.action)
      × (body.side ≡ req.outcome_side)
      × ((c : ℤ) × (leb_ℤ (pos 1) c ≡ true)
          × (leb_ℤ c (pos 99) ≡ true)
          × (body.buy_max_cost ≡ c *ℤ body.count)
          × (body.yes_price ≡ (prices_of req.outcome_side c).0)
          × (body.no_price ≡ (prices_of req.outcome_side c).1))

  -- The state after a request.
  abbrev pub sent : Method → Endpoint → Option OrderBody → Net V → Net V
  sent method endpoint body g = record g { venue = (send method endpoint body g.venue).1 }

  id_is_truthy :
      (req : OrderRequest A) (stable_key : String)
      → ((s : Seed A) → is_truthy (some (coid_of s)) ≡ true)
      → is_truthy (ensure_client_order_id coid_of (stable_key ∷ []) req).client_order_id ≡ true
  unfolding ensure_client_order_id
  id_is_truthy req stable_key named = ground (arith, named (seed req (stable_key ∷ [])))

  module _ (disk : Disk) (k : KillSwitch A) where
    body_of-Proper :
        (req : OrderRequest A) (coid : Option String) (p : KalshiPost) (now : ℕ)
        → is_truthy coid ≡ true
        → Fits cfg polling coid_of numbers timer
            (kalshi_order_client cfg disk k ttl_default http)
            req
            coid
            p
        → Proper req coid (body_of cfg disk k ttl_default http p now)
    unfolding Fits body_of Proper
    body_of-Proper req coid p now named fits =
        let (whole, more, low, high, id, ticker, side, action, reduces) = fits in
        (
          whole,
          more,
          ground arith,
          ticker,
          action,
          side,
          (p.price_cents, low, high, refl, ground arith, ground arith),
        )

    -- What a gateway's calls of the client send.
    module _ (P : Net V → Type 0) (req : OrderRequest A) (coid : Option String)
        (named : is_truthy coid ≡ true)
        (gets : (e : Endpoint) (g : Net V) → P g → P (sent get e none g))
        (cancels : (i : String) (g : Net V)
          → is_armed cfg g.arm ≡ true
          → P g
          → P (sent delete (order_at i) none g))
        (posts : (body : OrderBody) (g : Net V)
          → Proper req coid body
          → is_armed cfg g.arm ≡ true
          → (KillSwitch.is_active cfg disk k ≡ none) ⊎ (req.risk_reducing ≡ true)
          → P g
          → P (sent post orders (some body) g)) where
      get_order_keeps :
          (i : String) (g : Net V) → P g → P (get_order cfg disk k ttl_default http i g).1
      unfolding get_order May
      get_order_keeps i g p =
          elim (request-cases cfg disk k ttl_default http get (order_at i) none false g) [
            | inl e ↦ rw e p
            | inr (may, e) ↦ rw e (gets (order_at i) g p)
          ]

      cancel_order_keeps :
          (i : String) (g : Net V) → P g → P (cancel_order cfg disk k ttl_default http i g).1
      unfolding cancel_order May
      cancel_order_keeps i g p =
          elim (request-cases cfg disk k ttl_default http delete (order_at i) none false g) [
            | inl e ↦ rw e p
            | inr (may, e) ↦ rw e (cancels i g (ground arith) p)
          ]

      place_order_keeps :
          (o : KalshiPost) (g : Net V)
          → Fits cfg polling coid_of numbers timer
              (kalshi_order_client cfg disk k ttl_default http)
              req
              coid
              o
          → P g
          → P (place_order cfg disk k ttl_default http o g).1
      unfolding place_order May Fits
      place_order_keeps o g fits p =
          let body = body_of cfg disk k ttl_default http o (http.seconds g.venue) in
          let proper = body_of-Proper req coid o (http.seconds g.venue) named fits in
          elim (request-cases cfg disk k ttl_default http post orders (some body) o.risk_reducing
            g) [
              | inl e ↦ rw e p
              | inr (may, e) ↦ rw e (posts body g proper (ground arith) (ground arith) p)
            ]

  -- One call of `execute` with a nonempty id for every order, through the gateway on the real
  -- client, sends to Kalshi, besides requests that only read: cancels, while the live lock is
  -- armed; and POSTs of one proper order, always under the client order id that was fixed at the
  -- start, while the lock is armed and the kill switch as it stood at the start is off or the
  -- order reduces risk. So what these requests, the lock's warning and sleeping keep, `execute`
  -- keeps.
  pub execute_sends_one_order :
      (gateways : Venue → Option (Gateway A (Net V))) (clock : ℕ → AttemptClock A)
      (req : OrderRequest A) (stable_key : String) (w : World A (Net V)) (P : Net V → Type 0)
      → let coid = (ensure_client_order_id coid_of (stable_key ∷ []) req).client_order_id in
        gateways req.venue
          ≡ some (
              kalshi_gateway cfg polling coid_of numbers timer
                (kalshi_order_client cfg w.disk w.kill ttl_default http))
        → ((s : Seed A) → is_truthy (some (coid_of s)) ≡ true)
        → ((b : Bool) (g : Net V) → P g → P (record g { warned = b }))
        → ((d : ℕ) (g : Net V) → P g → P (timer.sleep d g))
        → ((e : Endpoint) (g : Net V) → P g → P (sent get e none g))
        → ((i : String) (g : Net V)
            → is_armed cfg g.arm ≡ true
            → P g
            → P (sent delete (order_at i) none g))
        → ((body : OrderBody) (g : Net V)
            → Proper req coid body
            → is_armed cfg g.arm ≡ true
            → (KillSwitch.is_active cfg w.disk w.kill ≡ none) ⊎ (req.risk_reducing ≡ true)
            → P g
            → P (sent post orders (some body) g))
        → P w.gates
        → P (execute cfg coid_of gateways clock req stable_key w).1.gates
  unfolding kalshi_order_client
  execute_sends_one_order gateways clock req stable_key w P known named warns sleeps gets cancels
        posts p =
      let coid = (ensure_client_order_id coid_of (stable_key ∷ []) req).client_order_id in
      let shown = id_is_truthy req stable_key named in
      execute_posts_one_order cfg polling coid_of numbers timer
        (kalshi_order_client cfg w.disk w.kill ttl_default http) gateways clock req stable_key w P
        known named warns
        (λ o g fits _ q.
          place_order_keeps w.disk w.kill P req coid shown gets cancels posts o g fits q)
        (λ i g q. get_order_keeps w.disk w.kill P req coid shown gets cancels posts i g q)
        (λ i g q. cancel_order_keeps w.disk w.kill P req coid shown gets cancels posts i g q) sleeps
        p
