-- ===== src/Gateways/Identity.antt =====
-- kalshi_arbitrage/execution/venue_gateway.py with single_leg.py: the orders that the engine has
-- KalshiGateway post for one call of `execute`.
use kalshi.Common.{ℕ, Bool, true, Option, some, String, ◌≡◌, List, [], ◌∷◌, arith, is_truthy}
use kalshi.Float.{Float}
use kalshi.Config.{Config}
use kalshi.KillSwitch.{Venue}
use kalshi.LiveLock.{is_armed}
use kalshi.Order.{OrderRequest, Seed, seed, ensure_client_order_id}
use kalshi.Engine.{Gateway, World, AttemptClock, with_attempt, execute}
use kalshi.Engine.Placements.{execute_places_only}
use kalshi.Gateways.{Net, Numbers, Timer, PollSettings}
use kalshi.Gateways.Kalshi.{KalshiPost, KalshiOrderClient, kalshi_gateway}
use kalshi.Gateways.Posts.{Fits, place_kalshi_posts_only}

module _ {A V : Type 0} ⦃fl : Float A⦄ (cfg : Config A) (polling : PollSettings)
    (coid_of : Seed A → String) (numbers : Numbers A) (timer : Timer (Net V))
    (client : KalshiOrderClient A (Net V)) where
  same_identity :
      (req : OrderRequest A) (parts : List String) (k : ℕ)
      → ((s : Seed A) → is_truthy (some (coid_of s)) ≡ true)
      → (ensure_client_order_id coid_of []
          (with_attempt k (ensure_client_order_id coid_of parts req))).client_order_id
        ≡ (ensure_client_order_id coid_of parts req).client_order_id
  unfolding ensure_client_order_id
  same_identity req parts k named = ground (arith, named (seed req parts))

  original-Fits :
      (req : OrderRequest A) (parts : List String) (k : ℕ) (post : KalshiPost)
      → ((s : Seed A) → is_truthy (some (coid_of s)) ≡ true)
      → let req' = with_attempt k (ensure_client_order_id coid_of parts req) in
        Fits cfg polling coid_of numbers timer client req'
          (ensure_client_order_id coid_of [] req').client_order_id
          post
        → Fits cfg polling coid_of numbers timer client req
            (ensure_client_order_id coid_of parts req).client_order_id
            post
  unfolding Fits ensure_client_order_id
  original-Fits req parts k post named fits = ground (arith, named (seed req parts))

  -- One call of `execute` with a nonempty id for every order posts on Kalshi one order alone, however
  -- often it tries: only while the live lock is armed, always under the client order id that was
  -- fixed at the start, always with a positive count, the whole part of the size, and a price from
  -- 1 to 99 cents, on the request's market, side and action. So what such posts keep, and
  -- fetching, cancelling, the lock's warning and sleeping keep, `execute` keeps.
  pub execute_posts_one_order :
      (gateways : Venue → Option (Gateway A (Net V))) (clock : ℕ → AttemptClock A)
      (req : OrderRequest A) (stable_key : String) (w : World A (Net V)) (P : Net V → Type 0)
      → gateways req.venue ≡ some (kalshi_gateway cfg polling coid_of numbers timer client)
      → ((s : Seed A) → is_truthy (some (coid_of s)) ≡ true)
      → ((b : Bool) (g : Net V) → P g → P (record g { warned = b }))
      → ((post : KalshiPost) (g : Net V)
          → Fits cfg polling coid_of numbers timer client req
              (ensure_client_order_id coid_of (stable_key ∷ []) req).client_order_id
              post
          → is_armed cfg g.arm ≡ true
          → P g
          → P (client.place_order post g).1)
      → ((i : String) (g : Net V) → P g → P (client.get_order i g).1)
      → ((i : String) (g : Net V) → P g → P (client.cancel_order i g).1)
      → ((d : ℕ) (g : Net V) → P g → P (timer.sleep d g))
      → P w.gates
      → P (execute cfg coid_of gateways clock req stable_key w).1.gates
  unfolding kalshi_gateway
  execute_posts_one_order gateways clock req stable_key w P known named warns posts gets cancels
        sleeps p =
      let req' = ensure_client_order_id coid_of (stable_key ∷ []) req in
      execute_places_only cfg coid_of gateways clock (λ g. Unit) P
        (kalshi_gateway cfg polling coid_of numbers timer client) req stable_key w known
        (λ k g _ _ q. (
          place_kalshi_posts_only cfg polling coid_of numbers timer client P (with_attempt k req')
              warns
              (λ post h fits armed r.
                posts post h (original-Fits req (stable_key ∷ []) k post named fits) armed r)
              gets cancels sleeps g q,
          λ _. tt,
        ))
        tt p
