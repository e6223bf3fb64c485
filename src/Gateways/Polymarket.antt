-- ===== src/Gateways/Polymarket.antt =====
-- kalshi_arbitrage/execution/venue_gateway.py: PolymarketGateway, over an interface to the order
-- client. Its child Fills reads the fills out of the venue's responses and trades.
pub mod Fills
use Prim.Native.Char.{Char, code}
use Prim.Native.String.{[] as no_text, ◌∷◌ as put_char, ◌++◌ as str_append}
use kalshi.Common.{
  ℕ, Bool, true, false, ◌&&◌, ◌||◌, Option, none, some, List, [], ◌∷◌, String, ◌==◌, is_truthy,
  if◌then◌else◌,
}
use kalshi.Common.Int.{ℤ, pos}
use kalshi.Float.{Float}
use kalshi.Config.{Config, Tif, ioc, fok, fak, gtc, gtd}
use kalshi.KillSwitch.{polymarket_venue}
use kalshi.Order.{
  OrderRequest, OrderOutcome, Action, Seed, Status, is_buy, buy, sell, filled, partial, failed,
  ensure_client_order_id, bare_outcome,
}
use kalshi.LiveLock.{contains}
use kalshi.Engine.{Placement, returned, raised, Gateway}
use kalshi.Simulated.{model_polymarket_fee}
use kalshi.Gateways.{
  Call, gave, threw, Net, Numbers, Timer, PollSettings, VenueStatus, text_or_empty, matched,
  fully_filled, canceled, expired, ttl_or, failed_for, placement_of, ask_lock,
}
use kalshi.Gateways.Poll.{backoff_poll}
use kalshi.MockFills.{rate_or_zero}
use kalshi.Gateways.Polymarket.Fills.{
  PolyResponse, Trade, Found, parse_fill, find_fill, nothing_found,
}

-- The arguments of PolymarketOrderClient.place_order.
pub record PolyPost (A : Type 0) : Type 0 where
  pub token_id : Option String
  pub side : Action
  pub price : A
  pub size : A
  pub order_type : Tif
  pub ttl_seconds : ℕ

-- PolymarketOrderClient, and the fee client, as far as the gateway calls them.
pub record PolymarketOrderClient (A G : Type 0) : Type 0 where
  pub place_order : PolyPost A → G → Call (PolyResponse A) × G
  pub get_order : String → G → Call (PolyResponse A) × G
  pub get_trades : G → Call (List (Trade A)) × G
  pub cancel_order : String → G → Bool × G
  pub get_fee_rate_bps : Option String → G → Option ℤ × G

-- `str.lower`, of the ASCII letters.
abbrev pub fold_case : String → String → Char → Char
fold_case (put_char u us) (put_char l ls) c =
    let rest = fold_case us ls c in if code u == code c then l else rest
fold_case _ _ c = c

abbrev pub lower : String → String
lower no_text = ""
lower (put_char c s) =
    put_char (fold_case "ABCDEFGHIJKLMNOPQRSTUVWXYZ" "abcdefghijklmnopqrstuvwxyz" c) (lower s)

-- `_PM_AMBIGUOUS_MARKERS`
abbrev pub ambiguous_markers : List String
ambiguous_markers =
    "timeout" ∷ "timed out" ∷ "connection aborted" ∷ "connection reset" ∷ "connection error"
    ∷ "remote end closed" ∷ "broken pipe" ∷ "bad gateway" ∷ "gateway time-out" ∷ "gateway timeout"
    ∷ "service unavailable" ∷ []

abbrev pub has_marker : String → List String → Bool
has_marker e [] = false
has_marker e (m ∷ ms) = contains e m || has_marker e ms

unfoldable pub is_ambiguous_error : String → Bool
is_ambiguous_error error = has_marker (lower error) ambiguous_markers

-- `req.tif` if it is an order type of the venue.
abbrev pub order_type_or : Tif → Tif → Tif
order_type_or ioc default = default
order_type_or t default = t

abbrev pub is_marketable : Tif → Bool
is_marketable fok = true
is_marketable fak = true
is_marketable _ = false

abbrev pub is_resting : Tif → Bool
is_resting gtc = true
is_resting gtd = true
is_resting _ = false

abbrev pub is_over : VenueStatus → Bool
is_over matched = true
is_over fully_filled = true
is_over canceled = true
is_over expired = true
is_over _ = false

module _ {A V : Type 0} ⦃fl : Float A⦄ (cfg : Config A) (polling : PollSettings)
    (coid_of : Seed A → String) (numbers : Numbers A) (timer : Timer (Net V)) (wall : Net V → A)
    (client : PolymarketOrderClient A (Net V)) where
  open fl use {le, lt, mul, sub, decimal}
  open numbers use {to_dollars, to_decimal, of_decimal, float_error}

  -- `_fees`
  unfoldable pub poly_fees : Option String → A → A → Net V → A × Net V
  poly_fees token price size g =
      let (rate, g') = client.get_fee_rate_bps token g in
      let fee = model_polymarket_fee to_decimal of_decimal price size (rate_or_zero rate) in
      if le size (decimal 0 1) then (decimal 0 1, g) else (fee, g')

  -- `_find_recent_fill`, over a window of 120 seconds.
  unfoldable pub find_recent_fill : OrderRequest A → Net V → Found A × Net V
  find_recent_fill req g =
      let (r, g') = client.get_trades g in
      elim r [
        | threw e ↦ (nothing_found req, g')
        | gave trades ↦ (find_fill req (sub (wall g') (decimal 1200 1)) trades, g')
      ]

  -- A size is as good as the whole order from 99.9% of it on.
  abbrev pub poly_status : A → A → Status
  poly_status requested size =
      if le (mul requested (decimal 999 3)) size
      then filled
      else if lt (decimal 0 1) size
      then partial
      else failed

  unfoldable pub reconciled_outcome :
      OrderRequest A → Option String → String → Found A → A → OrderOutcome A
  reconciled_outcome req coid err found fee =
      record (bare_outcome polymarket_venue
        (if le (mul req.size (decimal 999 3)) found.size then filled else partial) req.size) {
          filled_size = found.size;
          avg_price = found.price;
          fees = fee;
          order_id = found.order_id;
          client_order_id = coid;
          error = some (str_append "ambiguous_post_reconciled:" err);
          trade_ids = found.trade_ids;
        }

  unfoldable pub ambiguous_failure : OrderRequest A → Option String → String → OrderOutcome A
  unfolding failed_for
  ambiguous_failure req coid err =
      record (failed_for polymarket_venue req.size (some (str_append "ambiguous_post:" err)) coid) {
        retryable = false;
      }

  -- `_ambiguous_outcome`
  unfoldable pub ambiguous_outcome :
      OrderRequest A → Option String → String → Net V → OrderOutcome A × Net V
  unfolding find_recent_fill
  ambiguous_outcome req coid err g =
      let (found, g') = find_recent_fill req g in
      let (fee, g'') = poly_fees req.token_id found.price found.size g' in
      if lt (decimal 0 1) found.size
      then (reconciled_outcome req coid err found fee, g'')
      else (ambiguous_failure req coid err, g')

  unfoldable pub poll_resting : String → Net V → Call (Option (PolyResponse A)) × Net V
  poll_resting order_id g =
      let (r, g') = client.get_order order_id g in
      elim r [
        | threw e ↦ (threw e, g')
        | gave resp ↦ (if is_over resp.status then gave (some resp) else gave none, g')
      ]

  -- What is returned of an order with an id, from its filled size and average price.
  unfoldable pub conclude :
      OrderRequest A → String → Option String → PolyResponse A → A × A → Net V → Placement A × Net V
  unfolding poly_fees
  conclude req order_id coid resp (size, price) g =
      let (fee, g') = poly_fees req.token_id price size g in
      (
        returned (record (bare_outcome polymarket_venue (poly_status req.size size) req.size) {
          filled_size = size;
          avg_price = price;
          fees = fee;
          order_id = some order_id;
          client_order_id = coid;
          trade_ids = resp.trade_ids;
        }),
        g',
      )

  -- A resting order without a fill is polled.
  unfoldable pub rest_and_poll :
      OrderRequest A → String → Option String → PolyResponse A → A × A → Net V → Placement A × Net V
  unfolding conclude
  rest_and_poll req order_id coid resp fill g =
      let (r, g') =
        backoff_poll timer polling.fill_poll_budget polling.fill_poll_base_interval
          polling.fill_poll_max_interval (poll_resting order_id) g in
      elim r [
        | threw e ↦ (raised e, g')
        | gave final ↦ elim final [
          | none ↦ conclude req order_id coid resp fill g'
          | some o ↦ elim (parse_fill float_error o req none) [
            | threw e ↦ (raised e, g')
            | gave fill' ↦ conclude req order_id coid resp fill' g'
          ]
        ]
      ]

  -- The response carries an order id.
  unfoldable pub confirm_order :
      OrderRequest A
      → Tif
      → Option A
      → String
      → Option String
      → PolyResponse A
      → Net V
      → Placement A × Net V
  unfolding conclude rest_and_poll
  confirm_order req order_type amount order_id coid resp g =
      elim (parse_fill float_error resp req amount) [
        | threw e ↦ (raised e, g)
        | gave fill ↦ elim (le fill.0 (decimal 0 1) && is_resting order_type) [
          | true ↦ rest_and_poll req order_id coid resp fill g
          | false ↦ conclude req order_id coid resp fill g
        ]
      ]

  -- What follows the response to the POST: an error, with the doubt whether the order has landed
  -- all the same, no order id, or one.
  unfoldable pub handle_poly_response :
      OrderRequest A → Tif → Option A → Option String → PolyResponse A → Net V → Placement A × Net V
  unfolding failed_for
  handle_poly_response req order_type amount coid resp g =
      let err = text_or_empty resp.error in
      let order_id = text_or_empty resp.order_id in
      let in_doubt : String → Placement A × Net V =
        λ (e : String). let (o, g') = ambiguous_outcome req coid e g in (returned o, g') in
      elim (is_truthy resp.error) [
        | true ↦ elim (is_ambiguous_error err) [
          | true ↦ in_doubt err
          | false ↦ (returned (failed_for polymarket_venue req.size (some err) coid), g)
        ]
        | false ↦ elim (is_truthy resp.order_id) [
          | true ↦ confirm_order req order_type amount order_id coid resp g
          | false ↦ in_doubt "no_order_id"
        ]
      ]

  unfoldable pub poly_post_of : OrderRequest A → Tif → A → PolyPost A
  poly_post_of req order_type size = record {
    token_id = req.token_id;
    side = req.action;
    price = req.limit_price;
    size = size;
    order_type = order_type;
    ttl_seconds = ttl_or req.ttl_seconds polling.polymarket_order_ttl_seconds;
  }

  unfoldable pub send_poly_order :
      OrderRequest A → Tif → Option A → Option String → Net V → Placement A × Net V
  unfolding poly_post_of
  send_poly_order req order_type amount coid g =
      let size : A = elim amount [ none ↦ req.size | some dollars ↦ dollars ] in
      let (r, g') = client.place_order (poly_post_of req order_type size) g in
      elim r [
        | threw e ↦ (raised e, g')
        | gave resp ↦ handle_poly_response req order_type amount coid resp g'
      ]

  -- A marketable buy is sent as an amount of dollars.
  unfoldable pub submit_poly : OrderRequest A → Option String → Net V → Placement A × Net V
  unfolding failed_for
  submit_poly req coid g =
      let order_type = order_type_or req.tif cfg.polymarket_order_type in
      let dollars = to_dollars (mul req.size req.limit_price) in
      let refuse : String → Placement A × Net V =
        λ (e : String). (returned (failed_for polymarket_venue req.size (some e) coid), g) in
      elim (is_marketable order_type && is_buy req.action) [
        | false ↦ send_poly_order req order_type none coid g
        | true ↦ elim (le req.limit_price (decimal 0 1)) [
          | true ↦ refuse "marketable_buy_requires_limit_price"
          | false ↦ elim (le dollars (decimal 0 1)) [
            | true ↦ refuse "non_positive_notional"
            | false ↦ send_poly_order req order_type (some dollars) coid g
          ]
        ]
      ]

  unfoldable pub place_poly : OrderRequest A → Net V → Placement A × Net V
  unfolding failed_for
  place_poly req g =
      let coid = (ensure_client_order_id coid_of [] req).client_order_id in
      let ((armed, reason), g') = ask_lock cfg g in
      elim armed [
        | true ↦ submit_poly req coid g'
        | false ↦ (returned (failed_for polymarket_venue req.size reason coid), g')
      ]

  unfoldable pub poly_gateway : Gateway A (Net V)
  unfolding place_poly
  poly_gateway = record {
    place = place_poly;
    cancel = λ order_id g. client.cancel_order order_id g;
  }
