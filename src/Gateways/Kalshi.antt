-- ===== src/Gateways/Kalshi.antt =====
-- kalshi_arbitrage/execution/venue_gateway.py: KalshiGateway, over an interface to the order client.
-- A response is a JSON object; an `order` that is empty is as good as none.
use text.Mathlib.Text.{◌==◌ as str_eq}
use kalshi.Common.{
  ℕ, suc, Bool, true, false, not, ◌&&◌, Option, none, some, List, [], ◌∷◌, String, is_truthy,
  if◌then◌else◌,
}
use kalshi.Common.Int.{ℤ, pos, negsuc, leb_ℤ, ltb_ℤ}
use kalshi.Float.{Float}
use kalshi.Config.{Config}
use kalshi.KillSwitch.{kalshi_venue}
use kalshi.Order.{
  OrderRequest, OrderOutcome, OutcomeSide, Action, Seed, Status, filled, partial, failed,
  ensure_client_order_id, bare_outcome,
}
use kalshi.Engine.{Placement, returned, raised, Gateway}
use kalshi.Books.Polymarket.{Field, missing, number, unreadable, or_zero}
use kalshi.Simulated.{model_kalshi_fee}
use kalshi.Gateways.{
  Call, gave, threw, Net, Numbers, Timer, PollSettings, VenueStatus, executed, fully_filled,
  canceled, expired, text_or_empty, ttl_or, failed_for, placement_of, ask_lock,
}
use kalshi.Gateways.Poll.{backoff_poll}

-- An order as the venue reports it; a fill has a trade id or a fill id.
pub record KalshiOrder (A : Type 0) : Type 0 where
  pub order_id : Option String
  pub status : VenueStatus
  pub count_filled : Field A
  pub average_fill_price : Field A
  pub fills : List (Option String × Option String)

-- The empty object, which stands for a missing order.
abbrev pub no_order : {A : Type 0} → KalshiOrder A
no_order = record {
  order_id = none;
  status = VenueStatus.other_status;
  count_filled = missing;
  average_fill_price = missing;
  fills = [];
}

-- A market, as far as its resolution is read.
pub record KalshiMarket : Type 0 where
  pub status : Option String
  pub result : Option String

pub record KalshiResponse (A : Type 0) : Type 0 where
  pub error : Option String
  pub order : Option (KalshiOrder A)
  pub balance : Field A
  pub market : Option KalshiMarket

-- The arguments of KalshiOrderClient.place_order.
pub record KalshiPost : Type 0 where
  pub ticker : Option String
  pub side : OutcomeSide
  pub action : Action
  pub count : ℤ
  pub price_cents : ℤ
  pub ttl_seconds : ℕ
  pub client_order_id : Option String
  pub risk_reducing : Bool

-- KalshiOrderClient, as far as the gateway calls it.
pub record KalshiOrderClient (A G : Type 0) : Type 0 where
  pub place_order : KalshiPost → G → Call (KalshiResponse A) × G
  pub get_order : String → G → Call (KalshiResponse A) × G
  pub cancel_order : String → G → Bool × G
  pub get_balance : G → Call (KalshiResponse A) × G

-- `max(1, min(99, c))`
abbrev pub clamp_cents : ℤ → ℤ
clamp_cents c =
    let low = if ltb_ℤ c (pos 99) then c else pos 99 in if ltb_ℤ (pos 1) low then low else pos 1

abbrev pub is_executed : VenueStatus → Bool
is_executed executed = true
is_executed fully_filled = true
is_executed _ = false

abbrev pub is_terminal : VenueStatus → Bool
is_terminal executed = true
is_terminal fully_filled = true
is_terminal canceled = true
is_terminal expired = true
is_terminal _ = false

abbrev pub order_or_empty : {A : Type 0} → KalshiResponse A → KalshiOrder A
order_or_empty r = elim r.order [ none ↦ no_order | some o ↦ o ]

-- `str(f.get("trade_id") or f.get("fill_id"))`, without the ids that are empty or "None".
abbrev pub fill_ids_of : List (Option String × Option String) → List String
fill_ids_of [] = []
fill_ids_of ((trade_id, fill_id) ∷ rest) =
    let i = text_or_empty (if is_truthy trade_id then trade_id else fill_id) in
    let ids = fill_ids_of rest in
    if is_truthy (some i) && not (str_eq i "None") then i ∷ ids else ids

module _ {A : Type 0} ⦃fl : Float A⦄ where
  open fl use {sub, mul, div, lt, le, of_nat, decimal}

  -- An int among floats.
  abbrev pub of_int : ℤ → A
  of_int (pos n) = of_nat n
  of_int (negsuc n) = sub (of_nat 0) (of_nat (suc n))

  abbrev pub fill_status : A → A → Status
  fill_status whole size =
      if le whole size then filled else if lt (decimal 0 1) size then partial else failed

  -- `float(avg_cents) / 100.0`, or the limit price.
  abbrev pub price_or : A → Field A → Option A
  price_or limit missing = some limit
  price_or limit (number c) = some (div c (decimal 1000 1))
  price_or limit unreadable = none

module _ {A V : Type 0} ⦃fl : Float A⦄ (cfg : Config A) (polling : PollSettings)
    (coid_of : Seed A → String) (numbers : Numbers A) (timer : Timer (Net V))
    (client : KalshiOrderClient A (Net V)) where
  open fl use {le, lt, decimal}
  open numbers use {truncate, to_cents, to_decimal, of_decimal, float_error}

  -- The outcome of a report whose numbers are readable.
  unfoldable pub report_outcome :
      OrderRequest A → KalshiOrder A → String → Option String → A → A → ℤ → OrderOutcome A
  report_outcome req order order_id coid size price count =
      record (bare_outcome kalshi_venue (fill_status (of_int count) size) req.size) {
        filled_size = size;
        avg_price = price;
        fees =
            if lt (decimal 0 1) size
            then model_kalshi_fee to_decimal of_decimal price size
            else decimal 0 1;
        order_id = some order_id;
        client_order_id = coid;
        fill_ids = fill_ids_of order.fills;
      }

  -- `_outcome_from_order`
  unfoldable pub outcome_from_order :
      OrderRequest A → KalshiOrder A → String → Option String → Call (OrderOutcome A)
  outcome_from_order req order order_id coid = elim (or_zero order.count_filled) [
    | none ↦ threw float_error
    | some size ↦ elim (price_or req.limit_price order.average_fill_price) [
      | none ↦ threw float_error
      | some price ↦ elim (truncate req.size) [
        | threw e ↦ threw e
        | gave count ↦ gave (report_outcome req order order_id coid size price count)
      ]
    ]
  ]

  -- `_poll`
  unfoldable pub poll_order : String → Net V → Call (Option (KalshiOrder A)) × Net V
  poll_order order_id g =
      let (r, g') = client.get_order order_id g in
      elim r [
        | threw e ↦ (threw e, g')
        | gave resp ↦
            let o = order_or_empty resp in
            (if is_terminal o.status then gave (some o) else gave none, g')
      ]

  -- What the fetch after the cancel shows; its exception is caught.
  abbrev pub refreshed : Call (KalshiResponse A) → Option (KalshiOrder A)
  refreshed (threw e) = none
  refreshed (gave resp) = resp.order

  -- `if out.filled_size <= 0: out.error = out.error or "poll_timeout"`
  abbrev pub note_timeout : Call (OrderOutcome A) → Call (OrderOutcome A)
  note_timeout (threw e) = threw e
  note_timeout (gave o) = gave (
      if le o.filled_size (decimal 0 1)
      then record o { error = if is_truthy o.error then o.error else some "poll_timeout" }
      else o)

  -- The order could not be verified: a failure that forbids a retry.
  unfoldable pub unverified : OrderRequest A → String → Option String → OrderOutcome A
  unverified req order_id coid = record (bare_outcome kalshi_venue failed req.size) {
    order_id = some order_id;
    client_order_id = coid;
    error = some "poll_timeout_unverified";
    retryable = false;
  }

  -- `if final is None`: cancel, and fetch the order once more.
  unfoldable pub after_timeout :
      OrderRequest A → String → Option String → Net V → Placement A × Net V
  unfolding unverified
  after_timeout req order_id coid g =
      let (r, g') = client.get_order order_id (client.cancel_order order_id g).1 in
      elim (refreshed r) [
        | some o ↦ (placement_of (note_timeout (outcome_from_order req o order_id coid)), g')
        | none ↦ (returned (unverified req order_id coid), g')
      ]

  -- Polling to a terminal state.
  unfoldable pub follow : OrderRequest A → String → Option String → Net V → Placement A × Net V
  unfolding outcome_from_order
  follow req order_id coid g =
      let (r, g') =
        backoff_poll timer polling.fill_poll_budget polling.fill_poll_base_interval
          polling.fill_poll_max_interval (poll_order order_id) g in
      elim r [
        | threw e ↦ (raised e, g')
        | gave final ↦ elim final [
          | some o ↦ (placement_of (outcome_from_order req o order_id coid), g')
          | none ↦ after_timeout req order_id coid g'
        ]
      ]

  -- What follows the response to the POST.
  unfoldable pub handle_response :
      OrderRequest A → Option String → KalshiResponse A → Net V → Placement A × Net V
  unfolding failed_for outcome_from_order
  handle_response req coid resp g =
      let order = order_or_empty resp in
      let order_id = text_or_empty order.order_id in
      elim resp.error [
        | some e ↦ (returned (failed_for kalshi_venue req.size (some e) coid), g)
        | none ↦ elim (is_executed order.status) [
          | true ↦ (placement_of (outcome_from_order req order order_id coid), g)
          | false ↦ follow req order_id coid g
        ]
      ]

  unfoldable pub post_of : OrderRequest A → Option String → ℤ → ℤ → KalshiPost
  post_of req coid count cents = record {
    ticker = req.ticker;
    side = req.outcome_side;
    action = req.action;
    count = count;
    price_cents = clamp_cents cents;
    ttl_seconds = ttl_or req.ttl_seconds polling.kalshi_order_ttl_seconds;
    client_order_id = coid;
    risk_reducing = req.risk_reducing;
  }

  unfoldable pub post_order :
      OrderRequest A → Option String → KalshiPost → Net V → Placement A × Net V
  post_order req coid post g =
      let (r, g') = client.place_order post g in
      elim r [ threw e ↦ (raised e, g') | gave resp ↦ handle_response req coid resp g' ]

  -- The part of `place` behind the live lock.
  unfoldable pub submit : OrderRequest A → Option String → Net V → Placement A × Net V
  unfolding failed_for
  submit req coid g = elim (truncate req.size) [
    | threw e ↦ (raised e, g)
    | gave count ↦ elim (leb_ℤ count (pos 0)) [
      | true ↦ (returned (failed_for kalshi_venue req.size (some "non_positive_size") coid), g)
      | false ↦ elim (to_cents req.limit_price) [
        | threw e ↦ (raised e, g)
        | gave cents ↦ post_order req coid (post_of req coid count cents) g
      ]
    ]
  ]

  unfoldable pub place_kalshi : OrderRequest A → Net V → Placement A × Net V
  unfolding failed_for
  place_kalshi req g =
      let coid = (ensure_client_order_id coid_of [] req).client_order_id in
      let ((armed, reason), g') = ask_lock cfg g in
      elim armed [
        | true ↦ submit req coid g'
        | false ↦ (returned (failed_for kalshi_venue req.size reason coid), g')
      ]

  -- `float(resp["balance"]) / 100.0`, if the response has a balance.
  unfoldable pub kalshi_balance : Net V → Call (Option A) × Net V
  kalshi_balance g =
      let (r, g') = client.get_balance g in
      elim r [
        | threw e ↦ (threw e, g')
        | gave resp ↦ (
          elim resp.balance [
            | missing ↦ gave none
            | number c ↦ gave (some (fl.div c (decimal 1000 1)))
            | unreadable ↦ threw float_error
          ],
          g',
        )
      ]

  unfoldable pub kalshi_gateway : Gateway A (Net V)
  unfolding place_kalshi
  kalshi_gateway = record {
    place = place_kalshi;
    cancel = λ order_id g. client.cancel_order order_id g;
  }
