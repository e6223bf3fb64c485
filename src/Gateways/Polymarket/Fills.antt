-- ===== src/Gateways/Polymarket/Fills.antt =====
-- kalshi_arbitrage/execution/venue_gateway.py: what PolymarketGateway reads out of a response
-- (`_parse_fill`) and out of the recent trades (`_find_recent_fill`).
use text.Mathlib.Text.{◌==◌ as str_eq}
use kalshi.Common.{
  Bool, true, false, not, ◌&&◌, Option, none, some, List, [], ◌∷◌, ◌++◌, String, is_truthy,
  if◌then◌else◌,
}
use kalshi.Float.{Float}
use kalshi.Order.{OrderRequest, Action, buy, sell}
use kalshi.Gateways.{Call, gave, threw, VenueStatus, text_or_empty}

-- A value of a JSON field, as `float` and the truth test see it: missing or null, the empty text, a
-- number, a text that reads as a number, anything else.
pub data Value (A : Type 0) : Type 0 where
  null : Value A
  empty : Value A
  number : A → Value A
  numeral : A → Value A
  opaque : Value A

pub record PolyResponse (A : Type 0) : Type 0 where
  pub error : Option String
  pub order_id : Option String
  pub status : VenueStatus
  pub success : Bool
  pub size_matched : Value A
  pub size_matched_camel : Value A  -- "sizeMatched"
  pub matched_size : Value A
  pub price : Value A
  pub taking_amount_camel : Value A  -- "takingAmount"
  pub taking_amount : Value A
  pub making_amount_camel : Value A  -- "makingAmount"
  pub making_amount : Value A
  pub trade_ids : List String  -- the first list of ids that is not empty, without empty ids

-- The side of a trade in capitals.
pub data TradeSide : Type 0 where
  bought sold blank other_side : TradeSide

pub record Trade (A : Type 0) : Type 0 where
  pub asset_id : Option String
  pub token_id : Option String
  pub market : Option String
  pub side : TradeSide
  pub match_time : Value A
  pub timestamp : Value A
  pub created_at : Value A
  pub size : Value A
  pub price : Value A
  pub taker_order_id : Option String
  pub order_id : Option String
  pub id : Option String
  pub trade_id : Option String

-- What the scan of the trades returns.
pub record Found (A : Type 0) : Type 0 where
  pub size : A
  pub price : A
  pub order_id : Option String
  pub trade_ids : List String

-- The sums of the scan so far.
pub record Scan (A : Type 0) : Type 0 where
  pub filled : A
  pub notional : A
  pub order_id : Option String
  pub trade_ids : List String

-- `a or b`, of texts.
abbrev pub first_text : Option String → Option String → Option String
first_text a b = if is_truthy a then a else b

-- A trade against the order's side passes unless its side is given and different.
abbrev pub side_agrees : Action → TradeSide → Bool
side_agrees a blank = true
side_agrees buy bought = true
side_agrees sell sold = true
side_agrees _ _ = false

module _ {A : Type 0} where
  abbrev pub is_null : Value A → Bool
  is_null null = true
  is_null _ = false

  -- `float(v)`, or an exception.
  abbrev pub to_float : Value A → Option A
  to_float (number x) = some x
  to_float (numeral x) = some x
  to_float _ = none

module _ {A : Type 0} ⦃fl : Float A⦄ where
  open fl use {lt, le, add, mul, div, decimal}

  abbrev pub is_true : Value A → Bool
  is_true null = false
  is_true empty = false
  is_true (number x) = not (fl.is_zero x)
  is_true (numeral x) = true
  is_true opaque = true

  -- `a or b`
  abbrev pub first_true : Value A → Value A → Value A
  first_true a b = if is_true a then a else b

  -- The first key with a value that `float` reads.
  abbrev pub first_matched : List (Value A) → Option A
  first_matched [] = none
  first_matched (v ∷ vs) =
      let rest = first_matched vs in elim (to_float v) [ some x ↦ some x | none ↦ rest ]

  -- The average price beside an explicit size: here `float` may raise.
  abbrev pub explicit_price : String → PolyResponse A → OrderRequest A → Call A
  explicit_price float_error resp req =
      if is_null resp.price
      then gave req.limit_price
      else elim (to_float resp.price) [ none ↦ threw float_error | some p ↦ gave p ]

  -- For a buy, dollars are made and shares taken; for a sell the other way round.
  abbrev pub shares_of : Action → A → A → Option (A × A)
  shares_of buy taking making =
      if lt (decimal 0 1) taking then some (taking, div making taking) else none
  shares_of sell taking making =
      if lt (decimal 0 1) making then some (making, div taking making) else none

  abbrev pub from_amounts : PolyResponse A → OrderRequest A → Option (A × A)
  from_amounts resp req =
      let taking = first_true resp.taking_amount_camel resp.taking_amount in
      let making = first_true resp.making_amount_camel resp.making_amount in
      elim (to_float taking) [
        | none ↦ none
        | some t ↦ elim (to_float making) [ none ↦ none | some m ↦ shares_of req.action t m ]
      ]

  -- `float(resp.get("price") or req.limit_price)`, or the limit price.
  abbrev pub price_or_limit : PolyResponse A → OrderRequest A → A
  price_or_limit resp req =
      if is_true resp.price
      then elim (to_float resp.price) [ none ↦ req.limit_price | some p ↦ p ]
      else req.limit_price

  -- The last resort: a bare success.
  abbrev pub from_success : PolyResponse A → OrderRequest A → Option A → A × A
  from_success resp req amount =
      let nothing : A × A = (decimal 0 1, req.limit_price) in
      let price = price_or_limit resp req in
      let of_dollars : A → A × A =
        λ (dollars : A). if lt (decimal 0 1) price then (div dollars price, price) else nothing in
      let of_shares : A × A = (req.size, req.limit_price) in
      if resp.success
      then elim amount [
        | none ↦ of_shares
        | some dollars ↦ elim req.action [ buy ↦ of_dollars dollars | sell ↦ of_shares ]
      ]
      else nothing

  -- `_parse_fill`: the filled size in shares and the average price.
  unfoldable pub parse_fill : String → PolyResponse A → OrderRequest A → Option A → Call (A × A)
  parse_fill float_error resp req amount =
      elim (first_matched (resp.size_matched ∷ resp.size_matched_camel ∷ resp.matched_size ∷ [])) [
        | some size ↦ elim (explicit_price float_error resp req) [
          | threw e ↦ threw e
          | gave price ↦ gave (size, price)
        ]
        | none ↦ elim (from_amounts resp req) [
          | some fill ↦ gave fill
          | none ↦ gave (from_success resp req amount)
        ]
      ]

  -- `return 0.0, req.limit_price, None, []`
  abbrev pub nothing_found : OrderRequest A → Found A
  nothing_found req = record {
    size = decimal 0 1;
    price = req.limit_price;
    order_id = none;
    trade_ids = [];
  }

  -- `float(t.get(key) or 0)`
  abbrev pub float_or_zero : Value A → Option A
  float_or_zero v = if is_true v then to_float v else some (decimal 0 1)

  -- A trade of the token and the side that is not known to be older than the cutoff.
  unfoldable pub is_candidate : OrderRequest A → A → Trade A → Bool
  is_candidate req cutoff t =
      let token = text_or_empty (first_text t.asset_id (first_text t.token_id t.market)) in
      let wanted : String = elim req.token_id [ none ↦ "None" | some i ↦ i ] in
      let ts = first_true t.match_time (first_true t.timestamp t.created_at) in
      let old : Bool = elim (to_float ts) [ none ↦ false | some at ↦ lt at cutoff ] in
      str_eq token wanted && side_agrees req.action t.side && not old

  -- The size and the price of a trade that counts.
  abbrev pub size_and_price : Trade A → Option (A × A)
  size_and_price t = elim (float_or_zero t.size) [
    | none ↦ none
    | some size ↦ elim (float_or_zero t.price) [
      | none ↦ none
      | some price ↦ if le size (decimal 0 1) then none else some (size, price)
    ]
  ]

  abbrev pub add_trade : Trade A → A × A → Scan A → Scan A
  add_trade t (size, price) s =
      let own = first_text t.taker_order_id t.order_id in
      let tid = first_text t.id t.trade_id in
      record {
        filled = add s.filled size;
        notional = add s.notional (mul size price);
        order_id = if is_truthy s.order_id then s.order_id else if is_truthy own then own else none;
        trade_ids = if is_truthy tid then s.trade_ids ++ text_or_empty tid ∷ [] else s.trade_ids;
      }

  -- The loop over the trades.
  unfoldable pub scan_trades : OrderRequest A → A → List (Trade A) → Scan A → Scan A
  unfolding is_candidate
  scan_trades req cutoff [] s = s
  scan_trades req cutoff (t ∷ ts) s =
      let rest = scan_trades req cutoff ts in
      if is_candidate req cutoff t
      then elim (size_and_price t) [ none ↦ rest s | some fill ↦ rest (add_trade t fill s) ]
      else rest s

  unfoldable pub find_fill : OrderRequest A → A → List (Trade A) → Found A
  unfolding scan_trades
  find_fill req cutoff trades =
      let s = scan_trades req cutoff trades (record {
        filled = decimal 0 1;
        notional = decimal 0 1;
        order_id = none;
        trade_ids = [];
      }) in
      record {
        size = s.filled;
        price = if lt (decimal 0 1) s.filled then div s.notional s.filled else req.limit_price;
        order_id = s.order_id;
        trade_ids = s.trade_ids;
      }
