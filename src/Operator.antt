-- ===== src/Operator.antt =====
-- kalshi_arbitrage/execution/operator.py: OperatorControls over the engine. The exception that
-- `flatten_all` catches around `execute` has no counterpart: the engine's `execute` returns.
pub mod Flatten
use Prim.Native.String.{◌++◌ as str_append}
use kalshi.Common.{
  ℕ, ◌+◌, Bool, true, false, not, ◌||◌, Option, none, some, List, [], ◌∷◌, String, is_truthy,
  length, filter, ltb, if◌then◌else◌,
}
use kalshi.Float.{Float}
use kalshi.Config.{Config, ioc, fok}
use kalshi.KillSwitch
use kalshi.KillSwitch.{Venue, kalshi_venue, polymarket_venue, TripReason, given}
use kalshi.Order.{Action, buy, sell, yes_side, Status, Meta, OrderRequest, OrderOutcome, Seed}
use kalshi.Engine.{Gateway, World, AttemptClock, trip_kill, execute}

-- The keys that `_unwind_request` reads of a position, under either venue's names. A quantity is a
-- number; a key that is absent is `none`.
pub record Position (A : Type 0) : Type 0 where
  pub ticker : Option String
  pub market_ticker : Option String
  pub position : Option A
  pub net_position : Option A
  pub asset : Option String
  pub token_id : Option String
  pub token_id_camel : Option String
  pub size : Option A
  pub net_size : Option A

-- What the report says of one unwind.
pub record Entry (A : Type 0) : Type 0 where
  pub of_position : Position A
  pub unwind_filled : A
  pub status : Status

abbrev pub entry_of : {A : Type 0} → Position A → OrderOutcome A → Entry A
entry_of pos o = record { of_position = pos; unwind_filled = o.filled_size; status = o.status }

-- What the controls ask of a venue besides its orders. `none` as a reply of `get_positions` is an
-- exception, which is logged; so is one of `cancel_all`, hence its result is not kept.
pub record Account (A G : Type 0) : Type 0 where
  pub cancel_all : Option (G → G)
  pub get_positions : G → Option (List (Position A)) × G

-- `a or b` of two optional strings.
abbrev pub or_text : Option String → Option String → Option String
or_text a b = if is_truthy a then a else b

abbrev pub flatten_meta : Meta
flatten_meta = record { opportunity_id = none; leg = none; hedge = false; attempt = none }

module _ {A : Type 0} ⦃fl : Float A⦄ where
  open fl use {lt, is_zero, abs, decimal}

  abbrev pub or_zero : Option A → A
  or_zero (some a) = if is_zero a then decimal 0 1 else a
  or_zero none = decimal 0 1

  -- `a or b or 0` of two optional numbers.
  abbrev pub or_quantity : Option A → Option A → A
  or_quantity (some a) b = if is_zero a then or_zero b else a
  or_quantity none b = or_zero b

  abbrev pub exit_action : A → Action
  exit_action qty = if lt (decimal 0 1) qty then sell else buy

  -- A sell at 0.01 or a buy at 0.99.
  abbrev pub exit_price : Action → A
  exit_price sell = decimal 1 2
  exit_price buy = decimal 99 2

  abbrev pub instrument : Venue → Position A → Option String
  instrument kalshi_venue pos = or_text pos.ticker pos.market_ticker
  instrument polymarket_venue pos = or_text (or_text pos.asset pos.token_id) pos.token_id_camel

  abbrev pub quantity : Venue → Position A → A
  quantity kalshi_venue pos = or_quantity pos.position pos.net_position
  quantity polymarket_venue pos = or_quantity pos.size pos.net_size

  abbrev pub exit_order : Venue → String → A → OrderRequest A
  exit_order kalshi_venue ticker qty = record {
    venue = kalshi_venue;
    action = exit_action qty;
    size = abs qty;
    limit_price = exit_price (exit_action qty);
    ticker = some ticker;
    outcome_side = yes_side;
    token_id = none;
    tif = ioc;
    ttl_seconds = 0;
    client_order_id = none;
    risk_reducing = true;
    meta = flatten_meta;
  }
  exit_order polymarket_venue token qty = record {
    venue = polymarket_venue;
    action = exit_action qty;
    size = abs qty;
    limit_price = exit_price (exit_action qty);
    ticker = none;
    outcome_side = yes_side;
    token_id = some token;
    tif = fok;
    ttl_seconds = 0;
    client_order_id = none;
    risk_reducing = true;
    meta = flatten_meta;
  }

  unfoldable pub unwind_request : Venue → Position A → Option (OrderRequest A)
  unwind_request v pos = elim (instrument v pos) [
    | none ↦ none
    | some i ↦
        if not (is_truthy (some i)) || is_zero (quantity v pos)
        then none
        else some (exit_order v i (quantity v pos))
  ]

-- The value of the constants KALSHI and POLYMARKET.
abbrev pub venue_text : Venue → String
venue_text kalshi_venue = "kalshi"
venue_text polymarket_venue = "polymarket"

-- The text of an optional string in an f-string.
abbrev pub text_of : Option String → String
text_of none = "None"
text_of (some s) = s

-- `f"flatten:{venue}:{req.ticker or req.token_id}"`
unfoldable pub flatten_key : {A : Type 0} → Venue → OrderRequest A → String
flatten_key v req =
    str_append "flatten:"
      (str_append (venue_text v) (str_append ":" (text_of (or_text req.ticker req.token_id))))

module _ {A G : Type 0} where
  -- `halt` and `resume`.
  abbrev pub halt : A → String → World A G → World A G
  halt t reason w = trip_kill t (given reason) w

  abbrev pub resume : World A G → World A G
  resume w = let (k, d) = KillSwitch.reset w.disk w.kill in record w { kill = k; disk = d }

-- The engine has the gateways of the controls. `clock v i n` is the clock of the attempt `n` on the position `i` of `v`.
module _ {A G : Type 0} ⦃fl : Float A⦄ (cfg : Config A) (coid_of : Seed A → String)
    (gateway_of : Venue → Gateway A G) (account_of : Venue → Account A G)
    (clock : Venue → ℕ → ℕ → AttemptClock A) where
  -- The positions of one venue, from the number `i` on.
  unfoldable pub flatten_positions :
      Venue → ℕ → List (Position A) → World A G → List (Entry A) × World A G
  flatten_positions v i [] w = ([], w)
  flatten_positions v i (pos ∷ rest) w = elim (unwind_request v pos) [
    | none ↦ flatten_positions v (i + 1) rest w
    | some req ↦
        let (o, w') =
          execute cfg coid_of (λ v'. some (gateway_of v')) (clock v i) req (flatten_key v req) w in
        let (entries, w'') = flatten_positions v (i + 1) rest w' in (entry_of pos o ∷ entries, w'')
  ]

  -- `cancel_all` if the client has it.
  unfoldable pub cancel_resting : Venue → G → G
  cancel_resting v g = elim ((account_of v).cancel_all) [ none ↦ g | some cancel ↦ cancel g ]

  unfoldable pub positions_of : Venue → G → List (Position A) × G
  positions_of v g =
      let (reply, g') = (account_of v).get_positions g in
      (elim reply [ none ↦ [] | some held ↦ held ], g')

  unfoldable pub flatten_venue : Venue → World A G → List (Entry A) × World A G
  unfolding cancel_resting positions_of
  flatten_venue v w =
      let (held, g) = positions_of v (cancel_resting v w.gates) in
      flatten_positions v 0 held (record w { gates = g })

  unfoldable pub flatten_venues : List Venue → World A G → List (Venue × List (Entry A)) × World A G
  flatten_venues [] w = ([], w)
  flatten_venues (v ∷ vs) w =
      let (entries, w') = flatten_venue v w in
      let (report, w'') = flatten_venues vs w' in ((v, entries) ∷ report, w'')

  -- `venues` are the keys of `self.gateways`, in their order.
  unfoldable pub flatten_all :
      A → List Venue → World A G → List (Venue × List (Entry A)) × World A G
  unfolding flatten_venues
  flatten_all t venues w = flatten_venues venues (halt t "flatten_all" w)

-- The report of `position_health`: for each venue the number of open positions, or `none` if they
-- could not be had, and an alert for each venue that has any. What is sent to an alert manager is the
-- same list.
pub record Health : Type 0 where
  pub venues : List (Venue × Option ℕ)
  pub alerts : List (Venue × ℕ)

module _ {A G : Type 0} ⦃fl : Float A⦄ (account_of : Venue → Account A G) where
  -- `p.get("position") or p.get("size") or 0` is not zero.
  abbrev pub is_open : Position A → Bool
  is_open pos = not (fl.is_zero (or_quantity pos.position pos.size))

  unfoldable pub position_health : List Venue → G → Health × G
  position_health [] g = (record { venues = []; alerts = [] }, g)
  position_health (v ∷ vs) g =
      let (reply, g') = (account_of v).get_positions g in
      let (rest, g'') = position_health vs g' in
      (
        elim reply [
          | none ↦ record rest { venues = (v, none) ∷ rest.venues }
          | some held ↦
              let count = length (filter is_open held) in
              record {
                venues = (v, some count) ∷ rest.venues;
                alerts = if ltb 0 count then (v, count) ∷ rest.alerts else rest.alerts;
              }
        ],
        g'',
      )
