-- ===== src/Pnl/Tracker.antt =====
-- kalshi_arbitrage/confirmed_pnl.py: the calls of ConfirmedPnLTracker. `now` is the clock and `fresh`
-- the drawn id of a call, used where the caller gives none.
use text.Mathlib.Text.{◌==◌ as str_eq}
use kalshi.Common.{
  contains, ℕ, Bool, true, false, ◌&&◌, not, Option, none, some, List, [], ◌∷◌, ◌++◌, String,
  is_truthy, if◌then◌else◌,
}
use kalshi.Float.{Float}
use kalshi.KillSwitch.{Venue}
use kalshi.Pnl.{Source, FillRecord, Metadata, ExecutionRecord, is_set, has_confirmed_legs, floored}

-- A public trade of the tape, as far as it is read: a missing price or size is 0.
pub record TapeEvent (A : Type 0) : Type 0 where
  pub platform : Option Venue
  pub market_id : String
  pub trade_price : A
  pub trade_size : A
  pub timestamp : A

-- `executions` is a dict in insertion order and `fill_ids` a set.
pub record PnlTracker (A : Type 0) : Type 0 where
  pub allow_simulated_confirmed : Bool
  pub executions : List (String × ExecutionRecord A)
  pub fill_ids : List String
  pub trade_tape : List (TapeEvent A)
  pub max_trade_tape_events : ℕ

-- Any other text is `other_leg`.
pub data Leg : Type 0 where
  buy_leg sell_leg other_leg : Leg

abbrev pub is_supported : Leg → Bool
is_supported other_leg = false
is_supported _ = true

-- KeyError and ValueError.
pub data PnlError : Type 0 where
  unknown_execution unsupported_leg : PnlError

pub data Result (X : Type 0) : Type 0 where
  ok : X → Result X
  raised : PnlError → Result X

abbrev pub then_do : {X Y : Type 0} → Result X → (X → Result Y) → Result Y
then_do (ok x) f = f x
then_do (raised e) f = raised e

abbrev pub or_value : {X : Type 0} → Option X → X → X
or_value (some x) y = x
or_value none y = y

-- `given or fresh` of an optional id.
abbrev pub id_or : Option String → String → String
id_or given fresh = if is_truthy given then or_value given fresh else fresh

-- One key of `existing.update(given)`.
abbrev pub updated : {X : Type 0} → Option X → Option X → Option X
updated old (some x) = some x
updated old none = old

abbrev pub update_metadata : Metadata → Metadata → Metadata
update_metadata old given = record {
  strategy_type = updated old.strategy_type given.strategy_type;
  kalshi_ticker = updated old.kalshi_ticker given.kalshi_ticker;
  polymarket_token = updated old.polymarket_token given.polymarket_token;
}

-- The arguments of `record_fill` behind the execution and the leg.
pub record FillArgs (A : Type 0) : Type 0 where
  pub fill_id : Option String
  pub platform : Option Venue
  pub price : A
  pub size : A
  pub fee : A
  pub order_id : Option String
  pub trade_id : Option String
  pub market_id : Option String
  pub token_id : Option String
  pub timestamp : Option A
  pub source : Source
  pub auto_confirm : Bool

module _ {A : Type 0} where
  unfoldable pub find : String → List (String × ExecutionRecord A) → Option (ExecutionRecord A)
  find id [] = none
  find id ((j, e) ∷ rest) = if str_eq j id then some e else find id rest

  -- A change of the object that the dict holds under a key.
  unfoldable pub change :
      String
      → (ExecutionRecord A → ExecutionRecord A)
      → List (String × ExecutionRecord A)
      → List (String × ExecutionRecord A)
  change id f [] = []
  change id f ((j, e) ∷ rest) = if str_eq j id then (j, f e) ∷ rest else (j, e) ∷ change id f rest

  abbrev pub new_execution :
      String → String → Option Venue → Option Venue → A → Metadata → ExecutionRecord A
  new_execution id opportunity_id buy_platform sell_platform created_at metadata = record {
    execution_id = id;
    opportunity_id = opportunity_id;
    buy_platform = buy_platform;
    sell_platform = sell_platform;
    created_at = created_at;
    metadata = metadata;
    buy_fills = [];
    sell_fills = [];
    buy_confirmed_at = none;
    sell_confirmed_at = none;
    settlement_id = none;
    settled_at = none;
  }

  -- The id under which the execution is registered, and the tracker after.
  unfoldable pub register_execution :
      A
      → String
      → String
      → Option Venue
      → Option Venue
      → Option String
      → Metadata
      → Option A
      → PnlTracker A
      → String × PnlTracker A
  unfolding find change
  register_execution now fresh opportunity_id buy_platform sell_platform given metadata created t =
      let id = id_or given fresh in
      let e =
        new_execution id opportunity_id buy_platform sell_platform (or_value created now)
          metadata in
      (
        id,
        record t {
          executions =
              if is_set (find id t.executions)
              then change id (λ e'. record e' { metadata = update_metadata e'.metadata metadata })
                  t.executions
              else t.executions ++ (id, e) ∷ [];
        },
      )

  -- `execution.buy_confirmed_at = ts` or its twin.
  abbrev pub confirm : Leg → A → ExecutionRecord A → ExecutionRecord A
  confirm buy_leg ts e = record e { buy_confirmed_at = some ts }
  confirm sell_leg ts e = record e { sell_confirmed_at = some ts }
  confirm other_leg ts e = e

  unfoldable pub mark_leg_confirmed :
      A → String → Leg → Option A → PnlTracker A → Result (PnlTracker A)
  unfolding find change
  mark_leg_confirmed now id leg confirmed_at t = elim (find id t.executions) [
    | none ↦ raised unknown_execution
    | some e ↦
        if is_supported leg
        then ok (record t {
          executions = change id (confirm leg (or_value confirmed_at now)) t.executions;
        })
        else raised unsupported_leg
  ]

  -- The change that `mark_settled` makes.
  abbrev pub settle_with :
      A → String → Option String → Option A → ExecutionRecord A → ExecutionRecord A
  settle_with now fresh settlement_id at e = record e {
    settlement_id = some (id_or settlement_id (id_or e.settlement_id fresh));
    settled_at = some (or_value at now);
  }

  unfoldable pub mark_settled :
      A
      → String
      → String
      → Option String
      → Option A
      → Bool
      → PnlTracker A
      → Result (Bool × PnlTracker A)
  unfolding find change
  mark_settled now fresh id settlement_id settled_at require_confirmed_legs t =
      elim (find id t.executions) [
        | none ↦ raised unknown_execution
        | some e ↦
            if require_confirmed_legs && not (has_confirmed_legs e)
            then ok (false, t)
            else ok (
              true,
              record t {
                executions =
                    change id (settle_with now fresh settlement_id settled_at) t.executions;
              },
            )
      ]

  abbrev pub append_fill : Leg → FillRecord A → ExecutionRecord A → ExecutionRecord A
  append_fill buy_leg f e = record e { buy_fills = e.buy_fills ++ f ∷ [] }
  append_fill _ f e = record e { sell_fills = e.sell_fills ++ f ∷ [] }

module _ {A : Type 0} ⦃fl : Float A⦄ where
  open fl use {le, decimal}

  abbrev pub fill_of : A → String → FillArgs A → FillRecord A
  fill_of now id a = record {
    fill_id = id;
    order_id = a.order_id;
    trade_id = a.trade_id;
    platform = a.platform;
    market_id = a.market_id;
    token_id = a.token_id;
    price = floored a.price;
    size = floored a.size;
    fee = floored a.fee;
    timestamp = or_value a.timestamp now;
    source = a.source;
  }

  -- The fill goes into the books and its id into the set; then the leg may be confirmed.
  unfoldable pub book_fill :
      A → String → Leg → String → FillArgs A → PnlTracker A → Result (PnlTracker A)
  unfolding mark_leg_confirmed change
  book_fill now id leg fill_id a t =
      let f = fill_of now fill_id a in
      let t' : PnlTracker A = record t {
        executions = change id (append_fill leg f) t.executions;
        fill_ids = fill_id ∷ t.fill_ids;
      } in
      if a.auto_confirm then mark_leg_confirmed now id leg (some f.timestamp) t' else ok t'

  unfoldable pub record_fill :
      A → String → String → Leg → FillArgs A → PnlTracker A → Result (Bool × PnlTracker A)
  unfolding book_fill find
  record_fill now fresh id leg a t =
      let fill_id = id_or a.fill_id fresh in
      let booked = then_do (book_fill now id leg fill_id a t) (λ t'. ok (true, t')) in
      elim (find id t.executions) [
        | none ↦ raised unknown_execution
        | some e ↦
            if not (is_supported leg)
            then raised unsupported_leg
            else if le (floored a.size) (decimal 0 1)
            then ok (false, t)
            else if contains fill_id t.fill_ids
            then ok (false, t)
            else booked
      ]
