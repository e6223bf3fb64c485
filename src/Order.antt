-- ===== src/Order.antt =====
-- kalshi_arbitrage/execution/order_types.py: orders and their outcomes. Left out of the records are
-- the raw venue response and the outcome's own timestamp, which nothing modelled here reads.
use kalshi.Common.{
  ℕ, Bool, true, false, Option, none, some, List, [], String, is_truthy, if◌then◌else◌,
}
use kalshi.Float.{Float, max}
use kalshi.Config.{Tif}
use kalshi.KillSwitch.{Venue}

pub data Action : Type 0 where
  buy sell : Action

abbrev pub is_buy : Action → Bool
is_buy buy = true
is_buy sell = false

pub data OutcomeSide : Type 0 where
  yes_side no_side : OutcomeSide

pub data Status : Type 0 where
  filled partial failed rejected halted : Status

-- The keys of the `meta` dict that the code writes and reads.
pub record Meta : Type 0 where
  pub opportunity_id : Option String
  pub leg : Option String
  pub hedge : Bool
  pub attempt : Option ℕ

pub record OrderRequest (A : Type 0) : Type 0 where
  pub venue : Venue
  pub action : Action
  pub size : A
  pub limit_price : A
  pub ticker : Option String
  pub outcome_side : OutcomeSide
  pub token_id : Option String
  pub tif : Tif
  pub ttl_seconds : ℕ
  pub client_order_id : Option String
  pub risk_reducing : Bool
  pub meta : Meta

pub record OrderOutcome (A : Type 0) : Type 0 where
  pub venue : Venue
  pub status : Status
  pub requested_size : A
  pub filled_size : A
  pub avg_price : A
  pub fees : A
  pub order_id : Option String
  pub client_order_id : Option String
  pub fill_ids : List String
  pub trade_ids : List String
  pub attempts : ℕ
  pub error : Option String
  pub retryable : Bool

-- What the client order id is derived from: the joined parts, before formatting and hashing.
pub record Seed (A : Type 0) : Type 0 where
  pub venue : Venue
  pub ticker : Option String
  pub token_id : Option String
  pub outcome_side : OutcomeSide
  pub action : Action
  pub size : A
  pub limit_price : A
  pub parts : List String

abbrev pub is_filled : Status → Bool
is_filled filled = true
is_filled _ = false

abbrev pub is_failed : Status → Bool
is_failed failed = true
is_failed _ = false

-- `status in (STATUS_FILLED, STATUS_PARTIAL)`
abbrev pub is_done_status : Status → Bool
is_done_status filled = true
is_done_status partial = true
is_done_status _ = false

module _ {A : Type 0} where
  unfoldable pub is_done : OrderOutcome A → Bool
  is_done o = is_done_status o.status

  abbrev pub seed : OrderRequest A → List String → Seed A
  seed r parts = record {
    venue = r.venue;
    ticker = r.ticker;
    token_id = r.token_id;
    outcome_side = r.outcome_side;
    action = r.action;
    size = r.size;
    limit_price = r.limit_price;
    parts = parts;
  }

  -- `coid_of` formats the seed, hashes it by SHA-256 and puts "coid-" in front.
  unfoldable pub ensure_client_order_id :
      (Seed A → String) → List String → OrderRequest A → OrderRequest A
  ensure_client_order_id coid_of parts r =
      if is_truthy r.client_order_id
      then r
      else record r { client_order_id = some (coid_of (seed r parts)) }

module _ {A : Type 0} ⦃fl : Float A⦄ where
  open fl use {decimal, sub}

  unfoldable pub unfilled_size : OrderOutcome A → A
  unfilled_size o = max (decimal 0 1) (sub o.requested_size o.filled_size)

  -- The outcome with every optional field at its default.
  abbrev pub bare_outcome : Venue → Status → A → OrderOutcome A
  bare_outcome venue status requested_size = record {
    venue = venue;
    status = status;
    requested_size = requested_size;
    filled_size = decimal 0 1;
    avg_price = decimal 0 1;
    fees = decimal 0 1;
    order_id = none;
    client_order_id = none;
    fill_ids = [];
    trade_ids = [];
    attempts = 0;
    error = none;
    retryable = true;
  }

  -- `OrderOutcome.failed`
  unfoldable pub failed_outcome : Venue → A → String → Option String → OrderOutcome A
  failed_outcome venue requested_size error client_order_id =
      record (bare_outcome venue failed requested_size) {
        error = some error;
        client_order_id = client_order_id;
      }

  -- `OrderOutcome.halted`
  unfoldable pub halted_outcome : Venue → A → OrderOutcome A
  halted_outcome venue requested_size = record (bare_outcome venue halted requested_size) {
    error = some "kill_switch_active";
  }
