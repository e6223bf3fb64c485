-- ===== src/Clients.antt =====
-- kalshi_arbitrage/kalshi_executor.py: KalshiOrderClient over HTTP, which is a parameter, as are the
-- signing of a request and the texts of numbers and reasons. The kill switch and its disk are read
-- as they stand when the client is called.
pub mod Gate
pub mod Wire
pub mod Resolved
use Prim.Native.String.{◌++◌ as str_append}
use text.Mathlib.Text.{◌==◌ as str_eq}
use kalshi.Common.{
  ℕ, ◌+◌, Bool, true, false, not, ◌&&◌, ◌||◌, Option, none, some, String, ltb, leb, is_truthy,
  if◌then◌else◌,
}
use kalshi.Common.Int.{ℤ, pos, ◌*ℤ◌}
use kalshi.Config.{Config}
use kalshi.KillSwitch
use kalshi.KillSwitch.{HaltReason, KillSwitch, Disk}
use kalshi.LiveLock.{ArmState, is_armed}
use kalshi.Order.{OutcomeSide, yes_side, no_side, Action}
use kalshi.Books.Polymarket.{missing}
use kalshi.Gateways.{Call, gave, Net, text_or_empty, PollSettings}
use kalshi.Gateways.Kalshi.{KalshiPost, KalshiResponse, KalshiOrderClient, KalshiMarket}
use kalshi.Gateways.Polymarket.{lower}

pub data Method : Type 0 where
  get post put patch delete : Method

pub data Endpoint : Type 0 where
  balance_of positions_of orders : Endpoint
  order_at market_at : String → Endpoint

-- The JSON body of a new order; `type` is always "limit".
pub record OrderBody : Type 0 where
  pub ticker : Option String
  pub action : Action
  pub side : OutcomeSide
  pub count : ℤ
  pub sell_position_floor : ℤ
  pub buy_max_cost : ℤ
  pub yes_price : Option ℤ
  pub no_price : Option ℤ
  pub expiration_ts : Option ℕ
  pub client_order_id : Option String

-- What a request comes to: a status code with JSON, a timeout, or another exception.
pub data HttpReply (A : Type 0) : Type 0 where
  answered : ℕ → KalshiResponse A → HttpReply A
  timed_out : HttpReply A
  broke : String → HttpReply A

-- The network: is there a key to sign with, and what sending does; `int(time.time())`; the texts of
-- a number and of a reason to halt.
pub record Http (A V : Type 0) : Type 0 where
  pub can_sign : V → Bool
  pub send : Method → Endpoint → Option OrderBody → V → HttpReply A × V
  pub seconds : V → ℕ
  pub show : ℕ → String
  pub why_text : HaltReason → String

-- `_MUTATING_METHODS`
abbrev pub is_mutating : Method → Bool
is_mutating get = false
is_mutating _ = true

abbrev pub is_delete : Method → Bool
is_delete delete = true
is_delete _ = false

-- `{'error': e}`
abbrev pub error_response : {A : Type 0} → String → KalshiResponse A
error_response e = record { error = some e; order = none; balance = missing; market = none }

-- The words that say that a market is resolved.
abbrev pub says_resolved : KalshiMarket → Bool
says_resolved m =
    let status = lower (text_or_empty m.status) in
    let result = lower (text_or_empty m.result) in
    str_eq status "settled"
    || str_eq status "finalized"
    || str_eq status "determined"
    || str_eq result "yes"
    || str_eq result "no"

module _ {A V : Type 0} (cfg : Config A) (disk : Disk) (k : KillSwitch A) (ttl_default : ℕ)
    (http : Http A V) where
  open http use {can_sign, send, seconds, show, why_text}

  -- `_mutation_blocked`
  unfoldable pub mutation_blocked : Method → Bool → ArmState → Option String
  mutation_blocked method risk_reducing arm =
      if is_armed cfg arm
      then if is_delete method then none else elim (KillSwitch.is_active cfg disk k) [
        | none ↦ none
        | some why ↦ if risk_reducing then none else some (str_append "halted:" (why_text why))
      ]
      else some "live_trading_locked"

  -- What the caller gets of a reply.
  abbrev pub response_of : HttpReply A → KalshiResponse A
  response_of (answered code resp) =
      if leb 400 code then error_response (str_append "http_" (show code)) else resp
  response_of timed_out = error_response "timeout"
  response_of (broke e) = error_response e

  -- `_request`, past its gate.
  unfoldable pub exchange : Method → Endpoint → Option OrderBody → Net V → KalshiResponse A × Net V
  exchange method endpoint body g =
      let (r, v) = send method endpoint body g.venue in
      if can_sign g.venue
      then (response_of r, record g { venue = v })
      else (error_response "missing_credentials", g)

  unfoldable pub request :
      Method → Endpoint → Option OrderBody → Bool → Net V → KalshiResponse A × Net V
  unfolding exchange
  request method endpoint body risk_reducing g =
      let blocked : Option String =
        if is_mutating method then mutation_blocked method risk_reducing g.arm else none in
      elim blocked [ some e ↦ (error_response e, g) | none ↦ exchange method endpoint body g ]

  -- The body of a POST; a time to live of 0 is replaced by the setting.
  unfoldable pub body_of : KalshiPost → ℕ → OrderBody
  body_of p now =
      let ttl = if ltb 0 p.ttl_seconds then p.ttl_seconds else ttl_default in
      record {
        ticker = p.ticker;
        action = p.action;
        side = p.side;
        count = p.count;
        sell_position_floor = pos 0;
        buy_max_cost = p.price_cents *ℤ p.count;
        yes_price = elim p.side [ yes_side ↦ some p.price_cents | no_side ↦ none ];
        no_price = elim p.side [ yes_side ↦ none | no_side ↦ some p.price_cents ];
        expiration_ts = if ltb 0 ttl then some (now + ttl) else none;
        client_order_id = if is_truthy p.client_order_id then p.client_order_id else none;
      }

  unfoldable pub place_order : KalshiPost → Net V → KalshiResponse A × Net V
  unfolding body_of request
  place_order p g = request post orders (some (body_of p (seconds g.venue))) p.risk_reducing g

  unfoldable pub cancel_order : String → Net V → Bool × Net V
  unfolding request
  cancel_order i g =
      let (r, g') = request delete (order_at i) none false g in
      (elim r.error [ none ↦ true | some e ↦ false ], g')

  unfoldable pub get_order : String → Net V → KalshiResponse A × Net V
  unfolding request
  get_order i g = request get (order_at i) none false g

  unfoldable pub get_balance : Net V → KalshiResponse A × Net V
  unfolding request
  get_balance g = request get balance_of none false g

  unfoldable pub is_resolved : Option String → Net V → Bool × Net V
  unfolding request
  is_resolved ticker g =
      let (r, g') = request get (market_at (text_or_empty ticker)) none false g in
      if is_truthy ticker
      then (
        elim r.error [
          | some e ↦ false
          | none ↦ elim r.market [ none ↦ false | some m ↦ says_resolved m ]
        ],
        g',
      )
      else (false, g)

  -- The client that KalshiGateway is made with.
  unfoldable pub kalshi_order_client : KalshiOrderClient A (Net V)
  unfolding place_order cancel_order get_order get_balance
  kalshi_order_client = record {
    place_order = λ p g. let (r, g') = place_order p g in (gave r, g');
    get_order = λ i g. let (r, g') = get_order i g in (gave r, g');
    cancel_order = λ i g. cancel_order i g;
    get_balance = λ g. let (r, g') = get_balance g in (gave r, g');
  }
