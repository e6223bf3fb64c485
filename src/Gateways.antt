-- ===== src/Gateways.antt =====
-- kalshi_arbitrage/execution/venue_gateway.py: what the two live gateways share. A gateway's state
-- is a `Net`: the arming of the live lock with its warning flag, and the venue with the network.
pub mod Poll
pub mod Kalshi
pub mod Polymarket
pub mod Posts
pub mod Identity
pub mod Live
pub mod Steps
pub mod Doubt
pub mod Outcomes
pub mod Timeouts
pub mod Resting
use kalshi.Common.{
  ℕ, Bool, Option, none, some, String, ltb, ◌≡◌, refl, ◌⊎◌, inl, inr, if◌then◌else◌,
}
use kalshi.Common.Int.{ℤ}
use kalshi.Float.{Float}
use kalshi.Config.{Config}
use kalshi.KillSwitch.{Venue}
use kalshi.LiveLock.{ArmState, assert_or_warn}
use kalshi.Order.{OrderOutcome, failed, bare_outcome}
use kalshi.Engine.{Placement, returned, raised}
use kalshi.Fees.{Decimal}

-- A call that gives a value or throws an exception, of which the text is kept.
pub data Call (R : Type 0) : Type 0 where
  gave : R → Call R
  threw : String → Call R

pub Call-cases :
    {R : Type 0} (c : Call R) → ((e : String) × (c ≡ threw e)) ⊎ ((x : R) × (c ≡ gave x))
Call-cases (gave x) = inr (x, refl)
Call-cases (threw e) = inl (e, refl)

pub record Net (V : Type 0) : Type 0 where
  pub arm : ArmState
  pub warned : Bool
  pub venue : V

-- What the interpreter and the libraries do with numbers: `int(x)`, `int(round(x * 100))` (both
-- raise on NaN), `round(x, 2)`, floats as decimals and back, the text of a ValueError of `float`.
pub record Numbers (A : Type 0) : Type 0 where
  pub truncate : A → Call ℤ
  pub to_cents : A → Call ℤ
  pub to_dollars : A → A
  pub to_decimal : A → Decimal
  pub of_decimal : Decimal → A
  pub float_error : String

-- `time.monotonic()` in milliseconds, and `asyncio.sleep`.
pub record Timer (G : Type 0) : Type 0 where
  pub now : G → ℕ
  pub sleep : ℕ → G → G

-- The settings that the gateways read besides `Config`, with times to live in seconds and the
-- polling in milliseconds.
pub record PollSettings : Type 0 where
  pub kalshi_order_ttl_seconds : ℕ
  pub polymarket_order_ttl_seconds : ℕ
  pub fill_poll_budget : ℕ
  pub fill_poll_base_interval : ℕ
  pub fill_poll_max_interval : ℕ

abbrev pub default_polling : PollSettings
default_polling = record {
  kalshi_order_ttl_seconds = 5;
  polymarket_order_ttl_seconds = 5;
  fill_poll_budget = 15_000;
  fill_poll_base_interval = 250;
  fill_poll_max_interval = 2_000;
}

-- The statuses of an order that the code compares with; "filled" is `fully_filled`.
pub data VenueStatus : Type 0 where
  executed matched fully_filled canceled expired other_status : VenueStatus

-- `d.get(key, "")`
abbrev pub text_or_empty : Option String → String
text_or_empty none = ""
text_or_empty (some i) = i

-- `req.ttl_seconds or Config.…`
abbrev pub ttl_or : ℕ → ℕ → ℕ
ttl_or ttl default = if ltb 0 ttl then ttl else default

module _ {A : Type 0} ⦃fl : Float A⦄ where
  -- `OrderOutcome.failed`, where the error is not a literal.
  unfoldable pub failed_for : Venue → A → Option String → Option String → OrderOutcome A
  failed_for venue size error coid = record (bare_outcome venue failed size) {
    error = error;
    client_order_id = coid;
  }

-- What a call gives becomes what the gateway's `place` does.
abbrev pub placement_of : {A : Type 0} → Call (OrderOutcome A) → Placement A
placement_of (gave o) = returned o
placement_of (threw e) = raised e

-- The hard backstop of both gateways: the answer of the live lock, and the lock's warning flag.
unfoldable pub ask_lock : {A V : Type 0} → Config A → Net V → (Bool × Option String) × Net V
ask_lock cfg g =
    let (answer, warned) = assert_or_warn cfg g.arm g.warned in
    (answer, record g { warned = warned })
