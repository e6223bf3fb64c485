-- ===== src/Tests/Site.antt =====
-- A small venue for the concrete runs of the live gateways: its state is a clock in milliseconds,
-- the orders that were posted to it and the doubt that each answer left.
use kalshi.Common.{ℕ, ◌+◌, ◌/◌, Bool, true, false, none, some, List, [], ◌∷◌, String}
use kalshi.Common.Int.{ℤ, pos, negsuc}
use kalshi.Float.Fixed.{fixed}
use kalshi.Config.{gtc}
use kalshi.KillSwitch.{polymarket_venue, untripped}
use kalshi.LiveLock.{ArmState, arm_phrase}
use kalshi.Order.{OrderRequest}
use kalshi.Engine.{World}
use kalshi.Fees.{Decimal}
use kalshi.Books.Polymarket.{number, missing}
use kalshi.Gateways.{Call, gave, threw, Net, Numbers, Timer, PollSettings, executed, other_status}
use kalshi.Gateways.Kalshi.{KalshiOrder, KalshiResponse, KalshiOrderClient, no_order}
use kalshi.Gateways.Polymarket.{PolymarketOrderClient}
use kalshi.Gateways.Polymarket.Fills.{PolyResponse, null}
use kalshi.Clients.{OrderBody, Http, answered}
use kalshi.Tests.Data.{whole, disk, order}

pub record Site : Type 0 where
  pub clock : ℕ
  pub bodies : List OrderBody
  pub doubts : List Bool

abbrev pub fresh_site : Site
fresh_site = record { clock = 0; bodies = []; doubts = [] }

abbrev pub arm_by : String → ArmState
arm_by text = record { env = text; file = none; readable = true; writable = true; removable = true }

abbrev pub net_by : String → Net Site
net_by text = record { arm = arm_by text; warned = false; venue = fresh_site }

abbrev pub locked : Net Site
locked = net_by ""

abbrev pub armed : Net Site
armed = net_by arm_phrase

abbrev pub live_world : Net Site → World ℤ (Net Site)
live_world g = record { kill = untripped; disk = disk; breakers = []; gates = g; slept = [] }

abbrev to_whole : ℤ → Call ℤ
to_whole (pos n) = gave (pos (n / 1_000_000_000_000))
to_whole (negsuc n) = threw "negative"

abbrev to_hundredths : ℤ → Call ℤ
to_hundredths (pos n) = gave (pos (n / 10_000_000_000))
to_hundredths (negsuc n) = threw "negative"

abbrev to_decimal : ℤ → Decimal
to_decimal x = record { mantissa = x; scale = 12 }

abbrev pub numbers : Numbers ℤ
numbers = record {
  truncate = to_whole;
  to_cents = to_hundredths;
  to_dollars = λ x. x;
  to_decimal = to_decimal;
  of_decimal = λ d. d.mantissa;
  float_error = "could not convert string to float";
}

abbrev pub ticking : Timer (Net Site)
ticking = record {
  now = λ g. g.venue.clock;
  sleep = λ d g. record g { venue = record (g.venue) { clock = g.venue.clock + d } };
}

-- Polls at 1, 3 and 4 milliseconds.
abbrev pub polling : PollSettings
polling = record {
  kalshi_order_ttl_seconds = 5;
  polymarket_order_ttl_seconds = 5;
  fill_poll_budget = 4;
  fill_poll_base_interval = 1;
  fill_poll_max_interval = 2;
}

abbrev report : KalshiOrder ℤ → KalshiResponse ℤ
report o = record { error = none; order = some o; balance = missing; market = none }

-- An order that is executed at once, and one that rests without a fill.
abbrev executed_order : KalshiOrder ℤ
executed_order = record no_order {
  order_id = some "k-1";
  status = executed;
  count_filled = number (whole 10);
  average_fill_price = number (whole 40);
}

abbrev pub resting_order : KalshiOrder ℤ
resting_order = record no_order { order_id = some "k-1"; count_filled = number (whole 0) }

-- HTTP that keeps the bodies it is sent, and answers with an executed order.
abbrev pub http : Http ℤ Site
http = record {
  can_sign = λ v. true;
  send = λ method endpoint body v. (
    answered 200 (report executed_order),
    elim body [ none ↦ v | some b ↦ record v { bodies = b ∷ v.bodies } ],
  );
  seconds = λ v. 1_700_000_000;
  show = λ n. "n";
  why_text = λ r. "why";
}

-- A client of a venue where every order rests.
abbrev pub resting_client : KalshiOrderClient ℤ (Net Site)
resting_client = record {
  place_order = λ p g. (gave (report resting_order), g);
  get_order = λ i g. (gave (report resting_order), g);
  cancel_order = λ i g. (true, g);
  get_balance = λ g. (gave (report resting_order), g);
}

abbrev pub blank_response : PolyResponse ℤ
blank_response = record {
  error = none;
  order_id = none;
  status = other_status;
  success = false;
  size_matched = null;
  size_matched_camel = null;
  matched_size = null;
  price = null;
  taking_amount_camel = null;
  taking_amount = null;
  making_amount_camel = null;
  making_amount = null;
  trade_ids = [];
}

abbrev pub accepted : PolyResponse ℤ
accepted = record blank_response { order_id = some "p-1" }

-- Polymarket behind a connection that times out after every POST.
abbrev pub doubtful_client : PolymarketOrderClient ℤ (Net Site)
doubtful_client = record {
  place_order = λ p g. (
    gave (record blank_response { error = some "Read timed out." }),
    record g { venue = record (g.venue) { doubts = true ∷ g.venue.doubts } },
  );
  get_order = λ i g. (gave accepted, g);
  get_trades = λ g. (gave [], g);
  cancel_order = λ i g. (true, g);
  get_fee_rate_bps = λ token g. (none, g);
}

abbrev pub wall : Net Site → ℤ
wall g = whole 1_700_000_000

abbrev pub poly_order : OrderRequest ℤ
poly_order = record order { venue = polymarket_venue; token_id = some "7001"; tif = gtc }
