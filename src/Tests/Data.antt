-- ===== src/Tests/Data.antt =====
-- The settings, breakers, orders, gateways and opportunities that the concrete runs share.
use kalshi.Common.{ℕ, ◌+◌, ◌*◌, true, false, Option, none, some, [], ◌∷◌, String}
use kalshi.Common.Int.{ℤ, pos}
use kalshi.Float.Fixed.{fixed}
use kalshi.Config.{Config, default_config, live, ioc}
use kalshi.Breaker.{CircuitState, opened, CircuitBreakerConfig, CircuitBreaker, Clock, no_stats}
use kalshi.KillSwitch.{Venue, kalshi_venue, Disk, untripped}
use kalshi.Order.{OrderRequest, Seed, Meta, filled, failed, buy, yes_side, bare_outcome}
use kalshi.Engine.{returned, Gateway, World, AttemptClock}

-- A whole number, and hundredths.
abbrev pub whole : ℕ → ℤ
whole n = pos (n * 1_000_000_000_000)

abbrev pub cents : ℕ → ℤ
cents n = pos (n * 10_000_000_000)

-- A clock that stands at a second.
abbrev pub at : ℕ → Clock ℤ
at n = λ i. whole n

abbrev pub breaker_config : CircuitBreakerConfig ℤ
breaker_config = record {
  failure_threshold = 2;
  recovery_timeout = 60;
  success_threshold = 1;
  monitoring_window = 300;
  failure_rate_threshold = cents 50;
}

-- A breaker in a state that it entered at second 100, after two failures.
abbrev pub breaker_in : CircuitState → CircuitBreaker ℤ
breaker_in state = record {
  name = "exec:kalshi";
  config = breaker_config;
  state = state;
  stats = record no_stats {
    total_calls = 2;
    failed_calls = 2;
    circuit_opens = 1;
    failure_timestamps = whole 90 ∷ whole 100 ∷ [];
  };
  state_changed_at = whole 100;
  handlers = [];
  notified = [];
}

abbrev pub cfg : Config ℤ
cfg = default_config

abbrev pub live_cfg : Config ℤ
live_cfg = record cfg { execution_mode = live }

abbrev pub disk : Disk
disk = record { sentinel = false; writable = true; removable = true }

-- The gateways' state is the number of placements.
abbrev pub idle_world : World ℤ ℕ
idle_world = record { kill = untripped; disk = disk; breakers = []; gates = 0; slept = [] }

abbrev pub open_world : World ℤ ℕ
open_world = record idle_world { breakers = ("exec:kalshi", breaker_in opened) ∷ [] }

-- A gateway that counts, and fails every order in a way that may be retried.
abbrev pub failing_gateway : Gateway ℤ ℕ
failing_gateway = record {
  place = λ req g. (returned (bare_outcome req.venue failed req.size), g + 1);
  cancel = λ order_id g. (true, g);
}

-- A gateway that counts, and fills every order at its limit.
abbrev pub filling_gateway : Gateway ℤ ℕ
filling_gateway = record {
  place = λ req g. (
    returned (record (bare_outcome req.venue filled req.size) {
      filled_size = req.size;
      avg_price = req.limit_price;
    }),
    g + 1,
  );
  cancel = λ order_id g. (true, g);
}

abbrev pub all_fail : Venue → Option (Gateway ℤ ℕ)
all_fail v = some failing_gateway

abbrev pub all_fill : Venue → Option (Gateway ℤ ℕ)
all_fill v = some filling_gateway

abbrev pub attempt_clock : ℕ → AttemptClock ℤ
attempt_clock n = record { at_entry = at 110; at_exit = at 111; at_trip = whole 112 }

abbrev pub coid_of : Seed ℤ → String
coid_of s = "coid-1"

abbrev pub meta : Meta
meta = record { opportunity_id = some "opp-1"; leg = some "kalshi"; hedge = false; attempt = none }

abbrev pub order : OrderRequest ℤ
order = record {
  venue = kalshi_venue;
  action = buy;
  size = whole 10;
  limit_price = cents 40;
  ticker = some "KXNBA";
  outcome_side = yes_side;
  token_id = none;
  tif = ioc;
  ttl_seconds = 0;
  client_order_id = none;
  risk_reducing = false;
  meta = meta;
}

abbrev pub reducing : OrderRequest ℤ
reducing = record order { risk_reducing = true }
