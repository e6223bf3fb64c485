-- ===== src/Tests/Controls.antt =====
-- Concrete runs of the operator's controls and the live lock.
use kalshi.Common.{ℕ, ◌≡◌, ◌↔◌, ◌⊎◌, refl, true, false, none, some, List, [], ◌∷◌}
use kalshi.Common.Int.{ℤ}
use kalshi.Float.Fixed.{fixed}
use kalshi.KillSwitch.{Venue, kalshi_venue, polymarket_venue}
use kalshi.Order.{halted_outcome}
use kalshi.Engine.{Gateway, execute}
use kalshi.Operator.{Position, Account, flatten_all}
use kalshi.Operator.Flatten.{flatten_all_stays_halted, plain_flatten, flatten_all-plain}
use kalshi.LiveLock.{ArmState, env_carries, file_carries, is_armed, disarm}
use kalshi.LiveLock.Arming.{disarm_blocks_unless}
use kalshi.Tests.Data.{
  whole, cfg, live_cfg, open_world, filling_gateway, attempt_clock, coid_of, order,
}

-- Twelve contracts held on Kalshi.
abbrev long : Position ℤ
long = record {
  ticker = some "KXNBA";
  market_ticker = none;
  position = some (whole 12);
  net_position = none;
  asset = none;
  token_id = none;
  token_id_camel = none;
  size = none;
  net_size = none;
}

abbrev filling : Venue → Gateway ℤ ℕ
filling v = filling_gateway

abbrev account : Venue → Account ℤ ℕ
account v = record { cancel_all = none; get_positions = λ g. (some (long ∷ []), g) }

abbrev both : List Venue
both = kalshi_venue ∷ polymarket_venue ∷ []

flatten_all_stays_halted_example :
    let w' =
      (flatten_all cfg coid_of filling account
        (λ v i. attempt_clock)
        (whole 5)
        both
        open_world).1 in
    execute cfg coid_of (λ v. some (filling v)) attempt_clock order "opp-1:buy" w'
    ≡ (halted_outcome kalshi_venue (whole 10), w')
flatten_all_stays_halted_example =
    flatten_all_stays_halted cfg coid_of filling account (λ v i. attempt_clock) (whole 5) both
      open_world order "opp-1:buy" attempt_clock refl

flatten_all-plain_example :
    let (report, w') =
      flatten_all cfg coid_of filling account (λ v i. attempt_clock) (whole 5) both open_world in
    (report, w'.gates) ≡ plain_flatten cfg coid_of filling account (λ v i. attempt_clock) both 0
flatten_all-plain_example =
    flatten_all-plain cfg coid_of filling account (λ v i. attempt_clock) (whole 5) both open_world

-- Armed by the environment alone, with white space around the phrase.
abbrev by_env : ArmState
by_env = record {
  env = " I_HAVE_VALIDATED_AND_ACCEPT_REAL_MONEY_RISK\n";
  file = none;
  readable = true;
  writable = true;
  removable = true;
}

disarm_blocks_unless_example : (is_armed live_cfg (disarm by_env false).0 ≡ true) ↔ (
    (true ≡ true)
    × (true ≡ true)
    × ((env_carries by_env ≡ true) ⊎ ((file_carries by_env ≡ true) × (true ≡ false))))
disarm_blocks_unless_example = disarm_blocks_unless live_cfg by_env false
