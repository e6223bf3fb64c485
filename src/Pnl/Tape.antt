-- ===== src/Pnl/Tape.antt =====
-- kalshi_arbitrage/confirmed_pnl.py: the tape of public trades, and the confirmation of a leg from it.
use text.Mathlib.Text.{◌==◌ as str_eq}
use kalshi.Common.{
  ℕ, zero, suc, ◌-◌, Bool, true, false, ◌&&◌, ◌||◌, not, Option, none, some, List, [], ◌∷◌, ◌++◌,
  String, is_truthy, length, if◌then◌else◌,
}
use kalshi.Float.{Float, max}
use kalshi.KillSwitch.{Venue, kalshi_venue, polymarket_venue}
use kalshi.Pnl.{FillRecord, ExecutionRecord, sum_on}
use kalshi.Pnl.Tracker.{
  TapeEvent, PnlTracker, Leg, buy_leg, sell_leg, other_leg, Result, ok, then_do, or_value, find,
  mark_leg_confirmed,
}

-- Two platforms that are neither venue do not agree.
abbrev pub same_platform : Option Venue → Option Venue → Bool
same_platform (some kalshi_venue) (some kalshi_venue) = true
same_platform (some polymarket_venue) (some polymarket_venue) = true
same_platform _ _ = false

abbrev pub drop : {X : Type 0} → ℕ → List X → List X
drop zero xs = xs
drop (suc n) [] = []
drop (suc n) (x ∷ xs) = drop n xs

abbrev pub reversed : {X : Type 0} → List X → List X → List X
reversed [] acc = acc
reversed (x ∷ xs) acc = reversed xs (x ∷ acc)

module _ {A : Type 0} where
  -- `deque(maxlen=n).append(event)`: the oldest events beyond the length are dropped.
  unfoldable pub ingest_trade_tape_event : TapeEvent A → PnlTracker A → PnlTracker A
  ingest_trade_tape_event event t =
      let tape = t.trade_tape ++ event ∷ [] in
      record t { trade_tape = drop (length tape - t.max_trade_tape_events) tape }

  -- The fills of a leg; any other text reads the sell leg.
  abbrev pub fills_of_leg : Leg → ExecutionRecord A → List (FillRecord A)
  fills_of_leg buy_leg e = e.buy_fills
  fills_of_leg sell_leg e = e.sell_fills
  fills_of_leg other_leg e = e.sell_fills

-- The bounds of the search, each with a default in the source.
pub record TapeBounds (A : Type 0) : Type 0 where
  pub max_age_seconds : A
  pub price_tolerance : A
  pub size_tolerance : A

module _ {A : Type 0} ⦃fl : Float A⦄ (bounds : TapeBounds A) (now : A) where
  open fl use {sub, mul, div, abs, lt, le, decimal}

  -- The event is on the platform and, if one is named, in the market.
  unfoldable pub is_relevant : Option Venue → Option String → TapeEvent A → Bool
  is_relevant platform market_id event =
      same_platform event.platform platform
      && (not (is_truthy market_id) || str_eq event.market_id (or_value market_id ""))

  -- Its price and its relative size are within the tolerances of what is expected.
  unfoldable pub agrees : A → A → TapeEvent A → Bool
  agrees expected_price expected_size event =
      not (le event.trade_price (decimal 0 1) || le event.trade_size (decimal 0 1))
      && not (lt bounds.price_tolerance (abs (sub event.trade_price expected_price)))
      && not (
          lt bounds.size_tolerance
            (div (abs (sub event.trade_size expected_size)) (max expected_size (decimal 10 1))))

  -- The first event that agrees, from the newest on and not beyond one that is too old.
  unfoldable pub match_event :
      Option Venue → Option String → A → A → List (TapeEvent A) → Option (TapeEvent A)
  unfolding is_relevant agrees
  match_event platform market_id price size [] = none
  match_event platform market_id price size (event ∷ older) =
      let rest = match_event platform market_id price size older in
      if lt bounds.max_age_seconds (sub now event.timestamp)
      then none
      else if is_relevant platform market_id event && agrees price size event
      then some event
      else rest

  unfoldable pub reconcile_leg_from_trade_tape :
      String → Leg → Option Venue → Option String → PnlTracker A → Result (Bool × PnlTracker A)
  unfolding match_event
  reconcile_leg_from_trade_tape id leg platform market_id t = elim (find id t.executions) [
    | none ↦ ok (false, t)
    | some e ↦ elim (fills_of_leg leg e) [
      | [] ↦ ok (false, t)
      | ◌∷◌ f fs ↦
          let size = sum_on (λ g. g.size) (decimal 0 1) (f ∷ fs) in
          let value = sum_on (λ g. mul g.price g.size) (decimal 0 1) (f ∷ fs) in
          let price = div value (max size (decimal 1 9)) in
          elim (match_event platform market_id price size (reversed t.trade_tape [])) [
            | none ↦ ok (false, t)
            | some event ↦
                then_do (mark_leg_confirmed now id leg (some event.timestamp) t)
                  (λ t'. ok (true, t'))
          ]
    ]
  ]
