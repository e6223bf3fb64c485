-- ===== src/MockFills.antt =====
-- kalshi_arbitrage/mock_execution.py: MockExecutionEngine, which walks two order books as market
-- orders would. A level here is one that `_normalize_levels` has kept, its price and size floats;
-- `sorted` is a stable insertion by price, which for a total order is what Python's sort returns.
pub mod Walk
use kalshi.Common.{
  ℕ, Bool, true, false, ◌||◌, Option, none, some, List, [], ◌∷◌, String, if◌then◌else◌,
}
use kalshi.Common.Int.{ℤ, pos}
use kalshi.Float.{Float, min}
use kalshi.KillSwitch.{Venue, kalshi_venue, polymarket_venue}
use kalshi.Fees.{Decimal}
use kalshi.Simulated.{model_kalshi_fee, model_polymarket_fee}

pub record Level (A : Type 0) : Type 0 where
  pub price : A
  pub size : A

-- What the walk of one book gives: its fills in order and the size that is still to fill.
pub record Walked (A : Type 0) : Type 0 where
  pub fills : List (Level A)
  pub remaining : A

module _ {A : Type 0} ⦃fl : Float A⦄ where
  open fl use {add, sub, mul, div, lt, le, decimal}

  -- Insertion behind the levels that `before` does not put after it.
  abbrev pub insert_level : (A → A → Bool) → Level A → List (Level A) → List (Level A)
  insert_level before l [] = l ∷ []
  insert_level before l (k ∷ ks) =
      let rest = insert_level before l ks in if before l.price k.price then l ∷ k ∷ ks else k ∷ rest

  -- The levels are inserted from the last to the first, each before its equals.
  unfoldable pub sort_levels : (A → A → Bool) → List (Level A) → List (Level A)
  sort_levels before [] = []
  sort_levels before (l ∷ ls) = insert_level before l (sort_levels before ls)

  -- The loop over the sorted levels.
  unfoldable pub walk : List (Level A) → A → Walked A
  walk [] remaining = record { fills = []; remaining = remaining }
  walk (l ∷ ls) remaining =
      let take = min l.size remaining in
      let after = walk ls (sub remaining take) in
      let skipped = walk ls remaining in
      if le remaining (decimal 0 1)
      then record { fills = []; remaining = remaining }
      else if lt (decimal 0 1) take
      then record after { fills = record { price = l.price; size = take } ∷ after.fills }
      else skipped

  unfoldable pub fill_from_asks : List (Level A) → A → List (Level A) × A
  unfolding walk sort_levels
  fill_from_asks asks target_size =
      let w = walk (sort_levels le asks) target_size in (w.fills, sub target_size w.remaining)

  unfoldable pub fill_from_bids : List (Level A) → A → List (Level A) × A
  unfolding walk sort_levels
  fill_from_bids bids target_size =
      let w = walk (sort_levels (λ a b. le b a) bids) target_size in
      (w.fills, sub target_size w.remaining)

  unfoldable pub truncate_fills : List (Level A) → A → List (Level A)
  truncate_fills [] remaining = []
  truncate_fills (f ∷ fs) remaining =
      let take = min f.size remaining in
      let rest = truncate_fills fs (sub remaining take) in
      if le remaining (decimal 0 1) then [] else record { price = f.price; size = take } ∷ rest

  -- `sum(...)`, from the left and from 0.
  abbrev pub sum_from : (Level A → A) → A → List (Level A) → A
  sum_from f acc [] = acc
  sum_from f acc (l ∷ ls) = sum_from f (add acc (f l)) ls

  abbrev pub notional : List (Level A) → A
  notional fills = sum_from (λ l. mul l.price l.size) (decimal 0 1) fills

  unfoldable pub avg_price : List (Level A) → A
  avg_price [] = decimal 0 1
  avg_price (f ∷ fs) =
      let size = sum_from (λ l. l.size) (decimal 0 1) (f ∷ fs) in
      if lt (decimal 0 1) size then div (notional (f ∷ fs)) size else decimal 0 1

-- Why nothing was executed.
pub data MarketSkip : Type 0 where
  empty_orderbook no_liquidity : MarketSkip

-- The ExecutionResult of a market execution, without its timing and its uuids.
pub record MarketResult (A : Type 0) : Type 0 where
  pub opportunity_id : String
  pub buy_platform : Option Venue
  pub sell_platform : Option Venue
  pub requested_volume : A
  pub filled_volume : A
  pub avg_buy_price : A
  pub avg_sell_price : A
  pub buy_fees : A
  pub sell_fees : A
  pub gross_profit : A
  pub net_profit : A
  pub profit_margin : A
  pub skipped_reason : Option MarketSkip

-- `rate or 0`
abbrev pub rate_or_zero : Option ℤ → ℤ
rate_or_zero none = pos 0
rate_or_zero (some bps) = bps

abbrev pub is_empty : {A : Type 0} → List A → Bool
is_empty [] = true
is_empty (x ∷ xs) = false

-- The fee client is a parameter, as are the conversions between floats and decimals.
module _ {A G : Type 0} ⦃fl : Float A⦄ (to_decimal : A → Decimal) (of_decimal : Decimal → A)
    (fee_rate : Option String → G → Option ℤ × G) where
  open fl use {add, sub, mul, div, lt, le, decimal}

  -- The fees of the fills on a platform; one that is neither venue charges none.
  unfoldable pub platform_fees : Option Venue → Option String → List (Level A) → G → A × G
  platform_fees none token fills g = (decimal 0 1, g)
  platform_fees (some kalshi_venue) token fills g =
      (sum_from (λ l. model_kalshi_fee to_decimal of_decimal l.price l.size) (decimal 0 1) fills, g)
  platform_fees (some polymarket_venue) token fills g =
      let (rate, g') = fee_rate token g in
      (
        sum_from
            (λ l. model_polymarket_fee to_decimal of_decimal l.price l.size (rate_or_zero rate))
            (decimal 0 1) fills,
        g',
      )

  abbrev pub market_skipped : String → Option Venue → Option Venue → A → MarketSkip → MarketResult A
  market_skipped id buy_platform sell_platform requested reason = record {
    opportunity_id = id;
    buy_platform = buy_platform;
    sell_platform = sell_platform;
    requested_volume = requested;
    filled_volume = decimal 0 1;
    avg_buy_price = decimal 0 1;
    avg_sell_price = decimal 0 1;
    buy_fees = decimal 0 1;
    sell_fees = decimal 0 1;
    gross_profit = decimal 0 1;
    net_profit = decimal 0 1;
    profit_margin = decimal 0 1;
    skipped_reason = some reason;
  }

  -- The result of two walks that both filled something, each cut to the common volume.
  unfoldable pub market_filled :
      String
      → Option Venue
      → Option Venue
      → List (Level A)
      → List (Level A)
      → Option String
      → A
      → A
      → G
      → MarketResult A × G
  unfolding platform_fees avg_price
  market_filled id buy_platform sell_platform buy_fills sell_fills token requested filled g =
      let buy_notional = notional buy_fills in
      let (buy_fees, g₁) = platform_fees buy_platform token buy_fills g in
      let (sell_fees, g₂) = platform_fees sell_platform token sell_fills g₁ in
      let gross_profit = sub (notional sell_fills) buy_notional in
      let net_profit = sub (sub gross_profit buy_fees) sell_fees in
      (
        record {
          opportunity_id = id;
          buy_platform = buy_platform;
          sell_platform = sell_platform;
          requested_volume = requested;
          filled_volume = filled;
          avg_buy_price = avg_price buy_fills;
          avg_sell_price = avg_price sell_fills;
          buy_fees = buy_fees;
          sell_fees = sell_fees;
          gross_profit = gross_profit;
          net_profit = net_profit;
          profit_margin =
              if lt (decimal 0 1) buy_notional then div net_profit buy_notional else decimal 0 1;
          skipped_reason = none;
        },
        g₂,
      )

  unfoldable pub execute_market :
      String
      → Option Venue
      → Option Venue
      → List (Level A)
      → List (Level A)
      → Option String
      → A
      → G
      → MarketResult A × G
  unfolding fill_from_asks fill_from_bids truncate_fills market_filled
  execute_market id buy_platform sell_platform buy_asks sell_bids token requested g =
      let (buy_fills, buy_filled) = fill_from_asks buy_asks requested in
      let (sell_fills, sell_filled) = fill_from_bids sell_bids requested in
      let filled = min buy_filled sell_filled in
      if is_empty buy_asks || is_empty sell_bids
      then (market_skipped id buy_platform sell_platform requested empty_orderbook, g)
      else if le filled (decimal 0 1)
      then (market_skipped id buy_platform sell_platform requested no_liquidity, g)
      else market_filled id buy_platform sell_platform (truncate_fills buy_fills filled)
          (truncate_fills sell_fills filled) token requested filled g
