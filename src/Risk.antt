-- ===== src/Risk.antt =====
-- kalshi_arbitrage/risk_engine.py: RiskEngine.assess_opportunity, with the SlippageModel that it
-- scores by. Its numbers are Decimals, whose operations are an interface `Float D` here; where
-- Decimal raises (a division by zero, the root of a negative number) the result is `none`.
pub mod Slippage
pub mod Gate
pub mod Confidence
use kalshi.Common.{
  Bool, true, false, not, ◌&&◌, ◌||◌, Option, none, some, List, [], ◌∷◌, ◌++◌, if◌then◌else◌,
}
use kalshi.Float.{Float, min, max}
use kalshi.KillSwitch.{Venue, kalshi_venue, polymarket_venue}
use kalshi.Risk.Slippage.{
  RawDecimal, Book, ImpactModel, SlippageEstimate, trading_buy, trading_sell, adaptive,
  estimate_slippage, ◌>>=◌,
}

-- The keys of the `opportunity` dict that the engine reads, with the source's defaults.
pub record RiskInput (A : Type 0) : Type 0 where
  pub max_tradeable_volume : A
  pub profit_margin : A
  pub buy_platform : Option Venue
  pub sell_platform : Option Venue

pub data Recommendation : Type 0 where
  reduce_size use_limit_orders monitor_volatility ensure_settlement : Recommendation
  over_max_position acceptable scoring_error : Recommendation

pub record RiskAssessment (D : Type 0) : Type 0 where
  pub total_risk_score : D
  pub execution_risk : D
  pub market_risk : D
  pub platform_risk : D
  pub profit_after_risk : D
  pub confidence : D
  pub recommendations : List Recommendation

abbrev pub on_kalshi : Option Venue → Bool
on_kalshi (some kalshi_venue) = true
on_kalshi _ = false

abbrev pub on_polymarket : Option Venue → Bool
on_polymarket (some polymarket_venue) = true
on_polymarket _ = false

-- `buy_platform != sell_platform`
abbrev pub differs : Option Venue → Option Venue → Bool
differs none none = false
differs (some kalshi_venue) (some kalshi_venue) = false
differs (some polymarket_venue) (some polymarket_venue) = false
differs _ _ = true

abbrev pub flag : Bool → Recommendation → List Recommendation
flag b r = if b then r ∷ [] else []

abbrev pub or_acceptable : List Recommendation → List Recommendation
or_acceptable [] = acceptable ∷ []
or_acceptable (r ∷ rs) = r ∷ rs

module _ {D : Type 0} ⦃fl : Float D⦄ where
  open fl use {add, sub, mul, div, lt, decimal}

  -- `_calculate_market_risk`
  unfoldable pub market_risk_of : D → D
  market_risk_of margin =
      let base = decimal 10 0 in
      let score =
        if lt margin (decimal 2 2)
        then add base (decimal 20 0)
        else if lt margin (decimal 5 2)
        then add base (decimal 10 0)
        else base in
      min score (decimal 30 0)

  -- `_calculate_platform_risk`
  unfoldable pub platform_risk_of : Option Venue → Option Venue → D
  platform_risk_of b s =
      let base = decimal 5 0 in
      let crossed = if differs b s then add base (decimal 5 0) else base in
      let chained =
        if on_polymarket b || on_polymarket s then add crossed (decimal 3 0) else crossed in
      min chained (decimal 20 0)

  -- Less confidence for a book that is missing, or older than 30 seconds.
  abbrev pub when_missing : Option (Book D) → D → D
  when_missing none c = mul c (decimal 5 1)
  when_missing (some b) c = c

  abbrev pub when_stale : Option (Book D) → D → D
  when_stale none c = c
  when_stale (some b) c = if lt (decimal 30 0) b.age then mul c (decimal 8 1) else c

  -- `_calculate_confidence`
  unfoldable pub confidence_of : Option (Book D) → Option (Book D) → D
  confidence_of none none = decimal 0 0
  confidence_of b s =
      max (when_stale s (when_stale b (when_missing s (when_missing b (decimal 10 1)))))
        (decimal 5 2)

  -- `_generate_recommendations`
  unfoldable pub recommendations_of : D → D → D → D → D → List Recommendation
  recommendations_of total execution market platform size = or_acceptable (
      flag (lt (decimal 40 0) total) reduce_size
      ++ flag (lt (decimal 30 0) execution) use_limit_orders
      ++ flag (lt (decimal 20 0) market) monitor_volatility
      ++ flag (lt (decimal 15 0) platform) ensure_settlement
      ++ flag (lt (decimal 10_000 0) size) over_max_position)

module _ {A D : Type 0} ⦃fl : Float D⦄ (raw : RawDecimal A D) where
  open fl use {add, sub, mul, div, decimal}

  -- The score of one side: its slippage in per cent, or 25 without a book.
  unfoldable pub side_risk : ImpactModel D → Option (Book D) → D → Bool → Option (D × ImpactModel D)
  side_risk model none size buys = some (decimal 25 0, model)
  side_risk model (some book) size buys = do
    (e, model') ←
        estimate_slippage raw model book size (if buys then trading_buy else trading_sell) adaptive
          none
    some (mul e.total_slippage (decimal 100 0), model')

  -- `_calculate_execution_risk`
  unfoldable pub execution_risk_of :
      ImpactModel D → Option (Book D) → Option (Book D) → D → Option (D × ImpactModel D)
  unfolding side_risk
  execution_risk_of model b s size = do
    (x, model') ← side_risk model b size true
    (y, model'') ← side_risk model' s size false
    some (min (add (add (decimal 0 0) x) y) (decimal 50 0), model'')

  -- `_assess_unsafe`, from its numbers on.
  unfoldable pub assessment_of :
      D → D → D → D → Option (Book D) → Option (Book D) → RiskInput A → RiskAssessment D
  assessment_of size margin execution platform b s input =
      let market = market_risk_of margin in
      let total = min (add (add execution market) platform) (decimal 100 0) in
      record {
        total_risk_score = total;
        execution_risk = execution;
        market_risk = market;
        platform_risk = platform;
        profit_after_risk = mul margin (sub (decimal 1 0) (div total (decimal 100 0)));
        confidence = confidence_of b s;
        recommendations = recommendations_of total execution market platform size;
      }

  -- `_assess_unsafe`
  unfoldable pub assess_unsafe :
      ImpactModel D
      → RiskInput A
      → Option (Book D)
      → Option (Book D)
      → Option (RiskAssessment D × ImpactModel D)
  unfolding execution_risk_of assessment_of
  assess_unsafe model input kalshi polymarket =
      let b = if on_kalshi input.buy_platform then kalshi else polymarket in
      let s = if on_polymarket input.sell_platform then polymarket else kalshi in
      let platform = platform_risk_of input.buy_platform input.sell_platform in
      do
        size ← raw.to_decimal input.max_tradeable_volume
        margin ← raw.to_decimal input.profit_margin
        (execution, model') ← execution_risk_of model b s size
        some (assessment_of size margin execution platform b s input, model')

  -- What is returned when the scoring raises.
  abbrev pub maximal_risk : RiskAssessment D
  maximal_risk = record {
    total_risk_score = decimal 100 0;
    execution_risk = decimal 50 0;
    market_risk = decimal 30 0;
    platform_risk = decimal 20 0;
    profit_after_risk = decimal 0 0;
    confidence = decimal 0 0;
    recommendations = scoring_error ∷ [];
  }

  -- `assess_opportunity`
  unfoldable pub assess_opportunity :
      ImpactModel D
      → RiskInput A
      → Option (Book D)
      → Option (Book D)
      → RiskAssessment D × ImpactModel D
  unfolding assess_unsafe
  assess_opportunity model input kalshi polymarket =
      elim (assess_unsafe model input kalshi polymarket) [
        | none ↦ (maximal_risk, model)
        | some r ↦ r
      ]
