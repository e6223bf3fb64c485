-- ===== src/Risk/Slippage.antt =====
-- kalshi_arbitrage/risk_engine.py: MarketImpactModel and SlippageModel.estimate_slippage.
use kalshi.Common.{
  ℕ, zero, suc, ◌&&◌, ◌||◌, Option, none, some, List, [], ◌∷◌, length, ltb, if◌then◌else◌,
}
use kalshi.Float.{Float, min, max}

-- A step that may raise, and the rest.
infixl 5 ◌>>=◌
abbrev pub ◌>>=◌ : {X Y : Type 0} → Option X → (X → Option Y) → Option Y
none >>= f = none
some x >>= f = f x

-- Decimals beside floats: `Decimal(str(x))` of a float that is a number, `Decimal(math.sqrt(float(d)))`
-- of a number that is not negative, and `float(d)`.
pub record RawDecimal (A D : Type 0) : Type 0 where
  pub to_decimal : A → Option D
  pub root : D → Option D
  pub to_float : D → A

-- One level of a NormalizedOrderBook, and the book, with the seconds since its timestamp.
pub record BookLevel (D : Type 0) : Type 0 where
  pub price : D
  pub size : D

pub record Book (D : Type 0) : Type 0 where
  pub bids : List (BookLevel D)
  pub asks : List (BookLevel D)
  pub age : D

pub data ExecutionStrategy : Type 0 where
  aggressive passive adaptive : ExecutionStrategy

pub data TradeSide : Type 0 where
  trading_buy trading_sell : TradeSide

pub record ImpactModel (D : Type 0) : Type 0 where
  pub linear_impact : D
  pub square_root_impact : D
  pub liquidity_factor : D
  pub volatility_factor : D

pub record SlippageEstimate (D : Type 0) : Type 0 where
  pub base_slippage : D
  pub market_impact : D
  pub timing_risk : D
  pub total_slippage : D
  pub confidence : D

-- The running sums of the walk.
pub record Consumed (D : Type 0) : Type 0 where
  pub remaining_size : D
  pub total_cost : D
  pub depth_consumed : D

-- `levels[:n]`
abbrev pub take_levels : {X : Type 0} → ℕ → List X → List X
take_levels zero xs = []
take_levels (suc n) [] = []
take_levels (suc n) (x ∷ xs) = x ∷ take_levels n xs

module _ {D : Type 0} ⦃fl : Float D⦄ where
  open fl use {add, sub, mul, div, abs, lt, le, is_zero, decimal}

  abbrev pub impact_model : ImpactModel D
  impact_model = record {
    linear_impact = decimal 1 4;
    square_root_impact = decimal 1 3;
    liquidity_factor = decimal 10 1;
    volatility_factor = decimal 10 1;
  }

  -- A division, which raises on zero.
  abbrev pub divide : D → D → Option D
  divide a b = if is_zero b then none else some (div a b)

  abbrev pub strategy_multiplier : ExecutionStrategy → D
  strategy_multiplier aggressive = decimal 12 1
  strategy_multiplier passive = decimal 8 1
  strategy_multiplier adaptive = decimal 10 1

  abbrev pub base_time : ExecutionStrategy → D
  base_time aggressive = decimal 5 0
  base_time passive = decimal 30 0
  base_time adaptive = decimal 15 0

  abbrev pub take_level : BookLevel D → Consumed D → Consumed D
  take_level l c =
      let fill = min c.remaining_size l.size in
      record {
        remaining_size = sub c.remaining_size fill;
        total_cost = add c.total_cost (mul fill l.price);
        depth_consumed = add c.depth_consumed fill;
      }

  -- The loop over the levels.
  abbrev pub walk_levels : List (BookLevel D) → Consumed D → Consumed D
  walk_levels [] c = c
  walk_levels (l ∷ ls) c =
      let rest = walk_levels ls (take_level l c) in
      if le c.remaining_size (decimal 0 0) then c else rest

  -- `_walk_orderbook`: the slippage against the best price, and the depth consumed.
  unfoldable pub walk_orderbook : List (BookLevel D) → D → Option (D × D)
  walk_orderbook [] size = some (decimal 5 2, decimal 0 0)
  walk_orderbook (l ∷ ls) size =
      let c = walk_levels (l ∷ ls) (record {
        remaining_size = size;
        total_cost = decimal 0 0;
        depth_consumed = decimal 0 0;
      }) in
      if lt (decimal 0 0) c.depth_consumed
      then (do
        avg ← divide c.total_cost c.depth_consumed
        slippage ← divide (abs (sub avg l.price)) l.price
        some (slippage, c.depth_consumed))
      else some (decimal 5 2, c.depth_consumed)

  abbrev pub sum_sizes : List (BookLevel D) → D → D
  sum_sizes [] total = total
  sum_sizes (l ∷ ls) total = sum_sizes ls (add total l.size)

  -- `if volatility: self.volatility_factor = 1 + volatility`
  abbrev pub with_volatility : Option D → ImpactModel D → ImpactModel D
  with_volatility none m = m
  with_volatility (some v) m =
      if is_zero v then m else record m { volatility_factor = add (decimal 1 0) v }

  -- `_estimate_confidence`
  unfoldable pub book_confidence : Book D → D → D → D
  book_confidence book size depth =
      let one = decimal 10 1 in
      let thin =
        if ltb (length book.bids) 5 || ltb (length book.asks) 5
        then mul one (decimal 8 1)
        else one in
      let partly = lt (decimal 0 0) depth && lt (decimal 0 0) size in
      let short =
        if partly && lt (div depth size) (decimal 5 1) then mul thin (decimal 5 1) else thin in
      let old = if lt (decimal 10 0) book.age then mul short (decimal 9 1) else short in
      let stale = if lt (decimal 30 0) book.age then mul old (decimal 7 1) else old in
      max stale (decimal 1 1)

  -- The estimate of an empty side.
  abbrev pub no_liquidity : SlippageEstimate D
  no_liquidity = record {
    base_slippage = decimal 5 2;
    market_impact = decimal 5 2;
    timing_risk = decimal 1 2;
    total_slippage = decimal 10 2;
    confidence = decimal 1 1;
  }

module _ {A D : Type 0} ⦃fl : Float D⦄ (raw : RawDecimal A D) where
  open fl use {add, sub, mul, div, lt, le, decimal}
  open raw use {root}

  -- `calculate_impact`, which writes the volatility into the model.
  unfoldable pub calculate_impact : ImpactModel D → D → D → Option D → Option (D × ImpactModel D)
  calculate_impact model size depth volatility =
      if le depth (decimal 0 0) then some (decimal 5 2, model) else do
        let ratio = div size depth
        square_root ← root ratio
        let m = with_volatility volatility model
        let permanent = add (mul m.linear_impact ratio) (mul m.square_root_impact square_root)
        let total = mul (mul permanent m.liquidity_factor) m.volatility_factor
        some (min total (decimal 5 2), m)

  -- `_estimate_timing_risk`
  unfoldable pub estimate_timing_risk : D → D → Option D → ExecutionStrategy → Option D
  estimate_timing_risk size depth volatility strategy = do
    let grow = add (decimal 1 0) (min (div size depth) (decimal 1 0))
    let time = if lt (decimal 0 0) depth then mul (base_time strategy) grow else base_time strategy
    square_root ← root time
    let v : D = elim volatility [ none ↦ decimal 1 3 | some v ↦ v ]
    some (mul (mul (div v (decimal 60 0)) square_root) (decimal 5 1))

  -- A side with levels.
  unfoldable pub estimate_side :
      ImpactModel D
      → Book D
      → List (BookLevel D)
      → D
      → ExecutionStrategy
      → Option D
      → Option (SlippageEstimate D × ImpactModel D)
  unfolding walk_orderbook calculate_impact estimate_timing_risk
  estimate_side model book levels size strategy volatility = do
    (base, depth) ← walk_orderbook levels size
    let total_depth = sum_sizes (take_levels 10 levels) (decimal 0 0)
    (impact, model') ← calculate_impact model size total_depth volatility
    timing ← estimate_timing_risk size total_depth volatility strategy
    some (
      record {
        base_slippage = base;
        market_impact = impact;
        timing_risk = timing;
        total_slippage = mul (add (add base impact) timing) (strategy_multiplier strategy);
        confidence = book_confidence book size depth;
      },
      model',
    )

  unfoldable pub estimate_slippage :
      ImpactModel D
      → Book D
      → D
      → TradeSide
      → ExecutionStrategy
      → Option D
      → Option (SlippageEstimate D × ImpactModel D)
  unfolding estimate_side
  estimate_slippage model book size side strategy volatility =
      let levels : List (BookLevel D) = elim side [
        | trading_buy ↦ book.asks
        | trading_sell ↦ book.bids
      ] in
      elim levels [
        | [] ↦ some (no_liquidity, model)
        | l ∷ ls ↦ estimate_side model book (l ∷ ls) size strategy volatility
      ]
