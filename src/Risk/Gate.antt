-- ===== src/Risk/Gate.antt =====
-- kalshi_arbitrage/risk_engine.py under arbitrage_executor.py: the scores' caps, and what the
-- executor's risk gate makes of an assessment.
use kalshi.Common.{
  true, false, Option, none, some, ◌≡◌, refl, sym, ◌∙◌, ◌⊎◌, inl, inr, arith, Bool-cases,
  Option-cases, if◌then◌else◌,
}
use kalshi.Float.{Float, FloatOrder, min}
use kalshi.Executor.{Opportunity, Assessment}
use kalshi.Risk.{
  RiskInput, RiskAssessment, market_risk_of, platform_risk_of, on_kalshi, on_polymarket, side_risk,
  execution_risk_of, assessment_of, assess_unsafe, assess_opportunity,
}
use kalshi.Risk.Slippage.{RawDecimal, Book, ImpactModel}

-- The request that the executor's gate makes of the engine, and the two numbers that it reads.
unfoldable pub input_of : {A B : Type 0} → (Opportunity A B → A) → Opportunity A B → RiskInput A
input_of margin opp = record {
  max_tradeable_volume = opp.max_tradeable_volume;
  profit_margin = margin opp;
  buy_platform = opp.buy_platform;
  sell_platform = opp.sell_platform;
}

unfoldable pub read_assessment : {A D : Type 0} → RawDecimal A D → RiskAssessment D → Assessment A
read_assessment raw r = record {
  total_risk_score = raw.to_float r.total_risk_score;
  confidence = raw.to_float r.confidence;
}

module _ {D : Type 0} ⦃fl : Float D⦄ (order : FloatOrder fl)
    (comparable : (x : D) → fl.le x x ≡ true) where
  open fl use {le, lt}

  min-le : (x y : D) → le (min x y) y ≡ true
  min-le x y =
      let same = comparable y in
      let below = order.le_of_not_lt y x same (comparable x) in
      elim (Bool-cases (lt y x)) [ inl h ↦ rw h same | inr h ↦ rw h (below h) ]

-- Every component of an assessment is within its cap.
unfoldable pub IsCapped : {D : Type 0} → Float D → RiskAssessment D → Type 0
IsCapped fl r =
    (fl.le r.execution_risk (fl.decimal 50 0) ≡ true)
    × (fl.le r.market_risk (fl.decimal 30 0) ≡ true)
    × (fl.le r.platform_risk (fl.decimal 20 0) ≡ true)
    × (fl.le r.total_risk_score (fl.decimal 100 0) ≡ true)

module _ {A D : Type 0} ⦃fl : Float D⦄ (raw : RawDecimal A D) where
  -- The books of the two sides.
  abbrev pub buy_book : RiskInput A → Option (Book D) → Option (Book D) → Option (Book D)
  buy_book input k p = if on_kalshi input.buy_platform then k else p

  abbrev pub sell_book : RiskInput A → Option (Book D) → Option (Book D) → Option (Book D)
  sell_book input k p = if on_polymarket input.sell_platform then p else k

  pub assess_unsafe-cases :
      (model : ImpactModel D) (input : RiskInput A) (k p : Option (Book D))
      → let r = assess_unsafe raw model input k p in
        (r ≡ none)
        ⊎ ((size : D) × (margin : D) × (execution : D) × (m : ImpactModel D) × (execution_risk_of
                raw model
                (buy_book input k p)
                (sell_book input k p)
                size
              ≡ some (execution, m))
            × (r
                ≡ some (
                  assessment_of raw size margin execution
                      (platform_risk_of input.buy_platform input.sell_platform)
                      (buy_book input k p)
                      (sell_book input k p)
                      input,
                  m,
                )))
  unfolding assess_unsafe
  assess_unsafe-cases model input k p =
      let b = buy_book input k p in
      let s = sell_book input k p in
      elim (Option-cases (raw.to_decimal input.max_tradeable_volume)) [
        | inl h ↦ rw (h, assess_unsafe) (inl refl)
        | inr (size, h) ↦ elim (Option-cases (raw.to_decimal input.profit_margin)) [
          | inl l ↦ rw (h, l, assess_unsafe) (inl refl)
          | inr (margin, l) ↦ elim (Option-cases (execution_risk_of raw model b s size)) [
            | inl e ↦ rw (h, l, e, assess_unsafe) (inl refl)
            | inr ((x, m), e) ↦ rw (h, l, e, assess_unsafe) (inr (size, margin, x, m, e, refl))
          ]
        ]
      ]

module _ {A D : Type 0} ⦃fl : Float D⦄ (raw : RawDecimal A D) (order : FloatOrder fl)
    (comparable : (x : D) → fl.le x x ≡ true) where
  execution_risk_of-cases :
      (model : ImpactModel D) (b s : Option (Book D)) (size : D)
      → let r = execution_risk_of raw model b s size in
        (r ≡ none) ⊎ ((y : D) × (m : ImpactModel D) × (r ≡ some (min y (fl.decimal 50 0), m)))
  unfolding execution_risk_of
  execution_risk_of-cases model b s size = elim (Option-cases (side_risk raw model b size true)) [
    | inl h ↦ rw (h, execution_risk_of) (inl refl)
    | inr ((x, m), h) ↦ elim (Option-cases (side_risk raw m s size false)) [
      | inl k ↦ rw (h, k, execution_risk_of) (inl refl)
      | inr ((y, n), k) ↦ rw (h, k, execution_risk_of) (inr (_, n, refl))
    ]
  ]

  execution_risk_of-le :
      (model model' : ImpactModel D) (b s : Option (Book D)) (size x : D)
      → execution_risk_of raw model b s size ≡ some (x, model')
      → fl.le x (fl.decimal 50 0) ≡ true
  execution_risk_of-le model model' b s size x h = elim (execution_risk_of-cases model b s size) [
    | inl e ↦ let no = sym e ∙ h in ground arith
    | inr (y, m, e) ↦
        let same = sym e ∙ h in
        let below = min-le order comparable y (fl.decimal 50 0) in ground arith
  ]

  assessment_of-IsCapped :
      (size margin execution : D) (b s : Option (Book D)) (input : RiskInput A)
      → fl.le execution (fl.decimal 50 0) ≡ true
      → IsCapped fl (
          assessment_of raw size margin execution
            (platform_risk_of input.buy_platform input.sell_platform)
            b
            s
            input)
  unfolding IsCapped assessment_of market_risk_of platform_risk_of
  assessment_of-IsCapped size margin execution b s input h =
      (h, min-le order comparable _ _, min-le order comparable _ _, min-le order comparable _ _)

  -- Whatever the books, an assessment has an execution risk of at most 50, a market risk of at most
  -- 30, a platform risk of at most 20 and a total score of at most 100, also when the scoring
  -- raises; where any two numbers can be compared, as Decimals can.
  pub assess_opportunity-IsCapped :
      (model : ImpactModel D) (input : RiskInput A) (kalshi polymarket : Option (Book D))
      → IsCapped fl (assess_opportunity raw model input kalshi polymarket).0
  unfolding assess_opportunity IsCapped
  assess_opportunity-IsCapped model input kalshi polymarket =
      elim (Option-cases (assess_unsafe raw model input kalshi polymarket)) [
        | inl h ↦
            rw (h, assess_opportunity) (comparable _, comparable _, comparable _, comparable _)
        | inr ((r, m), h) ↦ elim (assess_unsafe-cases raw model input kalshi polymarket) [
          | inl e ↦ let no = sym e ∙ h in ground arith
          | inr (size, margin, x, n, low, e) ↦
              let b = buy_book raw input kalshi polymarket in
              let s = sell_book raw input kalshi polymarket in
              rw (e, assess_opportunity)
                (assessment_of-IsCapped size margin x b s input
                  (execution_risk_of-le model n b s size x low))
        ]
      ]
