-- ===== src/Risk/Confidence.antt =====
-- kalshi_arbitrage/risk_engine.py under arbitrage_executor.py: the confidence of an assessment, and
-- the executor's gate on it.
use kalshi.Common.{
  ℕ, ◌+◌, ◌*◌, ◌^◌, Bool, true, false, Option, none, some, ◌≡◌, refl, ap, ◌∙◌, ◌⊎◌, inl, inr, ltb,
  arith, if◌then◌else◌,
}
use kalshi.Float.{Float, max}
use kalshi.Config.{Config}
use kalshi.Executor.{Opportunity, Skip, risk_too_high, Advisers}
use kalshi.Executor.Gates.{judge, risk_gate_of}
use kalshi.Risk.{
  RiskInput, RiskAssessment, confidence_of, assessment_of, assess_unsafe, maximal_risk,
  assess_opportunity,
}
use kalshi.Risk.Slippage.{RawDecimal, Book, ImpactModel}
use kalshi.Risk.Gate.{input_of, read_assessment, assess_unsafe-cases, buy_book, sell_book}

-- The literals of Decimal are exact: their products, and their order.
pub record ExactDecimals {D : Type 0} (fl : Float D) : Type 0 where
  pub mul-decimal :
      (m n e f : ℕ) → fl.mul (fl.decimal m e) (fl.decimal n f) ≡ fl.decimal (m * n) (e + f)
  pub lt-decimal :
      (m n e f : ℕ) → fl.lt (fl.decimal m e) (fl.decimal n f) ≡ ltb (m * 10 ^ f) (n * 10 ^ e)

-- Is there a book on either side?
abbrev pub has_book : {D : Type 0} → Option (Book D) → Option (Book D) → Bool
has_book none none = false
has_book _ _ = true

module _ {D : Type 0} ⦃fl : Float D⦄ (exact : ExactDecimals fl) where
  open fl use {lt, mul, decimal}
  open exact use {mul-decimal, lt-decimal}

  not_below :
      (m e : ℕ) (c : D)
      → c ≡ decimal m e
      → ltb (m * 10 ^ 2) (5 * 10 ^ e) ≡ false
      → ltb (m * 10 ^ 1) (4 * 10 ^ e) ≡ false
      → lt (max c (decimal 5 2)) (decimal 4 1) ≡ false
  not_below m e c same floor bound = rw (same, lt-decimal m 5 e 2, floor, lt-decimal m 4 e 1) bound

  -- Both books: at most two reductions for age.
  two_books :
      (x y : Bool)
      → let once = if x then mul (decimal 10 1) (decimal 8 1) else decimal 10 1 in
        let c = if y then mul once (decimal 8 1) else once in
        lt (max c (decimal 5 2)) (decimal 4 1) ≡ false
  two_books false false = not_below 10 1 _ refl refl refl
  two_books false true = not_below 80 2 _ (mul-decimal 10 8 1 1) refl refl
  two_books true false = not_below 80 2 _ (mul-decimal 10 8 1 1) refl refl
  two_books true true =
      not_below 640 3 _
        (ap (λ c. mul c (decimal 8 1)) (mul-decimal 10 8 1 1) ∙ mul-decimal 80 8 2 1) refl refl

  -- One book: half, and one reduction for age.
  one_book :
      (x : Bool)
      → let half = mul (decimal 10 1) (decimal 5 1) in
        let c = if x then mul half (decimal 8 1) else half in
        lt (max c (decimal 5 2)) (decimal 4 1) ≡ false
  one_book false = not_below 50 2 _ (mul-decimal 10 5 1 1) refl refl
  one_book true =
      not_below 400 3 _
        (ap (λ c. mul c (decimal 8 1)) (mul-decimal 10 5 1 1) ∙ mul-decimal 50 8 2 1) refl refl

  confidence_of-floor :
      (b s : Option (Book D)) → has_book b s ≡ true → lt (confidence_of b s) (decimal 4 1) ≡ false
  unfolding confidence_of
  confidence_of-floor none none h = ground arith
  confidence_of-floor none (some s) h = one_book (lt (decimal 30 0) s.age)
  confidence_of-floor (some b) none h = one_book (lt (decimal 30 0) b.age)
  confidence_of-floor (some b) (some s) h =
      two_books (lt (decimal 30 0) b.age) (lt (decimal 30 0) s.age)

module _ {A D G : Type 0} ⦃fa : Float A⦄ ⦃fl : Float D⦄ (raw : RawDecimal A D)
    (exact : ExactDecimals fl) (cfg : Config A) (margin : Opportunity A (Book D) → A)
    (model : ImpactModel D) (adv : Advisers A (Book D) G)
    (by_engine : (opp : Opportunity A (Book D)) (k p : Option (Book D))
      → adv.assess opp k p
        ≡ some (read_assessment raw (assess_opportunity raw model (input_of margin opp) k p).0))
    (kept : (c : D)
      → fl.lt c (fl.decimal 4 1) ≡ false
      → fa.lt (raw.to_float c) cfg.min_risk_confidence ≡ false)
    (maximal : fa.lt cfg.max_risk_score (raw.to_float (fl.decimal 100 0)) ≡ true) where
  -- Not rejected, or rejected for its score.
  Scored : Option Skip → Type 0
  Scored v = (v ≡ none) ⊎ (v ≡ some risk_too_high)

  confident-Scored :
      (r : RiskAssessment D)
      → fl.lt r.confidence (fl.decimal 4 1) ≡ false
      → Scored (judge adv cfg (some (read_assessment raw r)))
  unfolding judge read_assessment Scored
  confident-Scored r h = let enough = kept r.confidence h in ground arith

  maximal_risk-Scored : Scored (judge adv cfg (some (read_assessment raw (maximal_risk raw))))
  unfolding judge read_assessment Scored
  maximal_risk-Scored = rw maximal (inr refl)

  judge-Scored :
      (input : RiskInput A) (k p : Option (Book D))
      → has_book (buy_book raw input k p) (sell_book raw input k p) ≡ true
      → Scored
          (judge adv cfg (some (read_assessment raw (assess_opportunity raw model input k p).0)))
  unfolding assess_opportunity assessment_of
  judge-Scored input k p h =
      let b = buy_book raw input k p in
      let s = sell_book raw input k p in
      elim (assess_unsafe-cases raw model input k p) [
        | inl e ↦ rw (e, assess_opportunity) maximal_risk-Scored
        | inr (size, m, x, n, scored, e) ↦
            rw (e, assess_opportunity)
              (confident-Scored (assessment_of raw size m x _ b s input)
                (confidence_of-floor exact b s h))
      ]

  -- The gate's check of the confidence never rejects a trade: with the risk engine as its adviser,
  -- the gate passes a trade that has a book on a side, or rejects it for its score. For exact
  -- decimals, a floor of confidence that 0.4 meets, and a highest score below 100.
  pub risk_gate-Scored :
      (opp : Opportunity A (Book D)) (k p : Option (Book D))
      → has_book (buy_book raw (input_of margin opp) k p) (sell_book raw (input_of margin opp) k p)
        ≡ true
      → let v = risk_gate_of adv cfg opp (some (k, p)) in (v ≡ none) ⊎ (v ≡ some risk_too_high)
  unfolding risk_gate_of Scored
  risk_gate-Scored opp none none h = inl refl
  risk_gate-Scored opp none (some p) h =
      rw (by_engine opp none (some p)) (judge-Scored (input_of margin opp) none (some p) h)
  risk_gate-Scored opp (some k) none h =
      rw (by_engine opp (some k) none) (judge-Scored (input_of margin opp) (some k) none h)
  risk_gate-Scored opp (some k) (some p) h =
      rw (by_engine opp (some k) (some p)) (judge-Scored (input_of margin opp) (some k) (some p) h)

module _ {A D G : Type 0} ⦃fa : Float A⦄ ⦃fl : Float D⦄ (raw : RawDecimal A D) (cfg : Config A)
    (margin : Opportunity A (Book D) → A) (model : ImpactModel D)
    (adv : Advisers A (Book D) G) where
  -- A trade with a book attached whose scoring raises is rejected for its score; with the risk
  -- engine as the executor's adviser, and a highest score below 100.
  pub risk_gate_fails_closed :
      (opp : Opportunity A (Book D)) (k p : Option (Book D))
      → ((k p : Option (Book D))
          → adv.assess opp k p
            ≡ some (read_assessment raw (assess_opportunity raw model (input_of margin opp) k p).0))
      → fa.lt cfg.max_risk_score (raw.to_float (fl.decimal 100 0)) ≡ true
      → has_book k p ≡ true
      → assess_unsafe raw model (input_of margin opp) k p ≡ none
      → risk_gate_of adv cfg opp (some (k, p)) ≡ some risk_too_high
  unfolding risk_gate_of assess_opportunity judge read_assessment
  risk_gate_fails_closed opp none none by_engine maximal h raised = ground arith
  risk_gate_fails_closed opp none (some p) by_engine maximal h raised =
      rw (by_engine none (some p), raised, assess_opportunity, judge, maximal) refl
  risk_gate_fails_closed opp (some k) none by_engine maximal h raised =
      rw (by_engine (some k) none, raised, assess_opportunity, judge, maximal) refl
  risk_gate_fails_closed opp (some k) (some p) by_engine maximal h raised =
      rw (by_engine (some k) (some p), raised, assess_opportunity, judge, maximal) refl
