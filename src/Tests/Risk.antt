-- ===== src/Tests/Risk.antt =====
-- Concrete runs of the risk engine and the gate on it, over exact decimals.
use kalshi.Common.{
  ℕ, ◌+◌, ◌*◌, ◌-◌, ◌/◌, ◌^◌, ◌≡◌, ◌⊎◌, refl, true, none, some, [], ◌∷◌, ltb, leb, ◌==◌, arith,
}
use kalshi.Common.Int.{ℤ}
use kalshi.Float.{Float}
use kalshi.Float.Fixed.{fixed, fixed-FloatOrder}
use kalshi.Config.{Config, default_config}
use kalshi.KillSwitch.{kalshi_venue, polymarket_venue}
use kalshi.Executor.{Opportunity, Advisers, risk_too_high, same_outcome}
use kalshi.Executor.Gates.{risk_gate_of}
use kalshi.Risk.{RiskInput, assess_unsafe, assess_opportunity, execution_risk_of, side_risk}
use kalshi.Risk.Slippage.{
  RawDecimal, Book, impact_model, walk_orderbook, estimate_slippage, estimate_side,
}
use kalshi.Risk.Gate.{IsCapped, input_of, read_assessment, assess_opportunity-IsCapped}
use kalshi.Risk.Confidence.{risk_gate-Scored, risk_gate_fails_closed}
use kalshi.Tests.Data.{whole, cents}

-- A decimal that is not negative: `mantissa * 10 ** -scale`.
pub record Exact : Type 0 where
  pub mantissa : ℕ
  pub scale : ℕ

abbrev of : ℕ → ℕ → Exact
of m e = record { mantissa = m; scale = e }

instance abbrev exact : Float Exact
exact = record {
  add = λ a b. of (a.mantissa * 10 ^ b.scale + b.mantissa * 10 ^ a.scale) (a.scale + b.scale);
  sub = λ a b. of (a.mantissa * 10 ^ b.scale - b.mantissa * 10 ^ a.scale) (a.scale + b.scale);
  mul = λ a b. of (a.mantissa * b.mantissa) (a.scale + b.scale);
  div = λ a b. of (a.mantissa * 10 ^ (b.scale + 12) / (b.mantissa * 10 ^ a.scale)) 12;
  abs = λ a. a;
  floor = λ a. of (a.mantissa / 10 ^ a.scale) 0;
  lt = λ a b. ltb (a.mantissa * 10 ^ b.scale) (b.mantissa * 10 ^ a.scale);
  le = λ a b. leb (a.mantissa * 10 ^ b.scale) (b.mantissa * 10 ^ a.scale);
  is_zero = λ a. a.mantissa == 0;
  of_nat = λ n. of n 0;
  ratio = λ a b. of (a * 10 ^ 12 / b) 12;
  decimal = of;
}

abbrev exact_raw : RawDecimal Exact Exact
exact_raw = record { to_decimal = λ x. some x; root = λ x. some x; to_float = λ x. x }

-- Twelve contracts offered at 0.40, and the same bid for, half a minute ago.
abbrev deep : Book Exact
deep = record {
  bids = record { price = of 40 2; size = of 12 0 } ∷ [];
  asks = record { price = of 40 2; size = of 12 0 } ∷ [];
  age = of 31 0;
}

-- A level at the price of zero, over which the slippage cannot be divided.
abbrev worthless : Book Exact
worthless = record deep { asks = record { price = of 0 0; size = of 12 0 } ∷ [] }

abbrev opp : Opportunity Exact (Book Exact)
opp = record {
  opportunity_id = some "opp-1";
  total_profit = of 10 0;
  max_tradeable_volume = of 10 0;
  kalshi_price = of 40 2;
  polymarket_price = of 50 2;
  buy_platform = some kalshi_venue;
  sell_platform = some polymarket_venue;
  strategy_type = same_outcome;
  strategy = "same outcome";
  kalshi_id = some "KXNBA";
  polymarket_id = none;
  polymarket_token = some "71";
  risk_orderbooks = some (some deep, none);
}

abbrev margin : Opportunity Exact (Book Exact) → Exact
margin o = of 6 2

abbrev settings : Config Exact
settings = default_config

abbrev advisers : Advisers Exact (Book Exact) ℕ
advisers = record {
  assess = λ o k p. some (
      read_assessment exact_raw
        (assess_opportunity exact_raw impact_model (input_of margin o) k p).0);
  is_allowlisted = λ k p. true;
  get_balance = λ v g. (none, g);
}

risk_gate-Scored_example :
    let v = risk_gate_of advisers settings opp (some (some deep, none)) in
    (v ≡ none) ⊎ (v ≡ some risk_too_high)
unfolding input_of
risk_gate-Scored_example =
    risk_gate-Scored exact_raw
      (record { mul-decimal = λ m n e f. refl; lt-decimal = λ m n e f. refl }) settings margin
      impact_model advisers (λ o k p. refl) (λ c h. ground arith) refl opp (some deep) none refl

risk_gate_fails_closed_example :
    risk_gate_of advisers settings opp (some (some worthless, none)) ≡ some risk_too_high
unfolding assess_unsafe execution_risk_of side_risk estimate_slippage estimate_side walk_orderbook
    input_of
risk_gate_fails_closed_example =
    risk_gate_fails_closed exact_raw settings margin impact_model advisers opp (some worthless) none
      (λ k p. refl) refl refl refl

abbrev fixed_raw : RawDecimal ℤ ℤ
fixed_raw = record { to_decimal = λ x. some x; root = λ x. some x; to_float = λ x. x }

abbrev input : RiskInput ℤ
input = record {
  max_tradeable_volume = whole 10;
  profit_margin = cents 1;
  buy_platform = some kalshi_venue;
  sell_platform = some polymarket_venue;
}

assess_opportunity-IsCapped_example :
    IsCapped fixed (assess_opportunity fixed_raw impact_model input none none).0
assess_opportunity-IsCapped_example =
    assess_opportunity-IsCapped fixed_raw fixed-FloatOrder (λ x. ground arith) impact_model input
      none none
