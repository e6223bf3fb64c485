-- ===== src/Reconcile.antt =====
-- kalshi_arbitrage/reconcile.py: what a venue's record of a fill changes in the tracker's own.
-- The Reconciler is in Run.
pub mod Run
pub mod Settlement
pub mod Fills
use kalshi.Common.{
  ℕ, zero, suc, ◌+◌, Bool, true, false, ◌&&◌, ◌||◌, not, Option, none, some, List, [], ◌∷◌, ◌++◌,
  String, is_truthy, if◌then◌else◌,
}
use kalshi.Float.{Float}
use kalshi.KillSwitch.{Venue, kalshi_venue, polymarket_venue}
use kalshi.Pnl.{Source, exchange, FillRecord, ExecutionRecord, is_settled, has_confirmed_legs}
use kalshi.Pnl.Tracker.{PnlTracker, settle_with, or_value}

-- The keys of a venue's own record of a fill; a Kalshi fee is in cents.
pub record KalshiFill (A : Type 0) : Type 0 where
  pub trade_id : Option String
  pub fill_id : Option String
  pub fee_cents : Option A
  pub fee : Option A

pub record PolyTrade (A : Type 0) : Type 0 where
  pub id : Option String
  pub transaction_hash : Option String
  pub trade_id : Option String
  pub fee : Option A

-- `a or b` of two optional ids.
abbrev pub or_id : Option String → Option String → Option String
or_id a b = if is_truthy a then a else b

module _ {A : Type 0} ⦃fl : Float A⦄ where
  open fl use {div, of_nat}

  abbrev pub in_dollars : A → A
  in_dollars cents = div cents (of_nat 100)

  abbrev pub kalshi_fee : KalshiFill A → A → A
  kalshi_fee f old = elim f.fee_cents [
    | some cents ↦ in_dollars cents
    | none ↦ elim f.fee [ none ↦ old | some cents ↦ in_dollars cents ]
  ]

  -- The first of the venue's records overwrites the fill's own; its id is never empty.
  unfoldable pub apply_kalshi_fill :
      FillRecord A → Option (List (KalshiFill A)) → FillRecord A × Bool
  apply_kalshi_fill fr none = (fr, false)
  apply_kalshi_fill fr (some []) = (fr, false)
  apply_kalshi_fill fr (some (f ∷ fs)) =
      let tid = or_id f.trade_id f.fill_id in
      (
        record fr {
          trade_id = if is_truthy tid then tid else fr.trade_id;
          fill_id =
              if is_truthy tid && not (is_truthy (some fr.fill_id))
              then or_value tid ""
              else fr.fill_id;
          fee = kalshi_fee f fr.fee;
          source = exchange;
        },
        true,
      )

  unfoldable pub apply_poly_trade : FillRecord A → Option (List (PolyTrade A)) → FillRecord A × Bool
  apply_poly_trade fr none = (fr, false)
  apply_poly_trade fr (some []) = (fr, false)
  apply_poly_trade fr (some (t ∷ ts)) =
      let tid = or_id (or_id t.id t.transaction_hash) t.trade_id in
      (
        record fr {
          trade_id = if is_truthy tid then tid else fr.trade_id;
          fee = or_value t.fee fr.fee;
          source = exchange;
        },
        true,
      )
