-- ===== src/Pnl/Receipt.antt =====
-- kalshi_arbitrage/confirmed_pnl.py: `record_execution_receipt`, which registers an execution with
-- both fills, confirms it and settles it.
use kalshi.Common.{Bool, Option, none, some, String, if◌then◌else◌}
use kalshi.Float.{Float}
use kalshi.KillSwitch.{Venue}
use kalshi.Executor.{StrategyType}
use kalshi.Pnl.{Source, Metadata}
use kalshi.Pnl.Tracker.{
  PnlTracker, FillArgs, buy_leg, sell_leg, Result, ok, then_do, register_execution, record_fill,
  mark_leg_confirmed, mark_settled,
}

-- The arguments of `record_execution_receipt`.
pub record LegArgs (A : Type 0) : Type 0 where
  pub price : A
  pub size : A
  pub fee : A
  pub order_id : Option String
  pub fill_id : Option String
  pub trade_id : Option String

pub record ReceiptArgs (A : Type 0) : Type 0 where
  pub opportunity_id : String
  pub buy_platform : Option Venue
  pub sell_platform : Option Venue
  pub buy : LegArgs A
  pub sell : LegArgs A
  pub execution_id : Option String
  pub settlement_id : Option String
  pub market_id : Option String
  pub token_id : Option String
  pub source : Source
  pub metadata : Metadata
  pub strategy_type : Option StrategyType
  pub mark_confirmed : Bool
  pub settle : Bool  -- `mark_settled`
  pub timestamp : Option A

-- The ids that a receipt may have to draw.
pub record FreshIds : Type 0 where
  pub execution : String
  pub buy_fill : String
  pub sell_fill : String
  pub settlement : String

-- `metadata.setdefault("strategy_type", strategy_type)`, if there is a strategy.
abbrev pub with_strategy : Option StrategyType → Metadata → Metadata
with_strategy none m = m
with_strategy (some s) m = elim m.strategy_type [
  | none ↦ record m { strategy_type = some (some s) }
  | some old ↦ m
]

module _ {A : Type 0} ⦃fl : Float A⦄ where
  abbrev pub leg_fill : ReceiptArgs A → Option Venue → LegArgs A → FillArgs A
  leg_fill r platform l = record {
    fill_id = l.fill_id;
    platform = platform;
    price = l.price;
    size = l.size;
    fee = l.fee;
    order_id = l.order_id;
    trade_id = l.trade_id;
    market_id = r.market_id;
    token_id = r.token_id;
    timestamp = r.timestamp;
    source = r.source;
    auto_confirm = r.mark_confirmed;
  }

  -- The last two steps of a receipt.
  unfoldable pub confirm_both : A → String → ReceiptArgs A → PnlTracker A → Result (PnlTracker A)
  unfolding mark_leg_confirmed
  confirm_both now id r t =
      if r.mark_confirmed
      then then_do (mark_leg_confirmed now id buy_leg r.timestamp t)
          (mark_leg_confirmed now id sell_leg r.timestamp)
      else ok t

  unfoldable pub settle_receipt :
      A → FreshIds → String → ReceiptArgs A → PnlTracker A → Result (PnlTracker A)
  unfolding mark_settled
  settle_receipt now fresh id r t =
      if r.settle
      then then_do
          (mark_settled now fresh.settlement id r.settlement_id r.timestamp r.mark_confirmed t)
          (λ done. ok done.1)
      else ok t

  -- What is left after each fill.
  unfoldable pub after_sell :
      A → FreshIds → String → ReceiptArgs A → PnlTracker A → Result (PnlTracker A)
  unfolding confirm_both settle_receipt
  after_sell now fresh id r t = then_do (confirm_both now id r t) (settle_receipt now fresh id r)

  unfoldable pub after_buy :
      A → FreshIds → String → ReceiptArgs A → PnlTracker A → Result (PnlTracker A)
  unfolding record_fill after_sell
  after_buy now fresh id r t =
      then_do (record_fill now fresh.sell_fill id sell_leg (leg_fill r r.sell_platform r.sell) t)
        (λ sold. after_sell now fresh id r sold.1)

  unfoldable pub after_register :
      A → FreshIds → String → ReceiptArgs A → PnlTracker A → Result (PnlTracker A)
  unfolding record_fill after_buy
  after_register now fresh id r t =
      then_do (record_fill now fresh.buy_fill id buy_leg (leg_fill r r.buy_platform r.buy) t)
        (λ bought. after_buy now fresh id r bought.1)

  -- The tracker with the receipt's execution registered.
  unfoldable pub registered : A → FreshIds → ReceiptArgs A → PnlTracker A → String × PnlTracker A
  unfolding register_execution
  registered now fresh r t =
      register_execution now fresh.execution r.opportunity_id r.buy_platform r.sell_platform
        r.execution_id (with_strategy r.strategy_type r.metadata) r.timestamp t

  unfoldable pub record_execution_receipt :
      A → FreshIds → ReceiptArgs A → PnlTracker A → Result (String × PnlTracker A)
  unfolding registered after_register
  record_execution_receipt now fresh r t =
      let (id, t') = registered now fresh r t in
      then_do (after_register now fresh id r t') (λ t''. ok (id, t''))
