-- ===== src/Tests/Ledger.antt =====
-- Concrete runs of the ledger of confirmed profits and of its reconciliation.
use kalshi.Common.{
  ℕ, ◌≡◌, ◌+◌, ◌⊎◌, refl, true, false, none, some, [], ◌∷◌, String, is_truthy, arith,
}
use kalshi.Common.Int.{ℤ}
use kalshi.Float.Fixed.{fixed}
use kalshi.KillSwitch.{Venue, kalshi_venue, polymarket_venue}
use kalshi.Executor.{same_outcome}
use kalshi.Pnl.{ExecutionRecord, Metadata, exchange, is_set, is_settled, has_confirmed_legs}
use kalshi.Pnl.Tracker.{PnlTracker, ok, find}
use kalshi.Pnl.Receipt.{LegArgs, ReceiptArgs, FreshIds, record_execution_receipt}
use kalshi.Pnl.FillIds.{IsSound}
use kalshi.Pnl.History.{receiving, run, run_books_once}
use kalshi.Pnl.Known.{receipt_returns}
use kalshi.Reconcile.Run.{
  Venues, venue_resolved, settlement, reconcile_settlement, reconcile_all, probe, market_of,
}
use kalshi.Reconcile.Settlement.{Every, settles_only_resolved, reconcile_all_settles}
use kalshi.Tests.Data.{whole, cents}

abbrev empty : PnlTracker ℤ
empty = record {
  allow_simulated_confirmed = false;
  executions = [];
  fill_ids = [];
  trade_tape = [];
  max_trade_tape_events = 100;
}

abbrev leg : ℕ → String → LegArgs ℤ
leg price id = record {
  price = cents price;
  size = whole 10;
  fee = cents 5;
  order_id = some "o1";
  fill_id = some id;
  trade_id = none;
}

abbrev metadata : Metadata
metadata = record {
  strategy_type = none;
  kalshi_ticker = some (some "KXINX");
  polymarket_token = some (some "71");
}

abbrev receipt : ReceiptArgs ℤ
receipt = record {
  opportunity_id = "opp";
  buy_platform = some kalshi_venue;
  sell_platform = some polymarket_venue;
  buy = leg 40 "f1";
  sell = leg 55 "f2";
  execution_id = some "e1";
  settlement_id = none;
  market_id = none;
  token_id = none;
  source = exchange;
  metadata = metadata;
  strategy_type = some same_outcome;
  mark_confirmed = true;
  settle = false;
  timestamp = some (whole 100);
}

abbrev fresh : FreshIds
fresh = record { execution = "x"; buy_fill = "b"; sell_fill = "s"; settlement = "t" }

-- The same receipt, twice.
run_books_once_example :
    IsSound
      (run (receiving (whole 100) fresh receipt ∷ receiving (whole 101) fresh receipt ∷ []) empty)
run_books_once_example =
    run_books_once (receiving (whole 100) fresh receipt ∷ receiving (whole 101) fresh receipt ∷ [])
      empty (λ i. (refl, omega arith))

receipt_returns_example :
    (t' : PnlTracker ℤ) × (record_execution_receipt (whole 100) fresh receipt empty ≡ ok ("e1", t'))
    × (is_set (find "e1" t'.executions) ≡ true)
receipt_returns_example = receipt_returns (whole 100) fresh receipt empty

-- Venues on which every market is resolved.
abbrev venues : Venues ℤ ℕ
venues = record {
  kalshi = some (record {
    get_fills = λ id n. (some [], n);
    is_resolved = some (λ market n. (some true, n + 1));
  });
  poly = some (record { get_trades = λ id n. (none, n); is_resolved = none });
  gamma = λ market n. (some ("proposed" ∷ "resolved" ∷ []), n + 1);
  now = whole 200;
  fresh = λ id. "settled";
}

abbrev pub confirmed : ExecutionRecord ℤ
confirmed = record {
  execution_id = "e1";
  opportunity_id = "opp";
  buy_platform = some kalshi_venue;
  sell_platform = some polymarket_venue;
  created_at = whole 100;
  metadata = metadata;
  buy_fills = [];
  sell_fills = [];
  buy_confirmed_at = some (whole 100);
  sell_confirmed_at = some (whole 100);
  settlement_id = none;
  settled_at = none;
}

settles_only_resolved_example :
    let ((e', done), n) = reconcile_settlement venues confirmed 0 in
    ((done ≡ false) × (e' ≡ confirmed))
    ⊎ ((done ≡ true)
        × (is_settled confirmed ≡ false)
        × (has_confirmed_legs confirmed ≡ true)
        × (is_set venues.kalshi ≡ true)
        × (is_set venues.poly ≡ true)
        × ((venue_resolved venues kalshi_venue confirmed 0).0 ≡ true)
        × ((venue_resolved venues polymarket_venue confirmed
              (venue_resolved venues kalshi_venue confirmed 0).1).0
            ≡ true)
        × (is_settled e' ≡ true))
settles_only_resolved_example = settles_only_resolved venues confirmed 0

all_resolved : (venue : Venue) (market : String) (n : ℕ) → (probe venues venue market n).0 ≡ true
unfolding probe
all_resolved kalshi_venue market n = refl
all_resolved polymarket_venue market n = refl

named : (venue : Venue) → is_truthy (market_of venues venue confirmed) ≡ true
unfolding market_of
named kalshi_venue = refl
named polymarket_venue = refl

reconcile_all_settles_example :
    Every venues
      (λ e. has_confirmed_legs e ≡ true → is_settled e ≡ true)
      (reconcile_all venues settlement
        (record empty { executions = ("e1", confirmed) ∷ [] })
        0).0.0.executions
reconcile_all_settles_example =
    reconcile_all_settles venues (record empty { executions = ("e1", confirmed) ∷ [] }) 0
      all_resolved (named, tt)
