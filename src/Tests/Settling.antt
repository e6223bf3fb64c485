-- ===== src/Tests/Settling.antt =====
-- A concrete settlement through the Kalshi order client.
use kalshi.Common.{refl, Option, none, some, List, [], ◌∷◌, String}
use kalshi.Common.Int.{ℤ}
use kalshi.Float.Fixed.{fixed}
use kalshi.KillSwitch.{kalshi_venue, untripped}
use kalshi.Pnl.Tracker.{or_value}
use kalshi.Reconcile.{KalshiFill}
use kalshi.Reconcile.Run.{
  Venues, market_of, probe, venue_resolved, poly_resolved_via_gamma, reconcile_settlement,
}
use kalshi.Gateways.{Net}
use kalshi.Books.Polymarket.{missing}
use kalshi.Clients.{Http, get, market_at, answered, request, exchange, is_resolved}
use kalshi.Clients.Resolved.{Reports, reconciler_client, settles_on_report}
use kalshi.Tests.Data.{whole, cfg, disk}
use kalshi.Tests.Ledger.{confirmed}
use kalshi.Tests.Site.{Site, http, locked}

-- HTTP that answers every request with a finalized market.
abbrev finalized_http : Http ℤ Site
finalized_http = record http {
  send = λ method endpoint body v. (
    answered 200 (record {
      error = none;
      order = none;
      balance = missing;
      market = some (record { status = some "Finalized"; result = none });
    }),
    v,
  );
}

abbrev no_fills : String → Net Site → Option (List (KalshiFill ℤ)) × Net Site
no_fills i g = (none, g)

abbrev venues : Venues ℤ (Net Site)
venues = record {
  kalshi = some (reconciler_client cfg disk untripped 5 finalized_http no_fills);
  poly = some (record { get_trades = λ i g. (none, g); is_resolved = none });
  gamma = λ market g. (some ("resolved" ∷ []), g);
  now = whole 200;
  fresh = λ i. "settled";
}

settles_on_report_example :
    Reports cfg disk untripped 5 finalized_http
      (finalized_http.send get
        (market_at (or_value (market_of venues kalshi_venue confirmed) ""))
        none
        locked.venue).0
unfolding reconcile_settlement venue_resolved probe poly_resolved_via_gamma market_of
    reconciler_client is_resolved request exchange
settles_on_report_example =
    settles_on_report cfg disk untripped 5 finalized_http venues no_fills confirmed locked refl refl
