-- ===== src/Clients/Resolved.antt =====
-- kalshi_arbitrage/kalshi_executor.py under reconcile.py: the probe of a market's resolution that the
-- Reconciler makes of KalshiOrderClient.
use kalshi.Common.{
  ℕ, true, false, Option, none, some, List, String, ◌≡◌, refl, inl, inr, leb, arith, Bool-cases,
  Option-cases,
}
use kalshi.Float.{Float}
use kalshi.Config.{Config}
use kalshi.KillSwitch.{KillSwitch, Disk, kalshi_venue}
use kalshi.Pnl.{ExecutionRecord}
use kalshi.Pnl.Tracker.{or_value}
use kalshi.Reconcile.{KalshiFill}
use kalshi.Reconcile.Run.{
  KalshiClient, Venues, market_of, probe, venue_resolved, reconcile_settlement,
}
use kalshi.Reconcile.Settlement.{settles_only_resolved}
use kalshi.Gateways.{Net}
use kalshi.Gateways.Kalshi.{KalshiResponse, KalshiMarket}
use kalshi.Clients.{
  HttpReply, answered, timed_out, broke, Http, get, market_at, response_of, exchange, request,
  says_resolved, is_resolved,
}

module _ {A V : Type 0} (cfg : Config A) (disk : Disk) (k : KillSwitch A) (ttl_default : ℕ)
    (http : Http A V) where
  -- The reply says of the market that it is resolved, and is no error.
  unfoldable pub Reports : HttpReply A → Type 0
  Reports r =
      (code : ℕ) × (resp : KalshiResponse A) × (m : KalshiMarket) × (r ≡ answered code resp)
      × (leb 400 code ≡ false)
      × (resp.error ≡ none)
      × (resp.market ≡ some m)
      × (says_resolved m ≡ true)

  response_of-Reports :
      (r : HttpReply A) (m : KalshiMarket)
      → (response_of cfg disk k ttl_default http r).error ≡ none
      → (response_of cfg disk k ttl_default http r).market ≡ some m
      → says_resolved m ≡ true
      → Reports r
  unfolding Reports
  response_of-Reports (answered code resp) m clean shown says = elim (Bool-cases (leb 400 code)) [
    | inl h ↦ ground arith
    | inr h ↦ (code, resp, m, refl, h, ground arith, ground arith, says)
  ]
  response_of-Reports timed_out m clean shown says = ground arith
  response_of-Reports (broke e) m clean shown says = ground arith

  is_resolved-Reports :
      (market : String) (g : Net V)
      → (is_resolved cfg disk k ttl_default http (some market) g).0 ≡ true
      → Reports (http.send get (market_at market) none g.venue).0
  unfolding is_resolved request exchange
  is_resolved-Reports market g h =
      let r = (http.send get (market_at market) none g.venue).0 in
      let resp = response_of cfg disk k ttl_default http r in
      elim (Option-cases resp.error) [
        | inr (e, bad) ↦ ground arith
        | inl clean ↦ elim (Option-cases resp.market) [
          | inl hidden ↦ ground arith
          | inr (m, shown) ↦ response_of-Reports r m clean shown (ground arith)
        ]
      ]

  -- The client as the Reconciler uses it.
  unfoldable pub reconciler_client :
      (String → Net V → Option (List (KalshiFill A)) × Net V) → KalshiClient A (Net V)
  unfolding is_resolved
  reconciler_client fetch = record {
    get_fills = fetch;
    is_resolved = some (λ market g.
        let (b, g') = is_resolved cfg disk k ttl_default http (some market) g in (some b, g'));
  }

  module _ ⦃fl : Float A⦄ (v : Venues A (Net V))
      (fetch : String → Net V → Option (List (KalshiFill A)) × Net V) where
    -- Through the real Kalshi client, a receipt is settled only if Kalshi answered the request for
    -- the execution's market with a status below 400, without an error, and with a market whose
    -- status or result says that it is resolved.
    pub settles_on_report :
        (e : ExecutionRecord A) (g : Net V)
        → v.kalshi ≡ some (reconciler_client fetch)
        → (reconcile_settlement v e g).0.1 ≡ true
        → Reports
            (http.send get (market_at (or_value (market_of v kalshi_venue e) "")) none g.venue).0
    unfolding venue_resolved probe reconciler_client
    settles_on_report e g known done = elim (settles_only_resolved v e g) [
      | inl (left, same) ↦ ground arith
      | inr (yes_done, unsettled, confirmed, has_kalshi, has_poly, kalshi_says, poly_says, after) ↦
          is_resolved-Reports (or_value (market_of v kalshi_venue e) "") g (ground arith)
    ]
