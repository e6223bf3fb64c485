-- ===== src/Reconcile/Settlement.antt =====
-- kalshi_arbitrage/reconcile.py: when a receipt is settled.
use kalshi.Common.{◌≡◌, ◌⊎◌, ◌∙◌, sym, true, false, List, [], ◌∷◌, String, is_truthy, arith}
use kalshi.Float.{Float}
use kalshi.KillSwitch.{Venue, kalshi_venue, polymarket_venue}
use kalshi.Pnl.{ExecutionRecord, is_set, is_settled, has_confirmed_legs}
use kalshi.Pnl.Tracker.{PnlTracker, or_value}
use kalshi.Reconcile.Run.{
  Venues, market_of, probe, venue_resolved, reconcile_settlement, settlement, reconcile_one,
  reconcile_entries, reconcile_all,
}

module _ {A G : Type 0} ⦃fl : Float A⦄ (v : Venues A G) where
  -- A receipt is settled only if it was not yet, both its legs are confirmed, and both venues, which
  -- must have clients, report its market resolved; otherwise it stays as it was.
  pub settles_only_resolved :
      (e : ExecutionRecord A) (g : G)
      → let ((e', done), g') = reconcile_settlement v e g in
        ((done ≡ false) × (e' ≡ e))
        ⊎ ((done ≡ true)
            × (is_settled e ≡ false)
            × (has_confirmed_legs e ≡ true)
            × (is_set v.kalshi ≡ true)
            × (is_set v.poly ≡ true)
            × ((venue_resolved v kalshi_venue e g).0 ≡ true)
            × ((venue_resolved v polymarket_venue e (venue_resolved v kalshi_venue e g).1).0 ≡ true)
            × (is_settled e' ≡ true))
  unfolding reconcile_settlement venue_resolved probe
  settles_only_resolved e g = ground arith

  -- Every execution of a list is in the state `P`.
  abbrev pub Every : (ExecutionRecord A → Type 0) → List (String × ExecutionRecord A) → Type 0
  Every P [] = Unit
  Every P ((id, e) ∷ rest) = P e × Every P rest

  -- The execution names its market on both venues.
  abbrev pub IsNamed : ExecutionRecord A → Type 0
  IsNamed e = (venue : Venue) → is_truthy (market_of v venue e) ≡ true

  settles_resolved :
      (e : ExecutionRecord A) (g : G)
      → ((venue : Venue) (market : String) (g' : G) → (probe v venue market g').0 ≡ true)
      → IsNamed e
      → has_confirmed_legs e ≡ true
      → is_settled (reconcile_settlement v e g).0.0 ≡ true
  unfolding reconcile_settlement venue_resolved
  settles_resolved e g resolved name confirmed = ground (
    arith,
    name kalshi_venue,
    name polymarket_venue,
    confirmed,
    resolved kalshi_venue (or_value (market_of v kalshi_venue e) "") g,
    resolved polymarket_venue (or_value (market_of v polymarket_venue e) "")
        (probe v kalshi_venue (or_value (market_of v kalshi_venue e) "") g).1,
  )

  has_confirmed_legs-reconcile_settlement :
      (e : ExecutionRecord A) (g : G)
      → has_confirmed_legs (reconcile_settlement v e g).0.0 ≡ has_confirmed_legs e
  unfolding reconcile_settlement
  has_confirmed_legs-reconcile_settlement e g = ground arith

  entries_settle :
      (entries : List (String × ExecutionRecord A)) (g : G)
      → ((venue : Venue) (market : String) (g' : G) → (probe v venue market g').0 ≡ true)
      → Every IsNamed entries
      → Every
          (λ e. has_confirmed_legs e ≡ true → is_settled e ≡ true)
          (reconcile_entries v settlement entries g).0.0
  unfolding reconcile_entries reconcile_one
  entries_settle [] g resolved names = tt
  entries_settle ((id, e) ∷ rest) g resolved (name, names) = (
    λ confirmed.
        settles_resolved e g resolved name
          (sym (has_confirmed_legs-reconcile_settlement e g) ∙ confirmed),
    entries_settle rest _ resolved names,
  )

  -- Once both venues have clients that report every market resolved, one pass of
  -- `reconcile_all` in the mode "settlement" over executions that are named on both venues leaves
  -- every one whose legs are both confirmed settled.
  pub reconcile_all_settles :
      (t : PnlTracker A) (g : G)
      → ((venue : Venue) (market : String) (g' : G) → (probe v venue market g').0 ≡ true)
      → Every IsNamed t.executions
      → Every
          (λ e. has_confirmed_legs e ≡ true → is_settled e ≡ true)
          (reconcile_all v settlement t g).0.0.executions
  unfolding reconcile_all
  reconcile_all_settles t g resolved names = entries_settle t.executions g resolved names
