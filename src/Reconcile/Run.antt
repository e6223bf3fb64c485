-- ===== src/Reconcile/Run.antt =====
-- kalshi_arbitrage/reconcile.py: the Reconciler. `reconcile_all` changes the execution objects of the
-- tracker in place, each under its own id; here it maps over the dict's entries. `G` is the state
-- behind the venue clients; `none` as a reply is an exception, which `_safe` turns into `None`.
use text.Mathlib.Text.{◌==◌ as str_eq}
use kalshi.Common.{
  ℕ, ◌+◌, Bool, true, false, ◌&&◌, ◌||◌, not, Option, none, some, List, [], ◌∷◌, ◌++◌, String,
  is_truthy, if◌then◌else◌,
}
use kalshi.Float.{Float}
use kalshi.KillSwitch.{Venue, kalshi_venue, polymarket_venue}
use kalshi.Pnl.{FillRecord, ExecutionRecord, is_settled, has_confirmed_legs}
use kalshi.Pnl.Tracker.{PnlTracker, settle_with, or_value}
use kalshi.Reconcile.{KalshiFill, PolyTrade, or_id, apply_kalshi_fill, apply_poly_trade}

-- A client's fetch by order id, and its probe of a market's resolution if it has one.
pub record KalshiClient (A G : Type 0) : Type 0 where
  pub get_fills : String → G → Option (List (KalshiFill A)) × G
  pub is_resolved : Option (String → G → Option Bool × G)

pub record PolyClient (A G : Type 0) : Type 0 where
  pub get_trades : String → G → Option (List (PolyTrade A)) × G
  pub is_resolved : Option (String → G → Option Bool × G)

-- What the reconciler is made with: the clients, the public catalog's resolution statuses of a
-- market (its "umaResolutionStatus", case folded, for each market of the payload), the clock, and
-- the drawn settlement ids.
pub record Venues (A G : Type 0) : Type 0 where
  pub kalshi : Option (KalshiClient A G)
  pub poly : Option (PolyClient A G)
  pub gamma : String → G → Option (List String) × G
  pub now : A
  pub fresh : String → String

-- `_gamma_market_resolved`
abbrev pub gamma_market_resolved : List String → Bool
gamma_market_resolved [] = false
gamma_market_resolved (status ∷ rest) = str_eq status "resolved" || gamma_market_resolved rest

module _ {A G : Type 0} ⦃fl : Float A⦄ (v : Venues A G) where
  -- One fill, by its platform.
  unfoldable pub reconcile_fill : FillRecord A → G → (FillRecord A × Bool) × G
  unfolding apply_kalshi_fill apply_poly_trade
  reconcile_fill fr g = elim fr.platform [
    | none ↦ ((fr, false), g)
    | some kalshi_venue ↦ elim v.kalshi [
      | none ↦ ((fr, false), g)
      | some client ↦
          let (reply, g') = client.get_fills (or_value fr.order_id "") g in
          if is_truthy fr.order_id then (apply_kalshi_fill fr reply, g') else ((fr, false), g)
    ]
    | some polymarket_venue ↦ elim v.poly [
      | none ↦ ((fr, false), g)
      | some client ↦
          let (reply, g') = client.get_trades (or_value fr.order_id "") g in
          if is_truthy fr.order_id then (apply_poly_trade fr reply, g') else ((fr, false), g)
    ]
  ]

  unfoldable pub reconcile_list : List (FillRecord A) → G → (List (FillRecord A) × Bool) × G
  unfolding reconcile_fill
  reconcile_list [] g = (([], false), g)
  reconcile_list (f ∷ fs) g =
      let ((f', here), g₁) = reconcile_fill f g in
      let ((fs', there), g₂) = reconcile_list fs g₁ in ((f' ∷ fs', here || there), g₂)

  unfoldable pub reconcile_fills : ExecutionRecord A → G → (ExecutionRecord A × Bool) × G
  unfolding reconcile_list
  reconcile_fills e g =
      let ((buys, b), g₁) = reconcile_list e.buy_fills g in
      let ((sells, s), g₂) = reconcile_list e.sell_fills g₁ in
      ((record e { buy_fills = buys; sell_fills = sells }, b || s), g₂)

  -- The id under which a venue knows the execution's market.
  abbrev pub first_market : Venue → List (FillRecord A) → Option String
  first_market venue [] = none
  first_market kalshi_venue (f ∷ fs) = elim f.platform [
    | some kalshi_venue ↦ or_id f.market_id f.token_id
    | _ ↦ first_market kalshi_venue fs
  ]
  first_market polymarket_venue (f ∷ fs) = elim f.platform [
    | some polymarket_venue ↦ or_id f.market_id f.token_id
    | _ ↦ first_market polymarket_venue fs
  ]

  abbrev pub named : Option (Option String) → Option String
  named none = none
  named (some id) = id

  abbrev pub metadata_id : Venue → ExecutionRecord A → Option String
  metadata_id kalshi_venue e = named e.metadata.kalshi_ticker
  metadata_id polymarket_venue e = named e.metadata.polymarket_token

  unfoldable pub market_of : Venue → ExecutionRecord A → Option String
  market_of venue e =
      let given = metadata_id venue e in
      if is_truthy given then given else first_market venue (e.buy_fills ++ e.sell_fills)

  abbrev pub bool_of : Option Bool → Bool
  bool_of none = false
  bool_of (some b) = b

  unfoldable pub poly_resolved_via_gamma : String → G → Bool × G
  poly_resolved_via_gamma market g =
      let (reply, g') = v.gamma market g in
      (elim reply [ none ↦ false | some statuses ↦ gamma_market_resolved statuses ], g')

  -- The probe of a venue, for a market that has an id.
  unfoldable pub probe : Venue → String → G → Bool × G
  unfolding poly_resolved_via_gamma
  probe kalshi_venue market g = elim v.kalshi [
    | none ↦ (false, g)
    | some client ↦ elim client.is_resolved [
      | none ↦ (false, g)
      | some check ↦ let (reply, g') = check market g in (bool_of reply, g')
    ]
  ]
  probe polymarket_venue market g = elim v.poly [
    | none ↦ (false, g)
    | some client ↦ elim client.is_resolved [
      | none ↦ poly_resolved_via_gamma market g
      | some check ↦ let (reply, g') = check market g in (bool_of reply, g')
    ]
  ]

  unfoldable pub venue_resolved : Venue → ExecutionRecord A → G → Bool × G
  unfolding market_of probe
  venue_resolved venue e g =
      let market = market_of venue e in
      if is_truthy market then probe venue (or_value market "") g else (false, g)

  -- `mark_settled` of the tracker finds this object under its id.
  unfoldable pub reconcile_settlement : ExecutionRecord A → G → (ExecutionRecord A × Bool) × G
  unfolding venue_resolved
  reconcile_settlement e g =
      let (k_done, g₁) = venue_resolved kalshi_venue e g in
      let (p_done, g₂) = venue_resolved polymarket_venue e g₁ in
      let e' = settle_with v.now (v.fresh e.execution_id) none (some v.now) e in
      if is_settled e || not (has_confirmed_legs e)
      then ((e, false), g)
      else if k_done && p_done
      then ((e', true), g₂)
      else ((e, false), g₂)

-- The modes that fetch; "report" does not reconcile.
pub data Mode : Type 0 where
  fills settlement all : Mode

abbrev pub does_fills : Mode → Bool
does_fills settlement = false
does_fills _ = true

abbrev pub does_settlement : Mode → Bool
does_settlement fills = false
does_settlement _ = true

pub record Reconciled : Type 0 where
  pub fills_updated : ℕ
  pub settled : ℕ

abbrev pub one_if : Bool → ℕ
one_if true = 1
one_if false = 0

module _ {A G : Type 0} ⦃fl : Float A⦄ (v : Venues A G) (mode : Mode) where
  -- Both steps on one execution, each if the mode asks for it.
  unfoldable pub reconcile_one : ExecutionRecord A → G → (ExecutionRecord A × Reconciled) × G
  unfolding reconcile_fills reconcile_settlement
  reconcile_one e g =
      let ((e₁, updated), g₁) =
        if does_fills mode then reconcile_fills v e g else ((e, false), g) in
      let ((e₂, done), g₂) =
        if does_settlement mode then reconcile_settlement v e₁ g₁ else ((e₁, false), g₁) in
      ((e₂, record { fills_updated = one_if updated; settled = one_if done }), g₂)

  unfoldable pub reconcile_entries :
      List (String × ExecutionRecord A) → G → (List (String × ExecutionRecord A) × Reconciled) × G
  unfolding reconcile_one
  reconcile_entries [] g = (([], record { fills_updated = 0; settled = 0 }), g)
  reconcile_entries ((id, e) ∷ rest) g =
      let ((e', n), g₁) = reconcile_one e g in
      let ((rest', m), g₂) = reconcile_entries rest g₁ in
      (
        (
          (id, e') ∷ rest',
          record {
            fills_updated = n.fills_updated + m.fills_updated;
            settled = n.settled + m.settled;
          },
        ),
        g₂,
      )

  unfoldable pub reconcile_all : PnlTracker A → G → (PnlTracker A × Reconciled) × G
  unfolding reconcile_entries
  reconcile_all t g =
      let ((entries, n), g') = reconcile_entries t.executions g in
      ((record t { executions = entries }, n), g')
