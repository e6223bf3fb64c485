-- ===== src/Engine/Placements.antt =====
-- kalshi_arbitrage/execution/single_leg.py: which requests reach a gateway, and when one is repeated.
use kalshi.Common.{
  ℕ, zero, suc, ◌+◌, ◌≤◌, ◌≡◌, refl, ◌⊎◌, inl, inr, Bool, true, false, not, ◌&&◌, Option, some, [],
  ◌∷◌, String, arith, sym, ◌∙◌, subst,
}
use kalshi.Float.{Float}
use kalshi.Config.{Config}
use kalshi.KillSwitch.{Venue, circuit_open}
use kalshi.Order.{
  OrderRequest, OrderOutcome, Seed, is_done, failed_outcome, halted_outcome, ensure_client_order_id,
}
use kalshi.Engine.{
  Placement, Gateway, World, AttemptClock, came, refused, outcome_of, with_attempt, call_breaker,
  call_gateway, back_off, venue_breaker, try_place, trip_kill, attempts, execute_through, execute,
}

-- The outcome is one that the engine places again: neither done nor marked as not retryable.
abbrev pub wants_retry : {A : Type 0} ⦃fl : Float A⦄ → OrderRequest A → Placement A → Bool
wants_retry req p = not (is_done (outcome_of req p)) && (outcome_of req p).retryable

module _ {A G : Type 0} ⦃fl : Float A⦄ (cfg : Config A) (coid_of : Seed A → String)
    (gateways : Venue → Option (Gateway A G)) (clock : ℕ → AttemptClock A) where
  -- An attempt is refused and leaves the gateways alone, or makes one placement.
  pub try_place-cases :
      (n : ℕ) (gateway : Gateway A G) (req : OrderRequest A) (w : World A G)
      → let (a, w') = try_place cfg coid_of gateways clock n gateway req w in
        ((a ≡ refused) × (w'.gates ≡ w.gates) × (req.risk_reducing ≡ false))
        ⊎ ((a ≡ came (outcome_of req (gateway.place req w.gates).0))
            × (w'.gates ≡ (gateway.place req w.gates).1))
  unfolding try_place call_gateway call_breaker
  try_place-cases n gateway req w = ground arith

  pub gates-back_off :
      (n : ℕ) (w : World A G) → (back_off cfg coid_of gateways clock n w).gates ≡ w.gates
  unfolding back_off
  gates-back_off n w = ground arith

  pub gates-venue_breaker :
      (v : Venue) (w : World A G) → (venue_breaker cfg coid_of gateways clock v w).1.gates ≡ w.gates
  unfolding venue_breaker
  gates-venue_breaker v w = refl

  -- The world after the attempt number `n`, and the outcome that it counts.
  abbrev pub after_attempt : ℕ → Gateway A G → OrderRequest A → World A G → World A G
  after_attempt n gateway req w =
      (try_place cfg coid_of gateways clock n gateway (with_attempt n req) w).1

  abbrev pub counted_outcome : ℕ → Gateway A G → OrderRequest A → World A G → OrderOutcome A
  counted_outcome n gateway req w =
      record (outcome_of (with_attempt n req) (gateway.place (with_attempt n req) w.gates).0) {
        attempts = n + 1;
      }

  pub attempts-zero :
      (n : ℕ) (last : OrderOutcome A) (gateway : Gateway A G) (req : OrderRequest A) (w : World A G)
      → attempts cfg coid_of gateways clock 0 n last gateway req w ≡ (last, w)
  unfolding attempts
  attempts-zero n last gateway req w = refl

  -- One round: refused, or ended by the placement, or followed by the other rounds.
  pub attempts-cases :
      (rounds n : ℕ) (last : OrderOutcome A) (gateway : Gateway A G) (req : OrderRequest A)
      (w : World A G)
      → let (p, g') = gateway.place (with_attempt n req) w.gates in
        let w' = after_attempt n gateway req w in
        let o' = counted_outcome n gateway req w in
        let r = attempts cfg coid_of gateways clock (suc rounds) n last gateway req w in
        ((w'.gates ≡ w.gates)
          × (req.risk_reducing ≡ false)
          × (r ≡ (
            halted_outcome req.venue req.size,
            trip_kill ((clock n).at_trip) (circuit_open req.venue) w',
          )))
        ⊎ ((w'.gates ≡ g') × (wants_retry (with_attempt n req) p ≡ false) × (r ≡ (o', w')))
        ⊎ ((w'.gates ≡ g')
            × (wants_retry (with_attempt n req) p ≡ true)
            × (r
                ≡ attempts cfg coid_of gateways clock rounds
                    (n + 1)
                    o'
                    gateway
                    req
                    (back_off cfg coid_of gateways clock n w')))
  unfolding attempts is_done
  attempts-cases rounds n last gateway req w =
      elim (try_place-cases n gateway (with_attempt n req) w) [
        | inl (e, h, u) ↦ ground arith
        | inr (e, h) ↦ ground arith
      ]

  -- `Open` holds of the gateways as long as a placement is in order, `Good` is what is claimed.
  module _ (Open Good : G → Type 0) (gateway : Gateway A G) (req : OrderRequest A)
      (keep : (k : ℕ) (g : G)
        → k ≤ cfg.execution_max_retries
        → Open g
        → Good g
        → let (p, g') = gateway.place (with_attempt k req) g in
          Good g' × (wants_retry (with_attempt k req) p ≡ true → Open g')) where
    attempts-Good :
        (rounds n : ℕ) (last : OrderOutcome A) (w : World A G)
        → n + rounds ≤ suc cfg.execution_max_retries
        → Open w.gates
        → Good w.gates
        → Good (attempts cfg coid_of gateways clock rounds n last gateway req w).1.gates
    unfolding attempts trip_kill
    attempts-Good zero n last w m o g = g
    attempts-Good (suc rounds) n last w m o g =
        let (good, open_again) = keep n w.gates (omega arith) o g in
        elim (attempts-cases rounds n last gateway req w) [
          | inl (h, u, e) ↦ rw (e, trip_kill) (subst Good (sym h) g)
          | inr (inl (h, stop, e)) ↦ rw e (subst Good (sym h) good)
          | inr (inr (h, again, e)) ↦
              let w' = after_attempt n gateway req w in
              let same = gates-back_off n w' ∙ h in
              rw e (
                attempts-Good rounds (n + 1) (counted_outcome n gateway req w)
                  (back_off cfg coid_of gateways clock n w') (omega arith)
                  (subst Open (sym same) (open_again again)) (subst Good (sym same) good))
        ]

  pub execute-cases :
      (gateway : Gateway A G) (req : OrderRequest A) (stable_key : String) (w : World A G)
      → gateways req.venue ≡ some gateway
      → let req' = ensure_client_order_id coid_of (stable_key ∷ []) req in
        let r = execute cfg coid_of gateways clock req stable_key w in
        (r ≡ (halted_outcome req.venue req.size, w))
        ⊎ (r
            ≡ attempts cfg coid_of gateways clock
                (suc cfg.execution_max_retries)
                0
                (failed_outcome req.venue req.size "exhausted_retries" req'.client_order_id)
                gateway
                req'
                (venue_breaker cfg coid_of gateways clock req.venue w).1)
  unfolding execute execute_through
  execute-cases gateway req stable_key w e = ground arith

  -- Whatever order is executed, on a venue that has a gateway, only that gateway is called, and
  -- only with the request whose client order id was fixed once at the start: what differs between
  -- the calls is the attempt number in `meta`, which is at most the maximum of retries. And it is
  -- called again only after an outcome that is neither done nor marked as not retryable. So a
  -- property of the gateways that such calls keep holds after `execute`.
  pub execute_places_only :
      (Open Good : G → Type 0) (gateway : Gateway A G) (req : OrderRequest A) (stable_key : String)
      (w : World A G)
      → gateways req.venue ≡ some gateway
      → ((k : ℕ) (g : G)
          → k ≤ cfg.execution_max_retries
          → Open g
          → Good g
          → let req' = with_attempt k (ensure_client_order_id coid_of (stable_key ∷ []) req) in
            let (p, g') = gateway.place req' g in Good g' × (wants_retry req' p ≡ true → Open g'))
      → Open w.gates
      → Good w.gates
      → Good (execute cfg coid_of gateways clock req stable_key w).1.gates
  execute_places_only Open Good gateway req stable_key w known keep o g =
      elim (execute-cases gateway req stable_key w known) [
        | inl e ↦ rw e g
        | inr e ↦
            let same = gates-venue_breaker req.venue w in
            rw e (
              attempts-Good Open Good gateway (ensure_client_order_id coid_of (stable_key ∷ []) req)
                keep (suc cfg.execution_max_retries) 0 _
                (venue_breaker cfg coid_of gateways clock req.venue w).1 (omega arith)
                (subst Open (sym same) o) (subst Good (sym same) g))
      ]
