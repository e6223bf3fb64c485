-- ===== src/Gateways/Doubt.antt =====
-- kalshi_arbitrage/execution/venue_gateway.py: an order on Polymarket whose POST may have landed.
use kalshi.Common.{
  ℕ, Bool, true, false, Option, some, String, ◌≡◌, refl, ap, sym, subst, ◌∙◌, ◌⊎◌, inl, inr, List,
  [], ◌∷◌, arith,
}
use kalshi.Float.{Float}
use kalshi.Config.{Config, Tif}
use kalshi.LiveLock.{assert_or_warn}
use kalshi.Order.{OrderRequest, Seed, is_done, ensure_client_order_id}
use kalshi.Engine.{returned, outcome_of}
use kalshi.Engine.Placements.{wants_retry}
use kalshi.Gateways.{Call, gave, threw, Net, Numbers, Timer, PollSettings, ask_lock}
use kalshi.Gateways.Polymarket.{
  PolyPost, PolymarketOrderClient, reconciled_outcome, ambiguous_failure, ambiguous_outcome,
  handle_poly_response, send_poly_order, place_poly,
}
use kalshi.Gateways.Steps.{
  in_doubt, handle-cases, send-cases, submit-cases, place-cases, handle_keeps,
}
use kalshi.Engine.{Gateway, World, AttemptClock, with_attempt, execute}
use kalshi.Engine.Placements.{execute_places_only}
use kalshi.KillSwitch.{Venue}
use kalshi.Gateways.Polymarket.{poly_gateway}
use kalshi.Gateways.Polymarket.Fills.{PolyResponse}

-- No order of the list, newest first, was in doubt.
unfoldable pub Settled : List Bool → Type 0
Settled [] = Unit
Settled (b ∷ bs) = (b ≡ false) × Settled bs

-- No order but the newest was in doubt.
unfoldable pub SettledBefore : List Bool → Type 0
SettledBefore [] = Unit
SettledBefore (b ∷ bs) = Settled bs

before-Settled : (bs : List Bool) → Settled bs → SettledBefore bs
unfolding Settled SettledBefore
before-Settled [] h = tt
before-Settled (b ∷ bs) (e, h) = h

again-Settled :
    (b r : Bool) (bs : List Bool)
    → (b ≡ true → r ≡ false)
    → Settled bs
    → r ≡ true
    → Settled (b ∷ bs)
unfolding Settled
again-Settled false r bs stops h again = (refl, h)
again-Settled true r bs stops h again = let stopped = stops refl in ground arith

-- Whether an answer to the POST, or an exception of it, leaves open that the order has landed.
abbrev pub is_doubtful : {A : Type 0} → Call (PolyResponse A) → Bool
is_doubtful (threw e) = false
is_doubtful (gave resp) = in_doubt resp

module _ {A V : Type 0} ⦃fl : Float A⦄ (cfg : Config A) (polling : PollSettings)
    (coid_of : Seed A → String) (numbers : Numbers A) (timer : Timer (Net V)) (wall : Net V → A)
    (client : PolymarketOrderClient A (Net V)) where
  -- The outcome in doubt is done, or forbids a retry.
  ambiguous_outcome-final :
      (req : OrderRequest A) (coid : Option String) (err : String) (g : Net V)
      → wants_retry req (
          returned
            (ambiguous_outcome cfg polling coid_of numbers timer wall client req coid err g).0)
        ≡ false
  unfolding ambiguous_outcome reconciled_outcome ambiguous_failure is_done outcome_of
  ambiguous_outcome-final req coid err g = ground arith

  doubt_is_final :
      (req : OrderRequest A) (t : Tif) (amount : Option A) (coid : Option String)
      (resp : PolyResponse A) (g : Net V)
      → in_doubt resp ≡ true
      → wants_retry req
          (handle_poly_response cfg polling coid_of numbers timer wall client req t amount coid resp
            g).0
        ≡ false
  doubt_is_final req t amount coid resp g u =
      elim (handle-cases cfg polling coid_of numbers timer wall client req t amount coid resp g) [
        | inl (v, (err, e, h)) ↦ ap (wants_retry req) e ∙ ambiguous_outcome-final req coid err g
        | inr (v, h) ↦ ground arith
      ]

  -- The orders posted, newest first, each with the doubt that its answer left.
  module _ (log : Net V → List Bool)
      (warns : (b : Bool) (g : Net V) → log (record g { warned = b }) ≡ log g)
      (posts : (post : PolyPost A) (g : Net V)
        → let (r, g') = client.place_order post g in log g' ≡ is_doubtful r ∷ log g)
      (gets : (i : String) (g : Net V) → log (client.get_order i g).1 ≡ log g)
      (trades : (g : Net V) → log (client.get_trades g).1 ≡ log g)
      (rates : (token : Option String) (g : Net V)
        → log (client.get_fee_rate_bps token g).1 ≡ log g)
      (sleeps : (d : ℕ) (g : Net V) → log (timer.sleep d g) ≡ log g) where
    log-handle :
        (req : OrderRequest A) (t : Tif) (amount : Option A) (coid : Option String)
        (resp : PolyResponse A) (g : Net V)
        → log
            (handle_poly_response cfg polling coid_of numbers timer wall client req t amount coid
              resp g).1
          ≡ log g
    log-handle req t amount coid resp g =
        handle_keeps cfg polling coid_of numbers timer wall client (λ h. log h ≡ log g)
          (λ i h e. gets i h ∙ e) (λ h e. trades h ∙ e) (λ i h e. rates i h ∙ e)
          (λ d h e. sleeps d h ∙ e) req t amount coid resp g refl

    log-send :
        (req : OrderRequest A) (t : Tif) (amount : Option A) (coid : Option String) (g : Net V)
        → let (p, g') =
            send_poly_order cfg polling coid_of numbers timer wall client req t amount coid g in
          (b : Bool) × (log g' ≡ b ∷ log g) × (b ≡ true → wants_retry req p ≡ false)
    log-send req t amount coid g =
        let (post, ends) =
          send-cases cfg polling coid_of numbers timer wall client req t amount coid g in
        let posted = posts post g in
        elim ends [
          | inl (e, h, k) ↦
              (false, ap log k ∙ posted ∙ ap (λ r. is_doubtful r ∷ log g) h, λ t. ground arith)
          | inr (resp, h, k) ↦ (
            in_doubt resp,
            ap (λ r. log r.1) k
                ∙ log-handle req t amount coid resp _
                ∙ posted
                ∙ ap (λ r. is_doubtful r ∷ log g) h,
            λ u. ap (λ r. wants_retry req r.0) k ∙ doubt_is_final req t amount coid resp _ u,
          )
        ]

    log-place :
        (req : OrderRequest A) (g : Net V)
        → let (p, g') = place_poly cfg polling coid_of numbers timer wall client req g in
          (log g' ≡ log g)
          ⊎ ((b : Bool) × (log g' ≡ b ∷ log g) × (b ≡ true → wants_retry req p ≡ false))
    unfolding ask_lock assert_or_warn
    log-place req g =
        let h = (ask_lock cfg g).1 in
        let same = warns (assert_or_warn cfg g.arm g.warned).1 g in
        elim (place-cases cfg polling coid_of numbers timer wall client req g) [
          | inl e ↦ inl (ap log e ∙ same)
          | inr (coid, e) ↦
              elim (submit-cases cfg polling coid_of numbers timer wall client req coid h) [
                | inl k ↦ inl (ap (λ r. log r.1) e ∙ ap log k ∙ same)
                | inr (t, amount, k) ↦
                    let (b, grown, stops) = log-send req t amount coid h in
                    inr (
                      b,
                      ap (λ r. log r.1) (e ∙ k) ∙ grown ∙ ap (λ bs. b ∷ bs) same,
                      λ u. ap (λ r. wants_retry req r.0) (e ∙ k) ∙ stops u,
                    )
              ]
        ]

    -- Once the answer to a POST on Polymarket leaves open whether the order has landed (an error
    -- that may have come after it was sent, or an answer without an order id), one call of
    -- `execute` posts nothing more, whatever the retries allow: of the orders posted none but the
    -- newest was in doubt, if none before the call was.
    pub execute_stops_in_doubt :
        (gateways : Venue → Option (Gateway A (Net V))) (clock : ℕ → AttemptClock A)
        (req : OrderRequest A) (stable_key : String) (w : World A (Net V))
        → gateways req.venue ≡ some (poly_gateway cfg polling coid_of numbers timer wall client)
        → Settled (log w.gates)
        → SettledBefore (log (execute cfg coid_of gateways clock req stable_key w).1.gates)
    unfolding poly_gateway SettledBefore
    execute_stops_in_doubt gateways clock req stable_key w known settled =
        execute_places_only cfg coid_of gateways clock (λ g. Settled (log g))
          (λ g. SettledBefore (log g)) (poly_gateway cfg polling coid_of numbers timer wall client)
          req stable_key w known
          (λ k g _ open_log good.
            elim (log-place (with_attempt k (ensure_client_order_id coid_of (stable_key ∷ []) req))
              g) [
                | inl e ↦ (subst SettledBefore (sym e) good, λ _. subst Settled (sym e) open_log)
                | inr (b, e, stops) ↦ (
                  subst SettledBefore (sym e) open_log,
                  λ again. subst Settled (sym e) (again-Settled b _ (log g) stops open_log again),
                )
              ])
          settled (before-Settled _ settled)
