-- ===== src/Gateways/Timeouts.antt =====
-- kalshi_arbitrage/execution/venue_gateway.py: what follows when the polling of an order runs out.
use kalshi.Common.{
  ℕ, suc, true, false, Option, none, some, String, ◌≡◌, refl, ap, sym, ◌∙◌, inl, inr, arith,
  Option-cases,
}
use kalshi.Common.Int.{ℤ, pos, leb_ℤ}
use kalshi.Float.{Float, FloatOrder}
use kalshi.Config.{Config}
use kalshi.Order.{OrderRequest, OrderOutcome, Seed, is_done}
use kalshi.Engine.{returned, outcome_of}
use kalshi.Engine.Placements.{wants_retry}
use kalshi.Books.Polymarket.{or_zero}
use kalshi.Gateways.{gave, Net, Numbers, Timer, PollSettings, placement_of}
use kalshi.Gateways.Poll.{backoff_poll}
use kalshi.Gateways.Kalshi.{
  KalshiOrder, KalshiOrderClient, price_or, report_outcome, outcome_from_order, poll_order,
  refreshed, note_timeout, unverified, after_timeout, follow,
}
use kalshi.Gateways.Outcomes.{Says}
use kalshi.Gateways.Outcomes.OfKalshi.{report_outcome-Says}

module _ {A V : Type 0} ⦃fl : Float A⦄ (cfg : Config A) (polling : PollSettings)
    (coid_of : Seed A → String) (numbers : Numbers A) (timer : Timer (Net V))
    (client : KalshiOrderClient A (Net V)) where
  open fl use {lt, le, decimal}

  follow-out :
      (req : OrderRequest A) (i : String) (coid : Option String) (g h : Net V)
      → backoff_poll timer polling.fill_poll_budget polling.fill_poll_base_interval
          polling.fill_poll_max_interval
          (poll_order cfg polling coid_of numbers timer client i)
          g
        ≡ (gave none, h)
      → follow cfg polling coid_of numbers timer client req i coid g
        ≡ after_timeout cfg polling coid_of numbers timer client req i coid h
  unfolding follow
  follow-out req i coid g h over =
      rw (ap (λ r. r.0) over, follow)
        (ap (λ r. after_timeout cfg polling coid_of numbers timer client req i coid r.1) over)

  after_timeout-hidden :
      (req : OrderRequest A) (i : String) (coid : Option String) (h : Net V)
      → refreshed cfg polling coid_of numbers timer client
          (client.get_order i (client.cancel_order i h).1).0
        ≡ none
      → after_timeout cfg polling coid_of numbers timer client req i coid h ≡ (
        returned (unverified cfg polling coid_of numbers timer client req i coid),
        (client.get_order i (client.cancel_order i h).1).1,
      )
  unfolding after_timeout
  after_timeout-hidden req i coid h hidden = rw (hidden, after_timeout) refl

  after_timeout-shown :
      (req : OrderRequest A) (i : String) (coid : Option String) (h : Net V) (o : KalshiOrder A)
      → refreshed cfg polling coid_of numbers timer client
          (client.get_order i (client.cancel_order i h).1).0
        ≡ some o
      → after_timeout cfg polling coid_of numbers timer client req i coid h ≡ (
        placement_of (
            note_timeout cfg polling coid_of numbers timer client
              (outcome_from_order cfg polling coid_of numbers timer client req o i coid)),
        (client.get_order i (client.cancel_order i h).1).1,
      )
  unfolding after_timeout
  after_timeout-shown req i coid h o shown = rw (shown, after_timeout) refl

  retried_not_done :
      (req : OrderRequest A) (o : OrderOutcome A)
      → wants_retry req
          (placement_of (note_timeout cfg polling coid_of numbers timer client (gave o)))
        ≡ true
      → is_done o ≡ false
  unfolding is_done outcome_of
  retried_not_done req o again = ground arith

  unverified_is_final :
      (req : OrderRequest A) (i : String) (coid : Option String)
      → wants_retry req (returned (unverified cfg polling coid_of numbers timer client req i coid))
        ≡ false
  unfolding unverified outcome_of
  unverified_is_final req i coid = ground arith

  outcome_from_order-readable :
      (req : OrderRequest A) (o : KalshiOrder A) (i : String) (coid : Option String)
      (size price : A) (count : ℤ)
      → or_zero o.count_filled ≡ some size
      → price_or req.limit_price o.average_fill_price ≡ some price
      → numbers.truncate req.size ≡ gave count
      → outcome_from_order cfg polling coid_of numbers timer client req o i coid
        ≡ gave
            (report_outcome cfg polling coid_of numbers timer client req o i coid size price count)
  unfolding outcome_from_order
  outcome_from_order-readable req o i coid size price count h k l =
      rw (h, k, l, outcome_from_order) refl

  pub timeout_retries_unfilled :
      (order : FloatOrder fl) (req : OrderRequest A) (i : String) (coid : Option String)
      (g h : Net V) (count : ℤ)
      → ((n : ℕ) → lt (decimal 0 1) (fl.of_nat (suc n)) ≡ true)
      → numbers.truncate req.size ≡ gave count
      → leb_ℤ count (pos 0) ≡ false
      → backoff_poll timer polling.fill_poll_budget polling.fill_poll_base_interval
          polling.fill_poll_max_interval
          (poll_order cfg polling coid_of numbers timer client i)
          g
        ≡ (gave none, h)
      → let (p, g') = follow cfg polling coid_of numbers timer client req i coid g in
        wants_retry req p ≡ true
        → let (r, h') = client.get_order i (client.cancel_order i h).1 in
          (g' ≡ h')
          × ((o : KalshiOrder A) × (refreshed cfg polling coid_of numbers timer client r ≡ some o)
              × ((size price : A)
                  → or_zero o.count_filled ≡ some size
                  → price_or req.limit_price o.average_fill_price ≡ some price
                  → lt (decimal 0 1) size ≡ false))
  unfolding Says report_outcome
  timeout_retries_unfilled order req i coid g h count positive truncated whole over again =
      let r = client.get_order i (client.cancel_order i h).1 in
      let e = follow-out req i coid g h over in
      elim (Option-cases (refreshed cfg polling coid_of numbers timer client r.0)) [
        | inl hidden ↦
            let k = e ∙ after_timeout-hidden req i coid h hidden in
            let final = unverified_is_final req i coid in
            let stops = ap (λ x. wants_retry req x.0) k in ground arith
        | inr (o, shown) ↦
            let k = e ∙ after_timeout-shown req i coid h o shown in
            (
              ap (λ x. x.1) k,
              (
                o,
                shown,
                λ size price readable priced.
                    let l =
                      outcome_from_order-readable req o i coid size price count readable priced
                        truncated in
                    let out =
                      report_outcome cfg polling coid_of numbers timer client req o i coid size
                        price count in
                    let says =
                      report_outcome-Says cfg polling coid_of numbers timer client order positive
                        req o i coid size price count whole in
                    let same =
                      ap (λ x. wants_retry req x.0) k
                      ∙ ap
                          (λ c. wants_retry req (
                            placement_of (note_timeout cfg polling coid_of numbers timer client c)))
                          l in
                    sym says.0 ∙ retried_not_done req out (sym same ∙ again),
              ),
            )
      ]
