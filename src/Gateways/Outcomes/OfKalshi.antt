-- ===== src/Gateways/Outcomes/OfKalshi.antt =====
-- kalshi_arbitrage/execution/venue_gateway.py: what the outcomes of KalshiGateway say.
use kalshi.Common.{
  ℕ, zero, suc, true, false, Option, String, ◌≡◌, refl, sym, ◌∙◌, inl, inr, [], arith, Bool-cases,
  Option-cases,
}
use kalshi.Common.Int.{ℤ, pos, negsuc, leb_ℤ}
use kalshi.Float.{Float, FloatOrder}
use kalshi.Config.{Config}
use kalshi.KillSwitch.{kalshi_venue}
use kalshi.Order.{OrderRequest, OrderOutcome, Seed, is_done, ensure_client_order_id}
use kalshi.Books.Polymarket.{or_zero}
use kalshi.Gateways.{
  Call, gave, threw, Call-cases, text_or_empty, placement_of, Net, Numbers, Timer, PollSettings,
  ask_lock,
}
use kalshi.Gateways.Poll.{backoff_poll}
use kalshi.Gateways.Kalshi.{
  KalshiOrder, KalshiResponse, KalshiPost, KalshiOrderClient, of_int, price_or, order_or_empty,
  is_executed, report_outcome, outcome_from_order, poll_order, refreshed, note_timeout, unverified,
  after_timeout, follow, handle_response, post_of, post_order, submit, place_kalshi,
}
use kalshi.Gateways.Outcomes.{Says, Tells, lt_irrefl-zero, failed_for-Says}

module _ {A V : Type 0} ⦃fl : Float A⦄ (cfg : Config A) (polling : PollSettings)
    (coid_of : Seed A → String) (numbers : Numbers A) (timer : Timer (Net V))
    (client : KalshiOrderClient A (Net V)) (order : FloatOrder fl)
    (positive : (n : ℕ) → fl.lt (fl.decimal 0 1) (fl.of_nat (suc n)) ≡ true) where
  open fl use {lt, le, decimal}

  pub report_outcome-Says :
      (req : OrderRequest A) (o : KalshiOrder A) (i : String) (coid : Option String)
      (size price : A) (count : ℤ)
      → leb_ℤ count (pos 0) ≡ false
      → Says req.size coid
          (report_outcome cfg polling coid_of numbers timer client req o i coid size price count)
  unfolding Says report_outcome is_done
  report_outcome-Says req o i coid size price (pos (suc n)) h =
      let over = order.lt_of_lt_of_le (decimal 0 1) (of_int (pos (suc n))) size (positive n) in
      elim (Bool-cases (le (of_int (pos (suc n))) size)) [
        | inl k ↦ let more = over k in (ground arith, refl, refl)
        | inr k ↦ (ground arith, refl, refl)
      ]
  report_outcome-Says req o i coid size price (pos zero) h = ground arith
  report_outcome-Says req o i coid size price (negsuc n) h = ground arith

  module _ (req : OrderRequest A) (coid : Option String)
      (whole : (count : ℤ)
        → numbers.truncate req.size ≡ gave count
        → leb_ℤ count (pos 0) ≡ false) where
    outcome_from_order-Tells :
        (o : KalshiOrder A) (i : String)
        → Tells req.size coid (
            placement_of (outcome_from_order cfg polling coid_of numbers timer client req o i coid))
    unfolding outcome_from_order Tells
    outcome_from_order-Tells o i = elim (Option-cases (or_zero o.count_filled)) [
      | inl h ↦ rw (h, outcome_from_order) tt
      | inr (size, h) ↦ elim (Option-cases (price_or req.limit_price o.average_fill_price)) [
        | inl k ↦ rw (h, k, outcome_from_order) tt
        | inr (price, k) ↦ elim (Call-cases (numbers.truncate req.size)) [
          | inl (e, l) ↦ rw (h, k, l, outcome_from_order) tt
          | inr (count, l) ↦
              rw (h, k, l, outcome_from_order)
                (report_outcome-Says req o i coid size price count (whole count l))
        ]
      ]
    ]

    note_timeout-Tells :
        (c : Call (OrderOutcome A))
        → Tells req.size coid (placement_of c)
        → Tells req.size coid
            (placement_of (note_timeout cfg polling coid_of numbers timer client c))
    unfolding Tells Says is_done
    note_timeout-Tells (threw e) h = tt
    note_timeout-Tells (gave o) h = ground arith

    unverified-Says :
        (i : String)
        → Says req.size coid (unverified cfg polling coid_of numbers timer client req i coid)
    unfolding Says unverified is_done
    unverified-Says i = (sym (lt_irrefl-zero order), refl, refl)

    after_timeout-Tells :
        (i : String) (g : Net V)
        → Tells req.size coid
            (after_timeout cfg polling coid_of numbers timer client req i coid g).0
    unfolding after_timeout Tells
    after_timeout-Tells i g =
        elim (Option-cases (
          refreshed cfg polling coid_of numbers timer client
            (client.get_order i (client.cancel_order i g).1).0)) [
              | inl h ↦ rw (h, after_timeout) (unverified-Says i)
              | inr (o, h) ↦
                  rw (h, after_timeout) (note_timeout-Tells _ (outcome_from_order-Tells o i))
            ]

    follow-Tells :
        (i : String) (g : Net V)
        → Tells req.size coid (follow cfg polling coid_of numbers timer client req i coid g).0
    unfolding follow Tells
    follow-Tells i g =
        let polled =
          backoff_poll timer polling.fill_poll_budget polling.fill_poll_base_interval
            polling.fill_poll_max_interval (poll_order cfg polling coid_of numbers timer client i)
            g in
        elim (Call-cases polled.0) [
          | inl (e, h) ↦ rw (h, follow) tt
          | inr (final, h) ↦ elim (Option-cases final) [
            | inl k ↦ rw (h, k, follow) (after_timeout-Tells i polled.1)
            | inr (o, k) ↦ rw (h, k, follow) (outcome_from_order-Tells o i)
          ]
        ]

    handle_response-Tells :
        (resp : KalshiResponse A) (g : Net V)
        → Tells req.size coid
            (handle_response cfg polling coid_of numbers timer client req coid resp g).0
    unfolding handle_response Tells
    handle_response-Tells resp g =
        let o = order_or_empty resp in
        let i = text_or_empty o.order_id in
        elim (Option-cases resp.error) [
          | inr (e, h) ↦
              rw (h, handle_response) (failed_for-Says order kalshi_venue req.size _ coid)
          | inl h ↦ elim (Bool-cases (is_executed o.status)) [
            | inl k ↦ rw (h, k, handle_response) (outcome_from_order-Tells o i)
            | inr k ↦ rw (h, k, handle_response) (follow-Tells i g)
          ]
        ]

    post_order-Tells :
        (post : KalshiPost) (g : Net V)
        → Tells req.size coid
            (post_order cfg polling coid_of numbers timer client req coid post g).0
    unfolding post_order Tells
    post_order-Tells post g = elim (Call-cases (client.place_order post g).0) [
      | inl (e, h) ↦ rw (h, post_order) tt
      | inr (resp, h) ↦
          rw (h, post_order) (handle_response-Tells resp (client.place_order post g).1)
    ]

  submit-Tells :
      (req : OrderRequest A) (coid : Option String) (g : Net V)
      → Tells req.size coid (submit cfg polling coid_of numbers timer client req coid g).0
  unfolding submit Tells
  submit-Tells req coid g = elim (Call-cases (numbers.truncate req.size)) [
    | inl (e, h) ↦ rw (h, submit) tt
    | inr (count, h) ↦ elim (Bool-cases (leb_ℤ count (pos 0))) [
      | inl k ↦ rw (h, k, submit) (failed_for-Says order kalshi_venue req.size _ coid)
      | inr k ↦ elim (Call-cases (numbers.to_cents req.limit_price)) [
        | inl (e, l) ↦ rw (h, k, l, submit) tt
        | inr (cents, l) ↦
            rw (h, k, l, submit)
              (post_order-Tells req coid (λ c e. let same = sym h ∙ e in ground arith)
                (post_of cfg polling coid_of numbers timer client req coid count cents) g)
      ]
    ]
  ]

  pub place_kalshi-Tells :
      (req : OrderRequest A) (g : Net V)
      → let coid = (ensure_client_order_id coid_of [] req).client_order_id in
        Tells req.size coid (place_kalshi cfg polling coid_of numbers timer client req g).0
  unfolding place_kalshi Tells
  place_kalshi-Tells req g =
      let coid = (ensure_client_order_id coid_of [] req).client_order_id in
      elim (Bool-cases (ask_lock cfg g).0.0) [
        | inl h ↦ rw (h, place_kalshi) (submit-Tells req coid (ask_lock cfg g).1)
        | inr h ↦ rw (h, place_kalshi) (failed_for-Says order kalshi_venue req.size _ coid)
      ]
