-- ===== src/Engine/Attempts.antt =====
-- kalshi_arbitrage/execution/single_leg.py: how many placements one order makes, what the outcome
-- reports of them, and how long the engine waits between them.
use kalshi.Common.{
  ℕ, zero, suc, ◌+◌, ◌^◌, ◌≤◌, ◌<◌, ◌≡◌, refl, ◌⊎◌, inl, inr, Option, some, List, [], ◌∷◌, ◌++◌,
  String, arith, sym, ◌∙◌, ap,
}
use mathlib.Core.List.{append_assoc, append-nil}
use kalshi.Float.{Float}
use kalshi.Config.{Config}
use kalshi.KillSwitch.{Venue}
use kalshi.Order.{
  OrderRequest, OrderOutcome, Seed, halted_outcome, failed_outcome, ensure_client_order_id,
}
use kalshi.Engine.{
  Gateway, World, AttemptClock, with_attempt, back_off, venue_breaker, try_place, trip_kill,
  attempts, execute, call_breaker, call_gateway,
}
use kalshi.Engine.Placements.{
  attempts-zero, attempts-cases, execute-cases, gates-back_off, gates-venue_breaker, after_attempt,
  counted_outcome,
}

module _ {A : Type 0} ⦃fl : Float A⦄ where
  open fl use {mul, of_nat}

  -- The delays of `k` retries from the attempt number `n` on.
  pub delays : Config A → ℕ → ℕ → List A
  delays cfg n zero = []
  delays cfg n (suc k) = mul cfg.execution_retry_base_delay (of_nat (2 ^ n)) ∷ delays cfg (n + 1) k

module _ {A G : Type 0} ⦃fl : Float A⦄ (cfg : Config A) (coid_of : Seed A → String)
    (gateways : Venue → Option (Gateway A G)) (clock : ℕ → AttemptClock A) where
  open fl use {mul, of_nat}

  module _ (calls : G → ℕ) (gateway : Gateway A G)
      (counts : (req : OrderRequest A) (g : G) → calls (gateway.place req g).1 ≡ calls g + 1) where
    attempts-calls :
        (rounds n : ℕ) (last : OrderOutcome A) (req : OrderRequest A) (w : World A G)
        → last.attempts ≡ n
        → let (o, w') = attempts cfg coid_of gateways clock rounds n last gateway req w in
          (calls w'.gates ≤ calls w.gates + rounds)
          × ((o ≡ halted_outcome req.venue req.size)
              ⊎ (calls w'.gates + n ≡ calls w.gates + o.attempts))
    unfolding trip_kill
    attempts-calls zero n last req w e =
        rw (attempts-zero cfg coid_of gateways clock n last gateway req w)
          (omega arith, inr (omega arith))
    attempts-calls (suc rounds) n last req w e =
        let once = counts (with_attempt n req) w.gates in
        let w' = after_attempt cfg coid_of gateways clock n gateway req w in
        let ih =
          attempts-calls rounds (n + 1) (counted_outcome cfg coid_of gateways clock n gateway req w)
            req (back_off cfg coid_of gateways clock n w') refl in
        elim (attempts-cases cfg coid_of gateways clock rounds n last gateway req w) [
          | inl (h, u, r) ↦ rw (r, h) (omega arith, inl refl)
          | inr (inl (h, stop, r)) ↦ rw (r, h) (omega arith, inr (omega arith))
          | inr (inr (h, again, r)) ↦
              let same = gates-back_off cfg coid_of gateways clock n w' in ground arith
        ]

    -- An order on a venue whose gateway counts its placements causes at most one more than the
    -- maximum of retries, and the outcome's number of attempts is exactly the number of placements,
    -- unless the order was halted.
    pub execute-calls :
        (req : OrderRequest A) (stable_key : String) (w : World A G)
        → gateways req.venue ≡ some gateway
        → let (o, w') = execute cfg coid_of gateways clock req stable_key w in
          (calls w'.gates ≤ calls w.gates + (cfg.execution_max_retries + 1))
          × ((o ≡ halted_outcome req.venue req.size)
              ⊎ (calls w'.gates ≡ calls w.gates + o.attempts))
    unfolding ensure_client_order_id failed_outcome
    execute-calls req stable_key w known =
        let req' = ensure_client_order_id coid_of (stable_key ∷ []) req in
        let same = gates-venue_breaker cfg coid_of gateways clock req.venue w in
        let all =
          attempts-calls (suc cfg.execution_max_retries) 0
            (failed_outcome req.venue req.size "exhausted_retries" req'.client_order_id) req'
            (venue_breaker cfg coid_of gateways clock req.venue w).1 refl in
        elim (execute-cases cfg coid_of gateways clock gateway req stable_key w known) [
          | inl e ↦ rw e (omega arith, inl refl)
          | inr e ↦ ground arith
        ]

  slept-after_attempt :
      (n : ℕ) (gateway : Gateway A G) (req : OrderRequest A) (w : World A G)
      → (after_attempt cfg coid_of gateways clock n gateway req w).slept ≡ w.slept
  unfolding try_place call_breaker call_gateway
  slept-after_attempt n gateway req w = ground arith

  slept-venue_breaker :
      (v : Venue) (w : World A G) → (venue_breaker cfg coid_of gateways clock v w).1.slept ≡ w.slept
  unfolding venue_breaker
  slept-venue_breaker v w = refl

  slept-back_off :
      (n : ℕ) (w : World A G)
      → n < cfg.execution_max_retries
      → (back_off cfg coid_of gateways clock n w).slept
        ≡ w.slept ++ mul cfg.execution_retry_base_delay (of_nat (2 ^ n)) ∷ []
  unfolding back_off
  slept-back_off n w h = ground arith

  slept-back_off_last :
      (n : ℕ) (w : World A G)
      → n ≡ cfg.execution_max_retries
      → (back_off cfg coid_of gateways clock n w).slept ≡ w.slept
  unfolding back_off
  slept-back_off_last n w h = ground arith

  -- The delays slept in a loop of `suc rounds` rounds, by the outcome's number of attempts.
  abbrev Backs : ℕ → ℕ → OrderRequest A → List A → OrderOutcome A × World A G → Type 0
  Backs rounds n req before (o, w') =
      (k : ℕ) × (k ≤ rounds)
      × (w'.slept ≡ before ++ delays cfg n k)
      × ((o ≡ halted_outcome req.venue req.size) ⊎ (k + n + 1 ≡ o.attempts))

  attempts-slept :
      (rounds n : ℕ) (last : OrderOutcome A) (gateway : Gateway A G) (req : OrderRequest A)
      (w : World A G)
      → n + rounds ≡ cfg.execution_max_retries
      → Backs rounds n req w.slept
          (attempts cfg coid_of gateways clock (suc rounds) n last gateway req w)
  unfolding delays trip_kill
  attempts-slept zero n last gateway req w m =
      let w' = after_attempt cfg coid_of gateways clock n gateway req w in
      let o' = counted_outcome cfg coid_of gateways clock n gateway req w in
      let kept = slept-after_attempt n gateway req w ∙ sym (append-nil w.slept) in
      elim (attempts-cases cfg coid_of gateways clock 0 n last gateway req w) [
        | inl (h, u, r) ↦ rw r (0, omega arith, kept, inl refl)
        | inr (inl (h, stop, r)) ↦ rw r (0, omega arith, kept, inr (omega arith))
        | inr (inr (h, again, r)) ↦
            rw (r, attempts-zero cfg coid_of gateways clock (n + 1) o' gateway req)
              (0, omega arith, slept-back_off_last n w' (omega arith) ∙ kept, inr (omega arith))
      ]
  attempts-slept (suc rounds) n last gateway req w m =
      let w' = after_attempt cfg coid_of gateways clock n gateway req w in
      let o' = counted_outcome cfg coid_of gateways clock n gateway req w in
      let kept = slept-after_attempt n gateway req w ∙ sym (append-nil w.slept) in
      let w'' = back_off cfg coid_of gateways clock n w' in
      elim (attempts-cases cfg coid_of gateways clock (suc rounds) n last gateway req w) [
        | inl (h, u, r) ↦ rw r (0, omega arith, kept, inl refl)
        | inr (inl (h, stop, r)) ↦ rw r (0, omega arith, kept, inr (omega arith))
        | inr (inr (h, again, r)) ↦
            let (k, small, all, end) =
              attempts-slept rounds (n + 1) o' gateway req w'' (omega arith) in
            let delay = mul cfg.execution_retry_base_delay (of_nat (2 ^ n)) in
            let waited =
              slept-back_off n w' (omega arith)
              ∙ ap (λ l. l ++ delay ∷ []) (slept-after_attempt n gateway req w) in
            rw r (
              suc k,
              omega arith,
              all
                  ∙ ap (λ l. l ++ delays cfg (n + 1) k) waited
                  ∙ append_assoc w.slept (delay ∷ []) _,
              elim end [ inl e ↦ inl e | inr e ↦ inr (omega arith) ],
            )
      ]

  -- The engine sleeps between placements only, for the base delay doubled each time: after `k + 1`
  -- attempts it has slept the base delay times 1, 2, ..., 2 ^ (k - 1), in this order. An order that
  -- was halted has slept the delays of some number of retries, up to the maximum.
  pub execute_backs_off :
      (gateway : Gateway A G) (req : OrderRequest A) (stable_key : String) (w : World A G)
      → gateways req.venue ≡ some gateway
      → let (o, w') = execute cfg coid_of gateways clock req stable_key w in
        (k : ℕ) × (k ≤ cfg.execution_max_retries)
        × (w'.slept ≡ w.slept ++ delays cfg 0 k)
        × ((o ≡ halted_outcome req.venue req.size) ⊎ (o.attempts ≡ k + 1))
  unfolding ensure_client_order_id delays
  execute_backs_off gateway req stable_key w known =
      let req' = ensure_client_order_id coid_of (stable_key ∷ []) req in
      let (k, small, all, end) =
        attempts-slept cfg.execution_max_retries 0
          (failed_outcome req.venue req.size "exhausted_retries" req'.client_order_id) gateway req'
          (venue_breaker cfg coid_of gateways clock req.venue w).1 (omega arith) in
      elim (execute-cases cfg coid_of gateways clock gateway req stable_key w known) [
        | inl e ↦ rw e (0, omega arith, sym (append-nil w.slept), inl refl)
        | inr e ↦ rw e (
          k,
          small,
          all ∙ ap (λ l. l ++ delays cfg 0 k) (slept-venue_breaker req.venue w),
          ground arith,
        )
      ]
