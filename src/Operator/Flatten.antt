-- ===== src/Operator/Flatten.antt =====
-- kalshi_arbitrage/execution/operator.py: what `flatten_all` guarantees.
use kalshi.Common.{
  ℕ, suc, ◌+◌, ◌≡◌, ◌⊎◌, ◌∙◌, refl, inl, inr, true, false, none, some, List, [], ◌∷◌, String, arith,
  ap, Option-cases,
}
use kalshi.Float.{Float}
use kalshi.Config.{Config}
use kalshi.KillSwitch.{Venue, kalshi_venue, polymarket_venue, given}
use kalshi.Order.{
  OrderRequest, Seed, buy, sell, halted_outcome, failed_outcome, ensure_client_order_id,
}
use kalshi.Engine.{Gateway, World, AttemptClock, trip_kill, execute}
use kalshi.Engine.Halts.{plain_attempts, execute-reducing}
use kalshi.Engine.Tripped.{trip_kill-tripped, execute-tripped, tripped-halts}
use kalshi.Operator.{
  Position, Entry, Account, entry_of, quantity, unwind_request, flatten_key, halt,
  flatten_positions, flatten_venue, flatten_venues, flatten_all, cancel_resting, positions_of,
}

module _ {A : Type 0} ⦃fl : Float A⦄ where
  open fl use {lt, is_zero, abs, decimal}

  -- An order that flattens a position is risk-reducing and on the position's venue, its size is the
  -- absolute quantity, which is not zero, and its side is against the quantity: a positive one is
  -- sold at 0.01, any other bought at 0.99.
  pub unwind_request_reduces :
      (v : Venue) (pos : Position A) (req : OrderRequest A)
      → unwind_request v pos ≡ some req
      → (req.risk_reducing ≡ true)
        × (req.venue ≡ v)
        × (req.size ≡ abs (quantity v pos))
        × (is_zero (quantity v pos) ≡ false)
        × (((lt (decimal 0 1) (quantity v pos) ≡ true)
              × (req.action ≡ sell)
              × (req.limit_price ≡ decimal 1 2))
            ⊎ ((lt (decimal 0 1) (quantity v pos) ≡ false)
                × (req.action ≡ buy)
                × (req.limit_price ≡ decimal 99 2)))
  unfolding unwind_request
  unwind_request_reduces kalshi_venue pos req e = ground arith
  unwind_request_reduces polymarket_venue pos req e = ground arith

module _ {A G : Type 0} ⦃fl : Float A⦄ (cfg : Config A) (coid_of : Seed A → String)
    (gateway_of : Venue → Gateway A G) (account_of : Venue → Account A G)
    (clock : Venue → ℕ → ℕ → AttemptClock A) where
  flatten_positions-tripped :
      (v : Venue) (i : ℕ) (held : List (Position A)) (w : World A G)
      → w.kill.tripped ≡ true
      → (flatten_positions cfg coid_of gateway_of account_of clock v i held w).1.kill.tripped ≡ true
  unfolding flatten_positions
  flatten_positions-tripped v i [] w h = h
  flatten_positions-tripped v i (pos ∷ rest) w h = elim (Option-cases (unwind_request v pos)) [
    | inl e ↦ rw (e, flatten_positions) (flatten_positions-tripped v (i + 1) rest w h)
    | inr (req, e) ↦
        rw (e, flatten_positions)
          (flatten_positions-tripped v (i + 1) rest _ (
            execute-tripped cfg coid_of (λ v'. some (gateway_of v')) (clock v i) req
              (flatten_key v req) w h))
  ]

  flatten_venues-tripped :
      (venues : List Venue) (w : World A G)
      → w.kill.tripped ≡ true
      → (flatten_venues cfg coid_of gateway_of account_of clock venues w).1.kill.tripped ≡ true
  unfolding flatten_venues flatten_venue
  flatten_venues-tripped [] w h = h
  flatten_venues-tripped (v ∷ vs) w h =
      flatten_venues-tripped vs _ (flatten_positions-tripped v 0 _ _ h)

  -- After `flatten_all` the desk is halted, whatever its unwinds did: any order that is not
  -- risk-reducing is refused and changes nothing.
  pub flatten_all_stays_halted :
      (t : A) (venues : List Venue) (w : World A G) (later : OrderRequest A) (key : String)
      (later_clock : ℕ → AttemptClock A)
      → later.risk_reducing ≡ false
      → let w' = (flatten_all cfg coid_of gateway_of account_of clock t venues w).1 in
        execute cfg coid_of (λ v. some (gateway_of v)) later_clock later key w'
        ≡ (halted_outcome later.venue later.size, w')
  unfolding flatten_all
  flatten_all_stays_halted t venues w later key later_clock opens =
      tripped-halts cfg coid_of (λ v. some (gateway_of v)) later_clock later key _
        (flatten_venues-tripped venues _ (trip_kill-tripped t (given "flatten_all") w)) opens

  -- Flattening with the gateways alone: no kill switch, no breakers, no clocks.
  pub plain_positions : Venue → List (Position A) → G → List (Entry A) × G
  plain_positions v [] g = ([], g)
  plain_positions v (pos ∷ rest) g = elim (unwind_request v pos) [
    | none ↦ plain_positions v rest g
    | some req ↦
        let req' = ensure_client_order_id coid_of (flatten_key v req ∷ []) req in
        let (o, g') =
          plain_attempts (suc cfg.execution_max_retries) 0
            (failed_outcome req.venue req.size "exhausted_retries" req'.client_order_id)
            (gateway_of req.venue) req' g in
        let (entries, g'') = plain_positions v rest g' in (entry_of pos o ∷ entries, g'')
  ]

  pub plain_flatten : List Venue → G → List (Venue × List (Entry A)) × G
  plain_flatten [] g = ([], g)
  plain_flatten (v ∷ vs) g =
      let (held, g₁) =
        positions_of cfg coid_of gateway_of account_of clock v
          (cancel_resting cfg coid_of gateway_of account_of clock v g) in
      let (entries, g₂) = plain_positions v held g₁ in
      let (report, g₃) = plain_flatten vs g₂ in ((v, entries) ∷ report, g₃)

  flatten_positions-plain :
      (v : Venue) (i : ℕ) (held : List (Position A)) (w : World A G)
      → let (entries, w') = flatten_positions cfg coid_of gateway_of account_of clock v i held w in
        (entries, w'.gates) ≡ plain_positions v held w.gates
  unfolding flatten_positions plain_positions
  flatten_positions-plain v i [] w = refl
  flatten_positions-plain v i (pos ∷ rest) w = elim (Option-cases (unwind_request v pos)) [
    | inl e ↦ rw (e, flatten_positions, plain_positions) (flatten_positions-plain v (i + 1) rest w)
    | inr (req, e) ↦
        let (reducing, _, _, _, _) = unwind_request_reduces v pos req e in
        let engine = λ (v' : Venue). some (gateway_of v') in
        let (o, w') = execute cfg coid_of engine (clock v i) req (flatten_key v req) w in
        let same =
          execute-reducing cfg coid_of engine (clock v i) (gateway_of req.venue) req
            (flatten_key v req) w refl reducing in
        let others = flatten_positions-plain v (i + 1) rest w' in
        rw (e, flatten_positions, plain_positions)
          (ap (λ r. (entry_of pos o ∷ r.0, r.1)) others
            ∙ ap (λ q. let r = plain_positions v rest q.1 in (entry_of pos q.0 ∷ r.0, r.1)) same)
  ]

  flatten_venues-plain :
      (venues : List Venue) (w : World A G)
      → let (report, w') = flatten_venues cfg coid_of gateway_of account_of clock venues w in
        (report, w'.gates) ≡ plain_flatten venues w.gates
  unfolding flatten_venues flatten_venue plain_flatten
  flatten_venues-plain [] w = refl
  flatten_venues-plain (v ∷ vs) w =
      let (held, g) =
        positions_of cfg coid_of gateway_of account_of clock v
          (cancel_resting cfg coid_of gateway_of account_of clock v w.gates) in
      let here = flatten_positions-plain v 0 held (record w { gates = g }) in
      let w' =
        (flatten_positions cfg coid_of gateway_of account_of clock v 0 held
          (record w { gates = g })).1 in
      let there = flatten_venues-plain vs w' in ground (arith, here, there)

  -- `flatten_all` unwinds every position as if there were no kill switch and no breaker: its report
  -- and what it does behind the gateways are those of the plain retry loop on each position, though
  -- it halts the desk first and whatever state the breakers are in.
  pub flatten_all-plain :
      (t : A) (venues : List Venue) (w : World A G)
      → let (report, w') = flatten_all cfg coid_of gateway_of account_of clock t venues w in
        (report, w'.gates) ≡ plain_flatten venues w.gates
  unfolding flatten_all trip_kill
  flatten_all-plain t venues w = flatten_venues-plain venues (halt t "flatten_all" w)
