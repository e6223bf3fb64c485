-- ===== src/Pnl/History.antt =====
-- kalshi_arbitrage/confirmed_pnl.py: histories of the tracker. A call that raises leaves the tracker
-- as it was.
use kalshi.Common.{inl, inr, Bool, Option, List, [], ◌∷◌, String, Bool-cases}
use kalshi.Float.{Float}
use kalshi.KillSwitch.{Venue}
use kalshi.Pnl.{Metadata}
use kalshi.Pnl.Tracker.{
  PnlTracker, TapeEvent, Leg, buy_leg, sell_leg, Result, ok, raised, FillArgs, register_execution,
  mark_leg_confirmed, mark_settled, record_fill,
}
use kalshi.Pnl.Receipt.{
  FreshIds, ReceiptArgs, with_strategy, leg_fill, confirm_both, settle_receipt, after_sell,
  after_buy, after_register, registered, record_execution_receipt,
}
use kalshi.Pnl.Tape.{ingest_trade_tape_event}
use kalshi.Pnl.FillIds.{
  Returns, Returns-then_do, IsSound, register_execution-IsSound, mark_leg_confirmed-IsSound,
  mark_settled-IsSound, record_fill-IsSound,
}

-- A call, with the clock and the drawn ids of that call.
pub data Call (A : Type 0) : Type 0 where
  registering :
      A
      → String
      → String
      → Option Venue
      → Option Venue
      → Option String
      → Metadata
      → Option A
      → Call A
  filling : A → String → String → Leg → FillArgs A → Call A
  confirming : A → String → Leg → Option A → Call A
  settling : A → String → String → Option String → Option A → Bool → Call A
  receiving : A → FreshIds → ReceiptArgs A → Call A
  hearing : TapeEvent A → Call A

module _ {A : Type 0} ⦃fl : Float A⦄ where
  abbrev pub after : {X : Type 0} → (X → PnlTracker A) → PnlTracker A → Result X → PnlTracker A
  after get t (ok x) = get x
  after get t (raised e) = t

  unfoldable pub step : Call A → PnlTracker A → PnlTracker A
  step (registering now fresh opp bp sp given metadata created) t =
      (register_execution now fresh opp bp sp given metadata created t).1
  step (filling now fresh id leg a) t = after (λ p. p.1) t (record_fill now fresh id leg a t)
  step (confirming now id leg at) t = after (λ t'. t') t (mark_leg_confirmed now id leg at t)
  step (settling now fresh id settlement at need) t =
      after (λ p. p.1) t (mark_settled now fresh id settlement at need t)
  step (receiving now fresh r) t = after (λ p. p.1) t (record_execution_receipt now fresh r t)
  step (hearing event) t = ingest_trade_tape_event event t

  unfoldable pub run : List (Call A) → PnlTracker A → PnlTracker A
  unfolding step
  run [] t = t
  run (c ∷ cs) t = run cs (step c t)

  after-IsSound :
      {X : Type 0} (get : X → PnlTracker A) (t : PnlTracker A) (r : Result X)
      → IsSound t
      → Returns (λ x. IsSound (get x)) r
      → IsSound (after get t r)
  after-IsSound get t (ok x) h p = p
  after-IsSound get t (raised e) h p = h

  confirm_both-IsSound :
      (now : A) (id : String) (r : ReceiptArgs A) (t : PnlTracker A)
      → IsSound t
      → Returns IsSound (confirm_both now id r t)
  unfolding confirm_both
  confirm_both-IsSound now id r t h = elim (Bool-cases r.mark_confirmed) [
    | inl k ↦ rw k (
        Returns-then_do IsSound IsSound _ _
          (mark_leg_confirmed-IsSound now id buy_leg r.timestamp t h)
          (mark_leg_confirmed-IsSound now id sell_leg r.timestamp))
    | inr k ↦ rw k h
  ]

  settle_receipt-IsSound :
      (now : A) (fresh : FreshIds) (id : String) (r : ReceiptArgs A) (t : PnlTracker A)
      → IsSound t
      → Returns IsSound (settle_receipt now fresh id r t)
  unfolding settle_receipt
  settle_receipt-IsSound now fresh id r t h = elim (Bool-cases r.settle) [
    | inl k ↦ rw k (
        Returns-then_do (λ p. IsSound p.1) IsSound _ _
          (mark_settled-IsSound now fresh.settlement id r.settlement_id r.timestamp r.mark_confirmed
            t h)
          (λ p h'. h'))
    | inr k ↦ rw k h
  ]

  after_buy-IsSound :
      (now : A) (fresh : FreshIds) (id : String) (r : ReceiptArgs A) (t : PnlTracker A)
      → IsSound t
      → Returns IsSound (after_buy now fresh id r t)
  unfolding after_buy after_sell
  after_buy-IsSound now fresh id r t h =
      Returns-then_do (λ p. IsSound p.1) IsSound _ (λ sold. after_sell now fresh id r sold.1)
        (record_fill-IsSound now fresh.sell_fill id sell_leg (leg_fill r r.sell_platform r.sell) t
          h)
        (λ sold h₁.
          Returns-then_do IsSound IsSound _ (settle_receipt now fresh id r)
            (confirm_both-IsSound now id r sold.1 h₁) (settle_receipt-IsSound now fresh id r))

  receipt-IsSound :
      (now : A) (fresh : FreshIds) (r : ReceiptArgs A) (t : PnlTracker A)
      → IsSound t
      → Returns (λ p. IsSound p.1) (record_execution_receipt now fresh r t)
  unfolding record_execution_receipt after_register registered
  receipt-IsSound now fresh r t h =
      let (id, t₁) = registered now fresh r t in
      let sound =
        register_execution-IsSound now fresh.execution r.opportunity_id r.buy_platform
          r.sell_platform r.execution_id (with_strategy r.strategy_type r.metadata) r.timestamp t
          h in
      let bought =
        record_fill-IsSound now fresh.buy_fill id buy_leg (leg_fill r r.buy_platform r.buy) t₁
          sound in
      Returns-then_do IsSound (λ (p : String × PnlTracker A). IsSound p.1) _ (λ t₂. ok (id, t₂))
        (Returns-then_do (λ p. IsSound p.1) IsSound _ (λ p. after_buy now fresh id r p.1) bought
          (λ p h₁. after_buy-IsSound now fresh id r p.1 h₁))
        (λ t₂ h₂. h₂)

  step-IsSound : (c : Call A) (t : PnlTracker A) → IsSound t → IsSound (step c t)
  unfolding step ingest_trade_tape_event
  step-IsSound (registering now fresh opp bp sp given metadata created) t h =
      register_execution-IsSound now fresh opp bp sp given metadata created t h
  step-IsSound (filling now fresh id leg a) t h =
      after-IsSound (λ p. p.1) t _ h (record_fill-IsSound now fresh id leg a t h)
  step-IsSound (confirming now id leg at) t h =
      after-IsSound (λ t'. t') t _ h (mark_leg_confirmed-IsSound now id leg at t h)
  step-IsSound (settling now fresh id settlement at need) t h =
      after-IsSound (λ p. p.1) t _ h (mark_settled-IsSound now fresh id settlement at need t h)
  step-IsSound (receiving now fresh r) t h =
      after-IsSound (λ p. p.1) t _ h (receipt-IsSound now fresh r t h)
  step-IsSound (hearing event) t h = h

  -- Through every sequence of calls a tracker whose books and whose set of fill ids agree keeps them
  -- in agreement: each id in the set is booked exactly once over all executions and both legs, and
  -- no other id is booked. So no fill id is ever booked twice, however often it is reported.
  pub run_books_once : (cs : List (Call A)) (t : PnlTracker A) → IsSound t → IsSound (run cs t)
  unfolding run
  run_books_once [] t h = h
  run_books_once (c ∷ cs) t h = run_books_once cs (step c t) (step-IsSound c t h)
