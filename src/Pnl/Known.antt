-- ===== src/Pnl/Known.antt =====
-- kalshi_arbitrage/confirmed_pnl.py: what a receipt returns.
use text.Mathlib.Text.{◌==◌ as str_eq}
use text.Mathlib.TextPositions.{eq_refl}
use kalshi.Common.{
  ◌≡◌, refl, ap, inl, inr, Bool, true, false, Option, some, List, [], ◌∷◌, ◌++◌, String, arith,
  Bool-cases,
}
use kalshi.Float.{Float}
use kalshi.KillSwitch.{Venue}
use kalshi.Pnl.{ExecutionRecord, Metadata, is_set}
use kalshi.Pnl.Tracker.{
  PnlTracker, Leg, buy_leg, sell_leg, is_supported, Result, ok, then_do, find, change, FillArgs,
  confirm, register_execution, mark_leg_confirmed, mark_settled, settle_with, append_fill, fill_of,
  book_fill, record_fill, id_or, or_value,
}
use kalshi.Pnl.Calls.{mark_settled-cases, record_fill-cases}
use kalshi.Pnl.Receipt.{
  FreshIds, ReceiptArgs, with_strategy, leg_fill, confirm_both, settle_receipt, after_sell,
  after_buy, after_register, registered, record_execution_receipt,
}

-- The call returns, and what it returns satisfies `P`.
abbrev pub Succeeds : {X : Type 0} → (X → Type 0) → Result X → Type 0
Succeeds {X} P r = (x : X) × (r ≡ ok x) × P x

pub Succeeds-then_do :
    {X Y : Type 0} (P : X → Type 0) (Q : Y → Type 0) (r : Result X) (f : X → Result Y)
    → Succeeds P r
    → ((x : X) → P x → Succeeds Q (f x))
    → Succeeds Q (then_do r f)
Succeeds-then_do P Q r f (x, e, p) next = rw e (next x p)

module _ {A : Type 0} where
  abbrev pub Knows : String → PnlTracker A → Type 0
  Knows id t = is_set (find id t.executions) ≡ true

  find-change :
      (id j : String) (f : ExecutionRecord A → ExecutionRecord A)
      (m : List (String × ExecutionRecord A))
      → is_set (find id m) ≡ true
      → is_set (find id (change j f m)) ≡ true
  unfolding find change
  find-change id j f [] h = h
  find-change id j f ((k, e) ∷ m) h = elim (Bool-cases (str_eq k j)) [
    | inl p ↦ rw p (ground arith)
    | inr p ↦ rw p (ground (arith, find-change id j f m))
  ]

  find-append :
      (id : String) (e : ExecutionRecord A) (m : List (String × ExecutionRecord A))
      → is_set (find id (m ++ (id, e) ∷ [])) ≡ true
  unfolding find
  find-append id e [] = ground (arith, eq_refl id)
  find-append id e ((k, e') ∷ m) = ground (arith, find-append id e m)

  register_execution-Knows :
      (now : A) (fresh opp : String) (bp sp : Option Venue) (given : Option String)
      (metadata : Metadata) (created : Option A) (t : PnlTracker A)
      → Knows
          (id_or given fresh)
          (register_execution now fresh opp bp sp given metadata created t).1
  unfolding register_execution
  register_execution-Knows now fresh opp bp sp given metadata created t =
      let id = id_or given fresh in
      elim (Bool-cases (is_set (find id t.executions))) [
        | inl e ↦ rw e (find-change id id _ t.executions e)
        | inr e ↦ rw e (find-append id _ t.executions)
      ]

  mark_leg_confirmed-Succeeds :
      (now : A) (id : String) (leg : Leg) (at : Option A) (t : PnlTracker A)
      → is_supported leg ≡ true
      → Knows id t
      → Succeeds (Knows id) (mark_leg_confirmed now id leg at t)
  unfolding mark_leg_confirmed
  mark_leg_confirmed-Succeeds now id leg at t s h =
      let f = confirm leg (or_value at now) in
      (
        record t { executions = change id f t.executions },
        ground arith,
        find-change id id f t.executions h,
      )

  mark_settled-Succeeds :
      (now : A) (fresh id : String) (settlement : Option String) (at : Option A) (need : Bool)
      (t : PnlTracker A)
      → Knows id t
      → Succeeds (λ p. Knows id p.1) (mark_settled now fresh id settlement at need t)
  unfolding mark_settled
  mark_settled-Succeeds now fresh id settlement at need t h =
      elim (mark_settled-cases now fresh id settlement at need t) [
        | inl (e, k, ready, r) ↦ (
          (
            true,
            record t { executions = change id (settle_with now fresh settlement at) t.executions },
          ),
          r,
          find-change id id _ t.executions h,
        )
        | inr (inl r) ↦ ((false, t), r, h)
        | inr (inr (e, r)) ↦ absurd (ground (arith, h))
      ]

module _ {A : Type 0} ⦃fl : Float A⦄ where
  book_fill-Succeeds :
      (now : A) (id : String) (leg : Leg) (fill_id : String) (a : FillArgs A) (t : PnlTracker A)
      → is_supported leg ≡ true
      → Knows id t
      → Succeeds (Knows id) (book_fill now id leg fill_id a t)
  unfolding book_fill
  book_fill-Succeeds now id leg fill_id a t s h =
      let f = fill_of now fill_id a in
      let t' : PnlTracker A = record t {
        executions = change id (append_fill leg f) t.executions;
        fill_ids = fill_id ∷ t.fill_ids;
      } in
      let known : Knows id t' = find-change id id (append_fill leg f) t.executions h in
      elim (Bool-cases a.auto_confirm) [
        | inl k ↦ rw k (mark_leg_confirmed-Succeeds now id leg (some f.timestamp) t' s known)
        | inr k ↦ rw k (t', refl, known)
      ]

  record_fill-Succeeds :
      (now : A) (fresh id : String) (leg : Leg) (a : FillArgs A) (t : PnlTracker A)
      → is_supported leg ≡ true
      → Knows id t
      → Succeeds (λ p. Knows id p.1) (record_fill now fresh id leg a t)
  record_fill-Succeeds now fresh id leg a t s h = elim (record_fill-cases now fresh id leg a t) [
    | inl (k, l, e) ↦ rw e (
        Succeeds-then_do (Knows id) (λ p. Knows id p.1) _ (λ t'. ok (true, t'))
          (book_fill-Succeeds now id leg (id_or a.fill_id fresh) a t s h)
          (λ t' h'. ((true, t'), refl, h')))
    | inr (inl e) ↦ ((false, t), e, h)
    | inr (inr (x, unfit, e)) ↦ absurd (ground (arith, s, h))
  ]

  confirm_both-Succeeds :
      (now : A) (id : String) (r : ReceiptArgs A) (t : PnlTracker A)
      → Knows id t
      → Succeeds (Knows id) (confirm_both now id r t)
  unfolding confirm_both
  confirm_both-Succeeds now id r t h = elim (Bool-cases r.mark_confirmed) [
    | inl k ↦ rw k (
        Succeeds-then_do (Knows id) (Knows id) _ (mark_leg_confirmed now id sell_leg r.timestamp)
          (mark_leg_confirmed-Succeeds now id buy_leg r.timestamp t refl h)
          (λ t' h'. mark_leg_confirmed-Succeeds now id sell_leg r.timestamp t' refl h'))
    | inr k ↦ rw k (t, refl, h)
  ]

  settle_receipt-Succeeds :
      (now : A) (fresh : FreshIds) (id : String) (r : ReceiptArgs A) (t : PnlTracker A)
      → Knows id t
      → Succeeds (Knows id) (settle_receipt now fresh id r t)
  unfolding settle_receipt
  settle_receipt-Succeeds now fresh id r t h = elim (Bool-cases r.settle) [
    | inl k ↦ rw k (
        Succeeds-then_do (λ p. Knows id p.1) (Knows id) _ (λ p. ok p.1)
          (mark_settled-Succeeds now fresh.settlement id r.settlement_id r.timestamp
            r.mark_confirmed t h)
          (λ p h'. (p.1, refl, h')))
    | inr k ↦ rw k (t, refl, h)
  ]

  after_buy-Succeeds :
      (now : A) (fresh : FreshIds) (id : String) (r : ReceiptArgs A) (t : PnlTracker A)
      → Knows id t
      → Succeeds (Knows id) (after_buy now fresh id r t)
  unfolding after_buy after_sell
  after_buy-Succeeds now fresh id r t h =
      Succeeds-then_do (λ p. Knows id p.1) (Knows id) _ (λ sold. after_sell now fresh id r sold.1)
        (record_fill-Succeeds now fresh.sell_fill id sell_leg (leg_fill r r.sell_platform r.sell) t
          refl h)
        (λ sold h₁.
          Succeeds-then_do (Knows id) (Knows id) _ (settle_receipt now fresh id r)
            (confirm_both-Succeeds now id r sold.1 h₁) (settle_receipt-Succeeds now fresh id r))

  -- A receipt never raises, whatever the tracker holds: it returns the id under which its execution
  -- is registered, and the tracker after it has that execution.
  pub receipt_returns :
      (now : A) (fresh : FreshIds) (r : ReceiptArgs A) (t : PnlTracker A)
      → let id = id_or r.execution_id fresh.execution in
        (t' : PnlTracker A) × (record_execution_receipt now fresh r t ≡ ok (id, t'))
        × (is_set (find id t'.executions) ≡ true)
  unfolding record_execution_receipt after_register registered
  receipt_returns now fresh r t =
      let id = id_or r.execution_id fresh.execution in
      let t₁ = (registered now fresh r t).1 in
      let known =
        register_execution-Knows now fresh.execution r.opportunity_id r.buy_platform r.sell_platform
          r.execution_id (with_strategy r.strategy_type r.metadata) r.timestamp t in
      let (t₂, e, h) =
        Succeeds-then_do (λ p. Knows id p.1) (Knows id) _ (λ p. after_buy now fresh id r p.1)
          (record_fill-Succeeds now fresh.buy_fill id buy_leg (leg_fill r r.buy_platform r.buy) t₁
            refl known)
          (λ p h₁. after_buy-Succeeds now fresh id r p.1 h₁) in
      (t₂, ap (λ q. then_do q (λ t''. ok (id, t''))) e, h)
