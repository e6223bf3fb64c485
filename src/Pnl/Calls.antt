-- ===== src/Pnl/Calls.antt =====
-- kalshi_arbitrage/confirmed_pnl.py: the branches of the tracker's calls, as equations.
use kalshi.Common.{
  contains, ◌≡◌, ◌⊎◌, refl, inl, inr, Bool, true, false, not, ◌&&◌, Option, some, String, arith,
  Option-cases, Bool-cases,
}
use kalshi.Float.{Float}
use kalshi.Pnl.{ExecutionRecord, is_set, has_confirmed_legs}
use kalshi.Pnl.Tracker.{
  PnlTracker, PnlError, unknown_execution, settle_with, Leg, is_supported, ok, raised, then_do,
  find, change, FillArgs, confirm, mark_leg_confirmed, mark_settled, book_fill, record_fill, id_or,
  or_value,
}

module _ {A : Type 0} where
  pub mark_leg_confirmed-cases :
      (now : A) (id : String) (leg : Leg) (at : Option A) (t : PnlTracker A)
      → ((is_set (find id t.executions) ≡ true)
          × (mark_leg_confirmed now id leg at t
              ≡ ok (record t {
                executions = change id (confirm leg (or_value at now)) t.executions;
              })))
        ⊎ ((e : PnlError) × (mark_leg_confirmed now id leg at t ≡ raised e))
  unfolding mark_leg_confirmed
  mark_leg_confirmed-cases now id leg at t = ground arith

  pub mark_settled-cases :
      (now : A) (fresh id : String) (settlement_id : Option String) (at : Option A) (need : Bool)
      (t : PnlTracker A)
      → ((e : ExecutionRecord A) × (find id t.executions ≡ some e)
          × (need && not (has_confirmed_legs e) ≡ false)
          × (mark_settled now fresh id settlement_id at need t
              ≡ ok (
                true,
                record t {
                  executions = change id (settle_with now fresh settlement_id at) t.executions;
                },
              )))
        ⊎ (mark_settled now fresh id settlement_id at need t ≡ ok (false, t))
        ⊎ ((e : PnlError) × (mark_settled now fresh id settlement_id at need t ≡ raised e))
  unfolding mark_settled
  mark_settled-cases now fresh id settlement_id at need t =
      elim (Option-cases (find id t.executions)) [
        | inl e ↦ inr (inr (unknown_execution, rw (e, mark_settled) refl))
        | inr (x, e) ↦ elim (Bool-cases (need && not (has_confirmed_legs x))) [
          | inl k ↦ inr (inl (rw (e, mark_settled, k) refl))
          | inr k ↦ inl (x, e, k, rw (e, mark_settled, k) refl)
        ]
      ]

module _ {A : Type 0} ⦃fl : Float A⦄ where
  pub record_fill-cases :
      (now : A) (fresh id : String) (leg : Leg) (a : FillArgs A) (t : PnlTracker A)
      → let fill_id = id_or a.fill_id fresh in
        let r = record_fill now fresh id leg a t in
        ((is_set (find id t.executions) ≡ true)
          × (contains fill_id t.fill_ids ≡ false)
          × (r ≡ then_do (book_fill now id leg fill_id a t) (λ t'. ok (true, t'))))
        ⊎ (r ≡ ok (false, t))
        ⊎ ((e : PnlError) × (is_set (find id t.executions) && is_supported leg ≡ false)
            × (r ≡ raised e))
  unfolding record_fill
  record_fill-cases now fresh id leg a t = ground arith
