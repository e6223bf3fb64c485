-- ===== src/Pnl/Partition.antt =====
-- kalshi_arbitrage/confirmed_pnl.py: how the counts of `summarize` relate.
use kalshi.Common.{
  ◌+◌, ◌≤◌, ◌≡◌, Bool, true, false, not, Option, none, List, [], ◌∷◌, arith, length-filter, filter,
  length,
}
use kalshi.Float.{Float}
use kalshi.Pnl.{ExecutionRecord, is_settled}
use kalshi.Pnl.Tracker.{PnlTracker}
use kalshi.Pnl.Totals.{values, is_counted_execution, is_locked_execution, summarize}

module _ {X : Type 0} where
  -- A weaker test keeps no fewer items.
  filter_mono :
      (p q : X → Bool) (xs : List X)
      → ((x : X) → p x ≡ true → q x ≡ true)
      → length (filter p xs) ≤ length (filter q xs)
  filter_mono p q [] h = omega arith
  filter_mono p q (x ∷ xs) h = ground (arith, filter_mono p q xs h, h x)

  -- Two tests that exclude each other.
  filter_disjoint :
      (p q : X → Bool) (xs : List X)
      → ((x : X) → p x ≡ true → q x ≡ false)
      → length (filter p xs) + length (filter q xs) ≤ length xs
  filter_disjoint p q [] h = omega arith
  filter_disjoint p q (x ∷ xs) h = ground (arith, filter_disjoint p q xs h, h x)

module _ {A : Type 0} ⦃fl : Float A⦄ where
  locked-pending :
      (allow : Bool) (e : ExecutionRecord A)
      → is_locked_execution allow e ≡ true
      → not (is_settled e) ≡ true
  unfolding is_locked_execution
  locked-pending allow e h = ground arith

  counted-settled :
      (allow : Bool) (since : Option A) (e : ExecutionRecord A)
      → is_counted_execution allow since e ≡ true
      → not (is_settled e) ≡ false
  unfolding is_counted_execution
  counted-settled allow since e h = ground arith

  counted-none :
      (allow : Bool) (since : Option A) (e : ExecutionRecord A)
      → is_counted_execution allow since e ≡ true
      → is_counted_execution allow none e ≡ true
  unfolding is_counted_execution
  counted-none allow since e h = ground arith

  -- No execution is counted both as settled and as pending, every locked-in execution is pending, a
  -- window counts no more than all time, and no more of the window is profitable than it counts.
  pub summarize_partitions :
      (interval : A) (since : Option A) (t : PnlTracker A)
      → let s = summarize interval since t in
        (s.cumulative_settled_execution_count + s.pending_execution_count
          ≤ length (values t.executions))
        × (s.locked_in_execution_count ≤ s.pending_execution_count)
        × (s.settled_execution_count ≤ s.cumulative_settled_execution_count)
        × (s.realized_pnl_opportunity_count ≤ s.settled_execution_count)
  unfolding summarize
  summarize_partitions interval since t =
      let allow = t.allow_simulated_confirmed in
      let all = values t.executions in
      (
        filter_disjoint _ _ all (counted-settled allow none),
        filter_mono _ _ all (locked-pending allow),
        filter_mono _ _ all (counted-none allow since),
        length-filter _ (filter (is_counted_execution allow since) all),
      )
