-- ===== src/Pnl/FillIds.antt =====
-- kalshi_arbitrage/confirmed_pnl.py: how often a fill id is booked, and what each call does to that.
use text.Mathlib.Text.{◌==◌ as str_eq}
use text.Mathlib.TextEquality.{eq_iff}
use kalshi.Common.{
  contains, ℕ, ◌+◌, ◌≤◌, ◌≡◌, ◌∙◌, refl, inl, inr, Bool, true, false, Option, some, List, [], ◌∷◌,
  ◌++◌, String, arith, if◌then◌else◌, Bool-cases,
}
use kalshi.Float.{Float}
use kalshi.KillSwitch.{Venue}
use kalshi.Pnl.{FillRecord, ExecutionRecord, Metadata, is_set}
use kalshi.Pnl.Tracker.{
  PnlTracker, Leg, buy_leg, sell_leg, other_leg, Result, ok, raised, then_do, find, change,
  FillArgs, append_fill, confirm, register_execution, mark_leg_confirmed, mark_settled, book_fill,
  record_fill, fill_of, id_or,
}
use kalshi.Pnl.Calls.{mark_leg_confirmed-cases, mark_settled-cases, record_fill-cases}

abbrev pub hit : String → String → ℕ
hit i j = if str_eq j i then 1 else 0

abbrev pub count : String → List String → ℕ
count i [] = 0
count i (j ∷ js) = hit i j + count i js

-- What holds of the tracker that a call returns, if it returns.
abbrev pub Returns : {X : Type 0} → (X → Type 0) → Result X → Type 0
Returns P (ok x) = P x
Returns P (raised e) = Unit

count-contains : (i : String) (js : List String) → contains i js ≡ false → count i js ≡ 0
count-contains i [] h = refl
count-contains i (j ∷ js) h = ground (arith, count-contains i js)

-- A chain of calls.
pub Returns-then_do :
    {X Y : Type 0} (P : X → Type 0) (Q : Y → Type 0) (r : Result X) (f : X → Result Y)
    → Returns P r
    → ((x : X) → P x → Returns Q (f x))
    → Returns Q (then_do r f)
Returns-then_do P Q (ok x) f p next = next x p
Returns-then_do P Q (raised e) f p next = tt

module _ {A : Type 0} where
  abbrev pub count_in : String → List (FillRecord A) → ℕ
  count_in i [] = 0
  count_in i (f ∷ fs) = hit i f.fill_id + count_in i fs

  -- How often an id is booked, over all executions and both legs.
  abbrev pub booked : String → List (String × ExecutionRecord A) → ℕ
  booked i [] = 0
  booked i ((j, e) ∷ rest) = count_in i e.buy_fills + count_in i e.sell_fills + booked i rest

  -- The books hold exactly the ids of the set, each once.
  abbrev pub IsSound : PnlTracker A → Type 0
  IsSound t = (i : String) → (booked i t.executions ≡ count i t.fill_ids) × (count i t.fill_ids ≤ 1)

  count_in-append :
      (i : String) (fs : List (FillRecord A)) (f : FillRecord A)
      → count_in i (fs ++ f ∷ []) ≡ count_in i fs + hit i f.fill_id
  count_in-append i [] f = omega arith
  count_in-append i (g ∷ fs) f = omega (arith, count_in-append i fs f)

  booked-append :
      (i id : String) (e : ExecutionRecord A) (m : List (String × ExecutionRecord A))
      → e.buy_fills ≡ []
      → e.sell_fills ≡ []
      → booked i (m ++ (id, e) ∷ []) ≡ booked i m
  booked-append i id e [] b s = rw (b, s) refl
  booked-append i id e ((j, e') ∷ m) b s = omega (arith, booked-append i id e m b s)

  -- A change that leaves the fills alone.
  booked-change :
      (i id : String) (f : ExecutionRecord A → ExecutionRecord A)
      (m : List (String × ExecutionRecord A))
      → ((e : ExecutionRecord A)
          → ((f e).buy_fills ≡ e.buy_fills) × ((f e).sell_fills ≡ e.sell_fills))
      → booked i (change id f m) ≡ booked i m
  unfolding change
  booked-change i id f [] same = refl
  booked-change i id f ((j, e) ∷ m) same =
      let (b, s) = same e in
      elim (Bool-cases (str_eq j id)) [
        | inl h ↦ rw h (rw (b, s) refl)
        | inr h ↦ rw h (omega (arith, booked-change i id f m same))
      ]

  count_in-append_fill :
      (i : String) (leg : Leg) (f : FillRecord A) (e : ExecutionRecord A)
      → count_in i (append_fill leg f e).buy_fills + count_in i (append_fill leg f e).sell_fills
        ≡ count_in i e.buy_fills + count_in i e.sell_fills + hit i f.fill_id
  count_in-append_fill i buy_leg f e = omega (arith, count_in-append i e.buy_fills f)
  count_in-append_fill i sell_leg f e = omega (arith, count_in-append i e.sell_fills f)
  count_in-append_fill i other_leg f e = omega (arith, count_in-append i e.sell_fills f)

  booked-append_fill :
      (i id : String) (leg : Leg) (f : FillRecord A) (m : List (String × ExecutionRecord A))
      → is_set (find id m) ≡ true
      → booked i (change id (append_fill leg f) m) ≡ booked i m + hit i f.fill_id
  unfolding change find
  booked-append_fill i id leg f [] known = ground arith
  booked-append_fill i id leg f ((j, e) ∷ m) known = elim (Bool-cases (str_eq j id)) [
    | inl h ↦ rw h (omega (arith, count_in-append_fill i leg f e))
    | inr h ↦ rw h (omega (arith, booked-append_fill i id leg f m (rw h at known)))
  ]

  confirm_keeps :
      (leg : Leg) (ts : A) (e : ExecutionRecord A)
      → ((confirm leg ts e).buy_fills ≡ e.buy_fills)
        × ((confirm leg ts e).sell_fills ≡ e.sell_fills)
  confirm_keeps buy_leg ts e = (refl, refl)
  confirm_keeps sell_leg ts e = (refl, refl)
  confirm_keeps other_leg ts e = (refl, refl)

  pub register_execution-IsSound :
      (now : A) (fresh opportunity_id : String) (bp sp : Option Venue) (given : Option String)
      (metadata : Metadata) (created : Option A) (t : PnlTracker A)
      → IsSound t
      → IsSound (register_execution now fresh opportunity_id bp sp given metadata created t).1
  unfolding register_execution
  register_execution-IsSound now fresh opportunity_id bp sp given metadata created t h i =
      let id = id_or given fresh in
      let (same, once) = h i in
      elim (Bool-cases (is_set (find id t.executions))) [
        | inl e ↦ rw e (booked-change i id _ t.executions (λ e'. (refl, refl)) ∙ same, once)
        | inr e ↦ rw e (booked-append i id _ t.executions refl refl ∙ same, once)
      ]

  pub mark_leg_confirmed-IsSound :
      (now : A) (id : String) (leg : Leg) (at : Option A) (t : PnlTracker A)
      → IsSound t
      → Returns IsSound (mark_leg_confirmed now id leg at t)
  mark_leg_confirmed-IsSound now id leg at t h = elim (mark_leg_confirmed-cases now id leg at t) [
    | inl (k, e) ↦
        rw e (λ i. (booked-change i id _ t.executions (confirm_keeps leg _) ∙ (h i).0, (h i).1))
    | inr (x, e) ↦ rw e tt
  ]

  pub mark_settled-IsSound :
      (now : A) (fresh id : String) (settlement_id : Option String) (at : Option A) (need : Bool)
      (t : PnlTracker A)
      → IsSound t
      → Returns (λ p. IsSound p.1) (mark_settled now fresh id settlement_id at need t)
  mark_settled-IsSound now fresh id settlement_id at need t h =
      elim (mark_settled-cases now fresh id settlement_id at need t) [
        | inl (x, k, ready, e) ↦
            rw e (λ i. (booked-change i id _ t.executions (λ e'. (refl, refl)) ∙ (h i).0, (h i).1))
        | inr (inl e) ↦ rw e h
        | inr (inr (x, e)) ↦ rw e tt
      ]

module _ {A : Type 0} ⦃fl : Float A⦄ where
  book_fill-IsSound :
      (now : A) (id : String) (leg : Leg) (fill_id : String) (a : FillArgs A) (t : PnlTracker A)
      → is_set (find id t.executions) ≡ true
      → contains fill_id t.fill_ids ≡ false
      → IsSound t
      → Returns IsSound (book_fill now id leg fill_id a t)
  unfolding book_fill
  book_fill-IsSound now id leg fill_id a t known unused h =
      let f = fill_of now fill_id a in
      let t' : PnlTracker A = record t {
        executions = change id (append_fill leg f) t.executions;
        fill_ids = fill_id ∷ t.fill_ids;
      } in
      let sound : IsSound t' = λ i. (
        omega (arith, booked-append_fill i id leg f t.executions known, h i),
        ground (arith, count-contains fill_id t.fill_ids unused, eq_iff fill_id i, h i),
      ) in
      elim (Bool-cases a.auto_confirm) [
        | inl k ↦ rw k (mark_leg_confirmed-IsSound now id leg (some f.timestamp) t' sound)
        | inr k ↦ rw k sound
      ]

  pub record_fill-IsSound :
      (now : A) (fresh id : String) (leg : Leg) (a : FillArgs A) (t : PnlTracker A)
      → IsSound t
      → Returns (λ p. IsSound p.1) (record_fill now fresh id leg a t)
  record_fill-IsSound now fresh id leg a t h = elim (record_fill-cases now fresh id leg a t) [
    | inl (k, l, e) ↦ rw e (
        Returns-then_do IsSound (λ p. IsSound p.1) _ _
          (book_fill-IsSound now id leg (id_or a.fill_id fresh) a t k l h) (λ t' h'. h'))
    | inr (inl e) ↦ rw e h
    | inr (inr (x, unfit, e)) ↦ rw e tt
  ]
