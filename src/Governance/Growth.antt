-- ===== src/Governance/Growth.antt =====
-- research/lab/governance.py over the registry of research/lab/hypothesis.py: how the trial count grows.
use text.Mathlib.Text.{◌==◌ as str_eq}
use text.Mathlib.TextEquality.{eq_iff}
use kalshi.Common.{
  ◌≤◌, ◌≡◌, refl, sym, ap, subst, ◌∙◌, inl, inr, true, Option, none, some, List, [], ◌∷◌, ◌++◌,
  String, Dict, lookup, insert, is_truthy, arith, Bool-cases, Option-cases,
}
use kalshi.Hypotheses.{
  Hypothesis, Row, broken_row, hypothesis_row, Reply, replied, unknown_id, broken_log, load_state,
  hash, register, change, claimed, claim, judged, update, opened, values, query,
}
use kalshi.Hypotheses.Log.{
  load_state-append, load_state-broken, IsKeyed, load_state-IsKeyed, lookup-IsKeyed,
}
use kalshi.Governance.{LedgerRow, is_counted, or_no_hypotheses, trial_count}
use kalshi.Governance.Counting.{is_named, trial_count_le, count_rows-append}

-- A call of the registry, at a reading of the clock.
pub data Call : Type 0 where
  registering : String → Hypothesis → Call
  claiming : String → String → String → Call
  updating : String → String → Option String → Dict String → Option String → Call

-- No update takes a verdict away: it leaves the verdict or gives one that is not empty.
abbrev pub KeepsVerdicts : List Call → Type 0
KeepsVerdicts [] = Unit
KeepsVerdicts (updating now id (some v) results status ∷ calls) =
    (is_truthy (some v) ≡ true) × KeepsVerdicts calls
KeepsVerdicts (_ ∷ calls) = KeepsVerdicts calls

abbrev pub log_after : List Row → Reply (Hypothesis × List Row) → List Row
log_after rows (replied (h, rows')) = rows'
log_after rows unknown_id = rows
log_after rows broken_log = rows

module _ (normalize digest : String → String) where
  unfoldable pub step : Call → List Row → List Row
  unfolding register claim update
  step (registering now h) rows = log_after rows (register normalize digest now h rows)
  step (claiming now id agent) rows = log_after rows (claim now id agent rows)
  step (updating now id verdict results status) rows =
      log_after rows (update now id verdict results status rows)

  unfoldable pub run : List Call → List Row → List Row
  unfolding step
  run [] rows = rows
  run (c ∷ cs) rows = run cs (step c rows)

module _ (family_of : String → Option String) (family : Option String) where
  -- What counts in the first log counts in the second.
  abbrev pub Keeps : List Row → List Row → Type 0
  Keeps rows rows' =
      (i : String)
      → is_named family_of family i (or_no_hypotheses (query rows)) ≡ true
      → is_named family_of family i (or_no_hypotheses (query rows')) ≡ true

  is_named-insert :
      (i k : String) (h' : Hypothesis) (m : Dict Hypothesis)
      → IsKeyed m
      → h'.id ≡ k
      → ((h : Hypothesis)
          → lookup k m ≡ some h
          → is_counted family_of family h ≡ true
          → is_counted family_of family h' ≡ true)
      → is_named family_of family i (values m) ≡ true
      → is_named family_of family i (values (insert k h' m)) ≡ true
  unfolding insert lookup
  is_named-insert i k h' [] keyed own kept named = ground arith
  is_named-insert i k h' ((j, h) ∷ m) (same, _, keyed) own kept named =
      elim (Bool-cases (str_eq j k)) [
        | inl here ↦
            let found : lookup k ((j, h) ∷ m) ≡ some h = rw (here, lookup) refl in
            let id_same : h'.id ≡ h.id = own ∙ sym ((eq_iff j k).0 here) ∙ sym same in
            let hit : str_eq h'.id i ≡ str_eq h.id i = ap (λ (x : String). str_eq x i) id_same in
            rw here (ground (arith, kept h found, hit, named))
        | inr there ↦
            let rest =
              is_named-insert i k h' m keyed own (λ g found. kept g (rw (there, lookup) found)) in
            rw there (ground (arith, rest, named))
      ]

  -- A row appended under an id, which counts if the row that it replaces does.
  append-Keeps :
      (rows : List Row) (h' : Hypothesis) {state : Dict Hypothesis}
      → load_state rows ≡ some state
      → is_truthy (some h'.id) ≡ true
      → ((h : Hypothesis)
          → lookup h'.id state ≡ some h
          → is_counted family_of family h ≡ true
          → is_counted family_of family h' ≡ true)
      → Keeps rows (rows ++ hypothesis_row h' ∷ [])
  unfolding query
  append-Keeps rows h' {state} loaded truthy kept i named =
      rw (load_state-append rows h' loaded truthy, query)
        (is_named-insert i h'.id h' state (load_state-IsKeyed rows loaded) refl kept
          (rw (loaded, query) at named))

  change-Keeps :
      (id : String) (f : Hypothesis → Hypothesis) (rows : List Row)
      → ((h : Hypothesis) → (f h).id ≡ h.id)
      → ((h : Hypothesis)
          → is_counted family_of family h ≡ true
          → is_counted family_of family (f h) ≡ true)
      → Keeps rows (log_after rows (change id f rows))
  change-Keeps id f rows same_id kept = elim (Option-cases (load_state rows)) [
    | inl broken ↦ rw (broken, change) (λ i named. named)
    | inr (state, loaded) ↦ elim (Option-cases (lookup id state)) [
      | inl unknown ↦ rw (loaded, unknown, change) (λ i named. named)
      | inr (h, found) ↦
          let (own, truthy) = lookup-IsKeyed id state (load_state-IsKeyed rows loaded) found in
          let f_own : (f h).id ≡ id = same_id h ∙ own in
          rw (loaded, found, change)
            (append-Keeps rows (f h) loaded
              (subst (λ (k : String). is_truthy (some k) ≡ true) (sym f_own) truthy)
              (λ g found' counts.
                let agree : some h ≡ some g =
                  sym found ∙ ap (λ (k : String). lookup k state) (sym f_own) ∙ found' in
                ground (arith, agree, kept h, counts)))
    ]
  ]

  module _ (normalize digest : String → String)
      (digests : (s : String) → is_truthy (some (digest s)) ≡ true) where
    register-Keeps :
        (now : String) (h : Hypothesis) (rows : List Row)
        → Keeps rows (log_after rows (register normalize digest now h rows))
    unfolding register
    register-Keeps now h rows =
        let id = hash normalize digest h in
        elim (Option-cases (load_state rows)) [
          | inl broken ↦ rw (broken, register) (λ i named. named)
          | inr (state, loaded) ↦ elim (Option-cases (lookup id state)) [
            | inr (e, found) ↦ rw (loaded, found, register) (λ i named. named)
            | inl absent ↦
                rw (loaded, absent, register)
                  (append-Keeps rows (opened now id h) loaded (digests _)
                    (λ g found counts. ground (arith, absent, found)))
          ]
        ]

    run-Keeps :
        (calls : List Call) (rows : List Row)
        → KeepsVerdicts calls
        → Keeps rows (run normalize digest calls rows)
    unfolding run step claim update
    run-Keeps [] rows ok i named = named
    run-Keeps (registering now h ∷ calls) rows ok i named =
        run-Keeps calls (step normalize digest (registering now h) rows) ok i
          (register-Keeps now h rows i named)
    run-Keeps (claiming now id agent ∷ calls) rows ok i named =
        run-Keeps calls (step normalize digest (claiming now id agent) rows) ok i
          (change-Keeps id (claimed now agent) rows (λ h. refl) (λ h counts. counts) i named)
    run-Keeps (updating now id none results status ∷ calls) rows ok i named =
        run-Keeps calls (step normalize digest (updating now id none results status) rows) ok i (
          change-Keeps id (judged now none results status) rows (λ h. refl) (λ h counts. counts) i
            named)
    run-Keeps (updating now id (some v) results status ∷ calls) rows (truthy, ok) i named =
        run-Keeps calls (step normalize digest (updating now id (some v) results status) rows) ok i
          (change-Keeps id (judged now (some v) results status) rows (λ h. refl)
            (λ h counts. ground (arith, truthy, counts)) i named)

    -- As the ledger grows by any rows and the registry by any calls, none of which empties a
    -- verdict, the trial count of no family falls, if digests are not empty.
    pub trial_count_never_falls :
        (ledger more : List LedgerRow) (calls : List Call) (rows : List Row)
        → KeepsVerdicts calls
        → trial_count family_of ledger rows family
          ≤ trial_count family_of (ledger ++ more) (run normalize digest calls rows) family
    trial_count_never_falls ledger more calls rows ok =
        trial_count_le family_of family ledger (ledger ++ more) rows
          (run normalize digest calls rows) (count_rows-append family_of family ledger more ([], 0))
          (run-Keeps calls rows ok)

  -- A registry with one broken row counts no hypothesis at all.
  pub broken_registry_uncounted :
      (ledger : List LedgerRow) (rows more : List Row)
      → trial_count family_of ledger (rows ++ (broken_row ∷ more)) family
        ≡ trial_count family_of ledger [] family
  unfolding trial_count query load_state
  broken_registry_uncounted ledger rows more =
      rw (load_state-broken rows more, query, load_state) refl
