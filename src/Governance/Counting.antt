-- ===== src/Governance/Counting.antt =====
-- research/lab/governance.py: which ids `trial_count` counts.
use text.Mathlib.Text.{◌==◌ as str_eq}
use kalshi.Common.{
  ℕ, ◌≤◌, ◌≡◌, refl, inl, inr, Bool, true, false, ◌&&◌, ◌||◌, Option, List, [], ◌∷◌, ◌++◌, String,
  length, contains, include, contains-include, IsDistinct, include-IsDistinct, IsSubset,
  length-IsSubset, arith, Bool-cases, Option-cases,
}
use kalshi.Hypotheses.{Hypothesis, Row, query}
use kalshi.Governance.{
  LedgerRow, row_id, row_family, family_match, count_row, count_rows, is_counted, count_hypotheses,
  or_no_hypotheses, trial_count,
}

module _ (family_of : String → Option String) (family : Option String) where
  -- A hypothesis of this id counts.
  abbrev pub is_named : String → List Hypothesis → Bool
  is_named i [] = false
  is_named i (h ∷ hs) = (is_counted family_of family h && str_eq h.id i) || is_named i hs

  contains-count_hypotheses :
      (i : String) (hs : List Hypothesis) (ids : List String)
      → contains i (count_hypotheses family_of family hs ids) ≡ (contains i ids || is_named i hs)
  contains-count_hypotheses i [] ids = ground arith
  contains-count_hypotheses i (h ∷ hs) ids = elim (Bool-cases (is_counted family_of family h)) [
    | inl counts ↦
        rw (counts, contains-count_hypotheses i hs (include h.id ids), contains-include h.id i ids)
          (ground arith)
    | inr other ↦ rw (other, contains-count_hypotheses i hs ids) refl
  ]

  count_hypotheses-IsDistinct :
      (hs : List Hypothesis) (ids : List String)
      → IsDistinct ids
      → IsDistinct (count_hypotheses family_of family hs ids)
  count_hypotheses-IsDistinct [] ids d = d
  count_hypotheses-IsDistinct (h ∷ hs) ids d = elim (Bool-cases (is_counted family_of family h)) [
    | inl counts ↦
        rw counts
          (count_hypotheses-IsDistinct hs (include h.id ids) (include-IsDistinct h.id ids d))
    | inr other ↦ rw other (count_hypotheses-IsDistinct hs ids d)
  ]

  -- The ids of a count are distinct; a row adds to the ids and to the number without one.
  abbrev pub IsGrown : List String × ℕ → List String × ℕ → Type 0
  IsGrown (ids, anon) (ids', anon') = IsSubset ids ids' × (anon ≤ anon')

  count_row-IsGrown :
      (row : LedgerRow) (n : List String × ℕ) → IsGrown n (count_row family_of family row n)
  count_row-IsGrown row (ids, anon) =
      elim (Bool-cases (family_match (row_family family_of row) family)) [
        | inr foreign ↦ rw (foreign, count_row) ((λ i h. h), omega arith)
        | inl own ↦ elim (Option-cases (row_id row)) [
          | inl absent ↦ rw (own, absent, count_row) ((λ i h. h), omega arith)
          | inr (hid, given) ↦
              rw (own, given, count_row)
                ((λ i h. ground (arith, contains-include hid i ids, h)), omega arith)
        ]
      ]

  count_row-IsDistinct :
      (row : LedgerRow) (n : List String × ℕ)
      → IsDistinct n.0
      → IsDistinct (count_row family_of family row n).0
  count_row-IsDistinct row (ids, anon) d =
      elim (Bool-cases (family_match (row_family family_of row) family)) [
        | inr foreign ↦ rw (foreign, count_row) d
        | inl own ↦ elim (Option-cases (row_id row)) [
          | inl absent ↦ rw (own, absent, count_row) d
          | inr (hid, given) ↦ rw (own, given, count_row) (include-IsDistinct hid ids d)
        ]
      ]

  count_rows-IsDistinct :
      (rows : List LedgerRow) (n : List String × ℕ)
      → IsDistinct n.0
      → IsDistinct (count_rows family_of family rows n).0
  count_rows-IsDistinct [] n d = d
  count_rows-IsDistinct (row ∷ rows) n d =
      count_rows-IsDistinct rows (count_row family_of family row n) (count_row-IsDistinct row n d)

  count_rows-IsGrown :
      (rows : List LedgerRow) (n : List String × ℕ) → IsGrown n (count_rows family_of family rows n)
  count_rows-IsGrown [] n = ((λ i h. h), omega arith)
  count_rows-IsGrown (row ∷ rows) n =
      let (sub, le) = count_row-IsGrown row n in
      let (sub', le') = count_rows-IsGrown rows (count_row family_of family row n) in
      ((λ i h. sub' i (sub i h)), omega arith)

  pub count_rows-append :
      (rows more : List LedgerRow) (n : List String × ℕ)
      → IsGrown (count_rows family_of family rows n) (count_rows family_of family (rows ++ more) n)
  count_rows-append [] more n = count_rows-IsGrown more n
  count_rows-append (row ∷ rows) more n =
      count_rows-append rows more (count_row family_of family row n)

  -- Of a ledger and a registry that count at least as much, the trial count is no lower.
  pub trial_count_le :
      (ledger ledger' : List LedgerRow) (registry registry' : List Row)
      → IsGrown
          (count_rows family_of family ledger ([], 0))
          (count_rows family_of family ledger' ([], 0))
      → ((i : String)
          → is_named i (or_no_hypotheses (query registry)) ≡ true
          → is_named i (or_no_hypotheses (query registry')) ≡ true)
      → trial_count family_of ledger registry family
        ≤ trial_count family_of ledger' registry' family
  unfolding trial_count
  trial_count_le ledger ledger' registry registry' (sub, le) names =
      let n = count_rows family_of family ledger ([], 0) in
      let n' = count_rows family_of family ledger' ([], 0) in
      let hs = or_no_hypotheses (query registry) in
      let hs' = or_no_hypotheses (query registry') in
      let larger : length (count_hypotheses family_of family hs n.0)
          ≤ length (count_hypotheses family_of family hs' n'.0) =
        length-IsSubset _ _
          (count_hypotheses-IsDistinct hs n.0 (count_rows-IsDistinct ledger ([], 0) tt))
          (λ i h. ground (
            arith,
            contains-count_hypotheses i hs n.0,
            contains-count_hypotheses i hs' n'.0,
            sub i,
            names i,
            h,
          )) in
      ground (arith, larger, le)
