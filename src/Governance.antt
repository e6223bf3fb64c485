-- ===== src/Governance.antt =====
-- research/lab/governance.py: the trial count N of the Deflated Sharpe Ratio. `family_of`, what the
-- provider registry says owns a market, is a parameter, since the providers are imported at run time.
pub mod Counting
pub mod Growth
use text.Mathlib.Text.{◌==◌ as str_eq}
use kalshi.Common.{
  ℕ, ◌+◌, Bool, true, false, ◌&&◌, ◌||◌, not, Option, none, some, List, [], ◌∷◌, String, is_truthy,
  include, length, ltb, if◌then◌else◌,
}
use kalshi.Hypotheses.{Hypothesis, Row, query}

-- A JSON value as the code tests it: falsy, a text, or another one that is truthy.
pub data JsonValue : Type 0 where
  falsy : JsonValue
  text_value : String → JsonValue
  other_value : JsonValue

-- The keys of a ledger row that the count reads.
pub record LedgerRow : Type 0 where
  pub hypothesis_id : JsonValue
  pub id : JsonValue
  pub family : JsonValue
  pub market : JsonValue

-- The value as a text that is not empty.
abbrev pub text_of : JsonValue → Option String
text_of (text_value s) = if is_truthy (some s) then some s else none
text_of _ = none

-- `row.get("hypothesis_id") or row.get("id")`, if that is a text.
abbrev pub row_id : LedgerRow → Option String
row_id row = elim row.hypothesis_id [
  | falsy ↦ text_of row.id
  | text_value s ↦ if is_truthy (some s) then some s else text_of row.id
  | other_value ↦ none
]

abbrev pub family_match : Option String → Option String → Bool
family_match record_family none = true
family_match none (some family) = true
family_match (some f) (some family) = str_eq f family

-- An error of the registry counts as no hypothesis.
abbrev pub or_no_hypotheses : Option (List Hypothesis) → List Hypothesis
or_no_hypotheses none = []
or_no_hypotheses (some hs) = hs

module _ (family_of : String → Option String) where
  abbrev pub row_family : LedgerRow → Option String
  row_family row = elim (text_of row.family) [
    | some fam ↦ some fam
    | none ↦ elim (text_of row.market) [ none ↦ none | some market ↦ family_of market ]
  ]

  -- The ids and the number of rows without one.
  abbrev pub count_row : Option String → LedgerRow → List String × ℕ → List String × ℕ
  count_row family row (ids, anon) =
      if family_match (row_family row) family
      then elim (row_id row) [ none ↦ (ids, anon + 1) | some hid ↦ (include hid ids, anon) ]
      else (ids, anon)

  abbrev pub count_rows : Option String → List LedgerRow → List String × ℕ → List String × ℕ
  count_rows family [] n = n
  count_rows family (row ∷ rows) n = count_rows family rows (count_row family row n)

  -- A hypothesis with a verdict, of the family.
  abbrev pub is_counted : Option String → Hypothesis → Bool
  is_counted family h =
      is_truthy h.verdict && (is_truthy (some h.id) && family_match (family_of h.market) family)

  abbrev pub count_hypotheses : Option String → List Hypothesis → List String → List String
  count_hypotheses family [] ids = ids
  count_hypotheses family (h ∷ hs) ids =
      count_hypotheses family hs (if is_counted family h then include h.id ids else ids)

  unfoldable pub trial_count : List LedgerRow → List Row → Option String → ℕ
  trial_count ledger registry family =
      let (ids, anon) = count_rows family ledger ([], 0) in
      let n = length (count_hypotheses family (or_no_hypotheses (query registry)) ids) + anon in
      if ltb n 1 then 1 else n
