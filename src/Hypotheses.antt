-- ===== src/Hypotheses.antt =====
-- research/lab/hypothesis.py and the Hypothesis of research/lab/types.py: the registry, an append-only
-- log that is replayed, the last row of an id winning. Its rows are the lines that parse as JSON.
-- The texts of `results` stand for its JSON values. Python's `strip().lower()` and the digest are
-- parameters.
pub mod Log
use Prim.Native.String.{◌++◌ as str_append}
use kalshi.Common.{
  Bool, true, false, Option, none, some, List, [], ◌∷◌, ◌++◌, String, Dict, lookup, insert,
  is_truthy, if◌then◌else◌,
}

pub record Hypothesis : Type 0 where
  pub market : String
  pub mechanism : String
  pub signal_desc : String
  pub direction : String
  pub id : String
  pub status : String
  pub verdict : Option String
  pub results : Dict String
  pub created : String
  pub updated : String

-- A row: the fields of a hypothesis, or what `_load_state` raises on, which is no dict, or a dict
-- with an id but without a required field.
pub data Row : Type 0 where
  hypothesis_row : Hypothesis → Row
  broken_row : Row

-- A call's reply: the result, the KeyError of an unknown id, or the error of a broken row.
pub data Reply (X : Type 0) : Type 0 where
  replied : X → Reply X
  unknown_id : Reply X
  broken_log : Reply X

-- `_load_state`, onto the state of the rows before.
abbrev pub replay : Dict Hypothesis → List Row → Option (Dict Hypothesis)
replay state [] = some state
replay state (broken_row ∷ rows) = none
replay state (hypothesis_row h ∷ rows) =
    if is_truthy (some h.id) then replay (insert h.id h state) rows else replay state rows

unfoldable pub load_state : List Row → Option (Dict Hypothesis)
load_state rows = replay [] rows

-- `a or b` of texts.
abbrev pub or_text : String → String → String
or_text a b = if is_truthy (some a) then a else b

abbrev pub given_or : {X : Type 0} → Option X → X → X
given_or none old = old
given_or (some x) old = x

abbrev pub verdict_or : Option String → Option String → Option String
verdict_or none old = old
verdict_or (some v) old = some v

-- `merged.update(results)`
abbrev pub merge : Dict String → Dict String → Dict String
merge old [] = old
merge old ((k, v) ∷ rest) = merge (insert k v old) rest

abbrev pub opened : String → String → Hypothesis → Hypothesis
opened now hyp_id h = record h {
  id = hyp_id;
  status = or_text h.status "open";
  created = or_text h.created now;
  updated = now;
}

module _ (normalize digest : String → String) where
  unfoldable pub hash : Hypothesis → String
  hash h = digest (
      str_append h.market (
        str_append "|"
          (str_append (normalize h.mechanism) (str_append "|" (normalize h.direction)))))

  -- The row, and the log after.
  unfoldable pub register : String → Hypothesis → List Row → Reply (Hypothesis × List Row)
  unfolding load_state hash
  register now h rows = elim (load_state rows) [
    | none ↦ broken_log
    | some state ↦ elim (lookup (hash h) state) [
      | some existing ↦ replied (existing, rows)
      | none ↦ let new = opened now (hash h) h in replied (new, rows ++ hypothesis_row new ∷ [])
    ]
  ]

-- A change of the current row of an id, appended.
abbrev pub change : String → (Hypothesis → Hypothesis) → List Row → Reply (Hypothesis × List Row)
change hyp_id f rows = elim (load_state rows) [
  | none ↦ broken_log
  | some state ↦ elim (lookup hyp_id state) [
    | none ↦ unknown_id
    | some current ↦ replied (f current, rows ++ hypothesis_row (f current) ∷ [])
  ]
]

abbrev pub claimed : String → String → Hypothesis → Hypothesis
claimed now agent h = record h {
  status = "running";
  results = insert "claimed_at" now (insert "claimed_by" agent h.results);
  updated = now;
}

unfoldable pub claim : String → String → String → List Row → Reply (Hypothesis × List Row)
unfolding load_state
claim now hyp_id agent rows = change hyp_id (claimed now agent) rows

abbrev pub judged : String → Option String → Dict String → Option String → Hypothesis → Hypothesis
judged now verdict results status h = record h {
  verdict = verdict_or verdict h.verdict;
  results = merge h.results results;
  status = given_or status h.status;
  updated = now;
}

unfoldable pub update :
    String
    → String
    → Option String
    → Dict String
    → Option String
    → List Row
    → Reply (Hypothesis × List Row)
unfolding load_state
update now hyp_id verdict results status rows =
    change hyp_id (judged now verdict results status) rows

abbrev pub values : Dict Hypothesis → List Hypothesis
values [] = []
values ((k, h) ∷ rest) = h ∷ values rest

-- Unfiltered; its order, by creation time, is not modelled.
unfoldable pub query : List Row → Option (List Hypothesis)
unfolding load_state
query rows = elim (load_state rows) [ none ↦ none | some state ↦ some (values state) ]
