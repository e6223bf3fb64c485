-- ===== src/Tests/Research.antt =====
-- Concrete runs of the research registry, its trial count and the split of the games.
use kalshi.Common.{
  ℕ, ◌≡◌, ◌≤◌, ◌+◌, refl, true, none, some, List, [], ◌∷◌, ◌++◌, String, Option, insert, is_truthy,
  Bool, Bool-cases, inl, inr, subst, sym, if◌then◌else◌, arith,
}
use kalshi.Splits.{Game, Splits, game_ids, compute_splits, day_clean}
use kalshi.Splits.DayClean.{IsBefore, compute_splits_partitions}
use kalshi.Splits.Leak.{one_day_leaks}
use kalshi.Hypotheses.{
  Hypothesis, Row, hypothesis_row, broken_row, claim, claimed, update, judged, load_state,
}
use kalshi.Hypotheses.Log.{IsChange, claim-update_refine}
use kalshi.Governance.{LedgerRow, falsy, text_value, other_value, trial_count}
use kalshi.Governance.Growth.{
  registering, updating, run, trial_count_never_falls, broken_registry_uncounted,
}

abbrev game : ℕ → String → Game
game day id = record { date = day; game_id = id }

-- Ten games on six days; the cut behind the seventh would divide day 4.
abbrev season : List Game
season =
    game 1 "a"
    ∷ game 1 "b"
    ∷ game 2 "c"
    ∷ game 3 "d"
    ∷ game 3 "e"
    ∷ game 4 "f"
    ∷ game 4 "g"
    ∷ game 4 "h"
    ∷ game 5 "i"
    ∷ game 6 "j"
    ∷ []

abbrev in_order : List Game → List Game
in_order rows = rows

abbrev seven : ℕ → ℕ
seven n = 7

abbrev one : ℕ → ℕ
one n = 1

cut_at_eight : (n : ℕ) → day_clean 7 season ≡ some n → n + 1 ≤ 9
unfolding day_clean
cut_at_eight n e = ground arith

compute_splits_partitions_example :
    (s : Splits) × (train : List Game) × (val : List Game) × (test : List Game) × (compute_splits
        in_order seven one season
      ≡ some s)
    × (s.train_ids ≡ game_ids train)
    × (s.val_ids ≡ game_ids val)
    × (s.test_ids ≡ game_ids test)
    × (train ++ (val ++ test) ≡ season)
    × IsBefore train (val ++ test)
    × IsBefore val test
compute_splits_partitions_example =
    compute_splits_partitions in_order seven one season (ground arith) (omega arith) (omega arith)
      (λ n e. omega (arith, cut_at_eight n e))

-- Three games on one day.
abbrev one_day : List Game
one_day = game 1 "a" ∷ game 1 "b" ∷ game 1 "c" ∷ []

abbrev two : ℕ → ℕ
two n = 2

one_day_leaks_example :
    (s : Splits) × (compute_splits in_order two one one_day ≡ some s)
    × (s.train_ids ≡ "a" ∷ "b" ∷ "c" ∷ [])
    × (s.val_ids ≡ [])
    × (s.test_ids ≡ "c" ∷ [])
one_day_leaks_example =
    one_day_leaks in_order two one one_day 1 (game 1 "c") (refl, (refl, (refl, tt))) refl
      (omega arith) (omega arith)

abbrev idea : Hypothesis
idea = record {
  market = "winner";
  mechanism = "late money";
  signal_desc = "drift";
  direction = "up";
  id = "h1";
  status = "open";
  verdict = some "DEAD";
  results = [];
  created = "2026-01-01";
  updated = "2026-01-02";
}

abbrev same_text : String → String
same_text s = s

abbrev digest : String → String
digest s = if is_truthy (some s) then s else "0"

digest-is_truthy : (s : String) → is_truthy (some (digest s)) ≡ true
digest-is_truthy s = elim (Bool-cases (is_truthy (some s))) [
  | inl full ↦ subst (λ (b : Bool). is_truthy (some (if b then s else "0")) ≡ true) (sym full) full
  | inr blank ↦ rw blank refl
]

abbrev log : List Row
log = hypothesis_row idea ∷ []

loaded : load_state log ≡ some (("h1", idea) ∷ [])
unfolding load_state insert
loaded = refl

claim-update_refine_example :
    IsChange (claim "now" "h1" "scout" log) (claimed "now" "scout") "h1" (("h1", idea) ∷ [])
    × IsChange
        (update "now" "h1" none [] (some "done") log)
        (judged "now" none [] (some "done"))
        "h1"
        (("h1", idea) ∷ [])
claim-update_refine_example =
    claim-update_refine "now" "h1" "scout" none [] (some "done") log loaded

abbrev ledger : List LedgerRow
ledger =
    record {
      hypothesis_id = text_value "h1";
      id = falsy;
      family = text_value "nba";
      market = falsy;
    }
    ∷ record { hypothesis_id = other_value; id = falsy; family = falsy; market = falsy }
    ∷ []

abbrev unowned : String → Option String
unowned market = none

trial_count_never_falls_example :
    trial_count unowned ledger log (some "nba")
    ≤ trial_count unowned
        (ledger ++ ledger)
        (run same_text digest
          (registering "now" (record idea { direction = "down" })
            ∷ updating "now" "h1" (some "PROMOTE") [] none
            ∷ [])
          log)
        (some "nba")
trial_count_never_falls_example =
    trial_count_never_falls unowned (some "nba") same_text digest digest-is_truthy ledger ledger
      (registering "now" (record idea { direction = "down" })
        ∷ updating "now" "h1" (some "PROMOTE") [] none
        ∷ [])
      log (refl, tt)

broken_registry_uncounted_example :
    trial_count unowned ledger (log ++ (broken_row ∷ [])) none ≡ trial_count unowned ledger [] none
broken_registry_uncounted_example = broken_registry_uncounted unowned none ledger log []
