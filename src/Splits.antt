-- ===== src/Splits.antt =====
-- research/splits/lock.py: `compute_splits`. A game's date is its day's number, which orders as
-- the ISO date does. The order of the rows is the table library's and the two shares are float
-- products, so `sort_values`, `int(n * 0.70)` and `int(n * 0.15)` are parameters.
pub mod Cuts
pub mod DayClean
pub mod Leak
use kalshi.Common.{
  ℕ, zero, suc, ◌+◌, ◌-◌, leb, ◌==◌, Option, none, some, List, [], ◌∷◌, String, length, map,
  if◌then◌else◌,
}

pub record Game : Type 0 where
  pub date : ℕ
  pub game_id : String

-- `df.iloc[i]` for an index from 0.
abbrev pub iloc : ℕ → List Game → Option Game
iloc i [] = none
iloc zero (g ∷ gs) = some g
iloc (suc i) (g ∷ gs) = iloc i gs

abbrev pub final : List Game → Option Game
final [] = none
final (g ∷ []) = some g
final (g ∷ h ∷ gs) = final (h ∷ gs)

-- `df.iloc[k - 1]`, where -1 is the last row.
abbrev pub iloc_before : ℕ → List Game → Option Game
iloc_before zero rows = final rows
iloc_before (suc i) rows = iloc i rows

-- `rows[:k]` and `rows[k:]`
abbrev pub take : ℕ → List Game → List Game
take zero gs = []
take (suc k) [] = []
take (suc k) (g ∷ gs) = g ∷ take k gs

abbrev pub drop : ℕ → List Game → List Game
drop zero gs = gs
drop (suc k) [] = []
drop (suc k) (g ∷ gs) = drop k gs

-- `(rows["date"] <= day).sum()`
abbrev pub count_until : ℕ → List Game → ℕ
count_until day [] = 0
count_until day (g ∷ gs) =
    let rest = count_until day gs in if leb g.date day then suc rest else rest

-- The cut at row `k`, moved behind the day that it would divide.
unfoldable pub day_clean : ℕ → List Game → Option ℕ
day_clean k rows = elim (iloc_before k rows) [
  | none ↦ none
  | some before ↦ elim (iloc k rows) [
    | none ↦ some k
    | some next ↦ some (if before.date == next.date then count_until before.date rows else k)
  ]
]

unfoldable pub val_end : ℕ → ℕ → List Game → Option ℕ
unfolding day_clean
val_end n_train n_val_raw rows =
    if leb (length rows) (n_train + n_val_raw)
    then some (length rows - 1)
    else day_clean (n_train + n_val_raw) rows

pub record Boundaries : Type 0 where
  pub train_end_date : ℕ
  pub val_end_date : ℕ
  pub test_end_date : ℕ

pub record Splits : Type 0 where
  pub train_ids : List String
  pub val_ids : List String
  pub test_ids : List String
  pub boundaries : Boundaries

abbrev pub game_ids : List Game → List String
game_ids rows = map (λ (g : Game). g.game_id) rows

abbrev pub split_at : ℕ → ℕ → ℕ → ℕ → ℕ → List Game → Splits
split_at n_train n_val_end train_end val_end_date test_end rows = record {
  train_ids = game_ids (take n_train rows);
  val_ids = game_ids (take (n_val_end - n_train) (drop n_train rows));
  test_ids = game_ids (drop n_val_end rows);
  boundaries = record {
    train_end_date = train_end;
    val_end_date = val_end_date;
    test_end_date = test_end;
  };
}

abbrev pub with_ends : ℕ → ℕ → List Game → Option Splits
with_ends n_train n_val_end rows = elim (iloc_before n_train rows) [
  | none ↦ none
  | some train_last ↦ elim (iloc_before n_val_end rows) [
    | none ↦ none
    | some val_last ↦ elim (final rows) [
      | none ↦ none
      | some test_last ↦
          some (split_at n_train n_val_end train_last.date val_last.date test_last.date rows)
    ]
  ]
]

-- `none` is the IndexError of an empty table.
unfoldable pub compute_splits :
    (List Game → List Game) → (ℕ → ℕ) → (ℕ → ℕ) → List Game → Option Splits
unfolding day_clean val_end
compute_splits sort_values share_70 share_15 df =
    let rows = sort_values df in
    let n = length rows in
    elim (day_clean (share_70 n) rows) [
      | none ↦ none
      | some n_train ↦ elim (val_end n_train (share_15 n) rows) [
        | none ↦ none
        | some n_val_end ↦ with_ends n_train n_val_end rows
      ]
    ]
