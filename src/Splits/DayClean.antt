-- ===== src/Splits/DayClean.antt =====
-- research/splits/lock.py: `compute_splits` on tables whose cuts do not reach the end.
use kalshi.Common.{
  ℕ, zero, suc, ◌+◌, ◌-◌, ◌≤◌, ◌<◌, ◌≡◌, refl, sym, ap, subst, ◌∙◌, List, [], ◌∷◌, ◌++◌, length,
  some, arith,
}
use kalshi.Splits.{
  Game, take, drop, day_clean, val_end, Splits, game_ids, split_at, with_ends, compute_splits,
}
use kalshi.Splits.Cuts.{
  AtMost, After, IsChronological, take-drop, drop-drop, iloc-total, final-total, day_clean_returns,
}

-- Every game of the first list is on an earlier day than every game of the second.
abbrev pub IsBefore : List Game → List Game → Type 0
IsBefore xs ys = (day : ℕ) × AtMost day xs × After day ys

AtMost-drop : (d k : ℕ) (rows : List Game) → AtMost d rows → AtMost d (drop k rows)
AtMost-drop d zero rows h = h
AtMost-drop d (suc k) [] h = tt
AtMost-drop d (suc k) (g ∷ gs) (h, hs) = AtMost-drop d k gs hs

take-nil : (k : ℕ) → take k [] ≡ []
take-nil zero = refl
take-nil (suc k) = refl

take_difference :
    (n v : ℕ) (rows : List Game) → n ≤ v → take (v - n) (drop n rows) ≡ drop n (take v rows)
take_difference zero v rows le =
    let all : v - 0 ≡ v = omega arith in ap (λ (k : ℕ). take k rows) all
take_difference (suc n) zero rows le = ground arith
take_difference (suc n) (suc v) [] le = take-nil (suc v - suc n)
take_difference (suc n) (suc v) (g ∷ gs) le =
    let shift : suc v - suc n ≡ v - n = omega arith in
    ap (λ (k : ℕ). take k (drop n gs)) shift ∙ take_difference n v gs (omega arith)

slices :
    (n v : ℕ) (rows : List Game) → n ≤ v → take (v - n) (drop n rows) ++ drop v rows ≡ drop n rows
slices n v rows le =
    let shift : n + (v - n) ≡ v = omega arith in
    ap (λ (k : ℕ). take (v - n) (drop n rows) ++ drop k rows) (sym shift)
    ∙ ap (◌++◌ (take (v - n) (drop n rows))) (sym (drop-drop (v - n) n rows))
    ∙ take-drop (v - n) (drop n rows)

pub with_ends_returns :
    (n v : ℕ) (rows : List Game)
    → 0 < n
    → n ≤ length rows
    → 0 < v
    → v ≤ length rows
    → (s : Splits) × (with_ends n v rows ≡ some s)
      × (s.train_ids ≡ game_ids (take n rows))
      × (s.val_ids ≡ game_ids (take (v - n) (drop n rows)))
      × (s.test_ids ≡ game_ids (drop v rows))
with_ends_returns zero v rows pos le pos' le' = ground arith
with_ends_returns (suc n) zero rows pos le pos' le' = ground arith
with_ends_returns (suc n) (suc v) rows pos le pos' le' =
    let (a, at_n) = iloc-total n rows (omega arith) in
    let (b, at_v) = iloc-total v rows (omega arith) in
    let (c, last) = final-total rows (omega arith) in
    (
      split_at (suc n) (suc v) a.date b.date c.date rows,
      rw (at_n, at_v, last, with_ends) refl,
      refl,
      refl,
      refl,
    )

val_end_lem :
    (n j : ℕ) (rows : List Game) → n + j < length rows → val_end n j rows ≡ day_clean (n + j) rows
unfolding val_end
val_end_lem n j rows lt = ground arith

module _ (sort_values : List Game → List Game) (share_70 share_15 : ℕ → ℕ) where
  pub compute_splits_lem :
      (df : List Game) {n v : ℕ}
      → let rows = sort_values df in
        day_clean (share_70 (length rows)) rows ≡ some n
        → val_end n (share_15 (length rows)) rows ≡ some v
        → compute_splits sort_values share_70 share_15 df ≡ with_ends n v rows
  unfolding compute_splits
  compute_splits_lem df train_cut val_cut = rw (train_cut, val_cut, compute_splits) refl

  -- Of a table that the sorting makes chronological, `compute_splits` makes a partition, if the
  -- training share is positive and at most the number of games and the training cut with the
  -- validation share does not reach the end: the training, validation and test games in this order
  -- are the table, and no day is divided, so every game is on an earlier day than every game of a
  -- later part.
  pub compute_splits_partitions :
      (df : List Game)
      → let rows = sort_values df in
        IsChronological rows
        → 0 < share_70 (length rows)
        → share_70 (length rows) ≤ length rows
        → ((n : ℕ)
            → day_clean (share_70 (length rows)) rows ≡ some n
            → n + share_15 (length rows) < length rows)
        → (s : Splits) × (train : List Game) × (val : List Game) × (test : List Game)
          × (compute_splits sort_values share_70 share_15 df ≡ some s)
          × (s.train_ids ≡ game_ids train)
          × (s.val_ids ≡ game_ids val)
          × (s.test_ids ≡ game_ids test)
          × (train ++ (val ++ test) ≡ rows)
          × IsBefore train (val ++ test)
          × IsBefore val test
  compute_splits_partitions df c pos le open_ended =
      let rows = sort_values df in
      let n_rows = length rows in
      let (n, train_cut, ge, n_le, (d, early, late)) =
        day_clean_returns (share_70 n_rows) rows c pos le in
      let lt = open_ended n train_cut in
      let (v, val_cut, v_ge, v_le, (d', early', late')) =
        day_clean_returns (n + share_15 n_rows) rows c (omega arith) (omega arith) in
      let (s, returned, trains, vals, tests) =
        with_ends_returns n v rows (omega arith) n_le (omega arith) v_le in
      let val = take (v - n) (drop n rows) in
      let joined : val ++ drop v rows ≡ drop n rows = slices n v rows (omega arith) in
      (
        s,
        take n rows,
        val,
        drop v rows,
        compute_splits_lem df train_cut (val_end_lem n (share_15 n_rows) rows lt ∙ val_cut)
            ∙ returned,
        trains,
        vals,
        tests,
        ap (◌++◌ (take n rows)) joined ∙ take-drop n rows,
        (d, early, subst (After d) (sym joined) late),
        (
          d',
          subst (AtMost d') (sym (take_difference n v rows (omega arith)))
              (AtMost-drop d' n (take v rows) early'),
          late',
        ),
      )
