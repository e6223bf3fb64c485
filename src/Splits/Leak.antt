-- ===== src/Splits/Leak.antt =====
-- research/splits/lock.py: what `compute_splits` does when the cuts reach the end of the table.
use kalshi.Common.{ℕ, zero, suc, ◌-◌, ◌<◌, ◌≡◌, refl, ap, ◌∙◌, List, [], ◌∷◌, length, some, arith}
use kalshi.Splits.{
  Game, iloc, final, take, drop, count_until, day_clean, val_end, Splits, game_ids, compute_splits,
}
use kalshi.Splits.Cuts.{iloc-total}
use kalshi.Splits.DayClean.{with_ends_returns, compute_splits_lem}

-- Every game is on the day.
abbrev pub AllOn : ℕ → List Game → Type 0
AllOn day [] = Unit
AllOn day (g ∷ gs) = (g.date ≡ day) × AllOn day gs

date-iloc :
    (day i : ℕ) (rows : List Game) {a : Game} → AllOn day rows → iloc i rows ≡ some a → a.date ≡ day
date-iloc day i [] on e = ground arith
date-iloc day zero (g ∷ gs) (on, _) e = ground arith
date-iloc day (suc i) (g ∷ gs) (_, on) e = date-iloc day i gs on e

count_until-AllOn :
    (day : ℕ) (rows : List Game) → AllOn day rows → count_until day rows ≡ length rows
count_until-AllOn day [] on = refl
count_until-AllOn day (g ∷ gs) (here, on) = ground (arith, count_until-AllOn day gs on)

take-length : (rows : List Game) → take (length rows) rows ≡ rows
take-length [] = refl
take-length (g ∷ gs) = ap (◌∷◌ g) (take-length gs)

drop-final :
    (rows : List Game) {g : Game} → final rows ≡ some g → drop (length rows - 1) rows ≡ g ∷ []
drop-final [] last = ground arith
drop-final (h ∷ []) last = ground arith
drop-final (h ∷ h' ∷ gs) last =
    let shift : suc (suc (length gs)) - 1 ≡ suc (suc (length gs) - 1) = omega arith in
    ap (λ (k : ℕ). drop k (h ∷ h' ∷ gs)) shift ∙ drop-final (h' ∷ gs) last

day_clean-AllOn :
    (day k : ℕ) (rows : List Game)
    → AllOn day rows
    → 0 < k
    → k < length rows
    → day_clean k rows ≡ some (length rows)
unfolding day_clean
day_clean-AllOn day zero rows on pos lt = ground arith
day_clean-AllOn day (suc i) rows on pos lt =
    let (a, before) = iloc-total i rows (omega arith) in
    let (b, next) = iloc-total (suc i) rows lt in
    ground (
      arith,
      before,
      next,
      date-iloc day i rows on before,
      date-iloc day (suc i) rows on next,
      count_until-AllOn day rows on,
    )

val_end_clamped :
    (n j : ℕ) (rows : List Game) → length rows ≡ n → val_end n j rows ≡ some (length rows - 1)
unfolding val_end
val_end_clamped n j rows e = ground arith

module _ (sort_values : List Game → List Game) (share_70 share_15 : ℕ → ℕ) where
  -- Where the games are all on one day, and the training share is positive and below their number,
  -- every one is a training game, and the last of them is the one test game as well.
  pub one_day_leaks :
      (df : List Game) (day : ℕ) (g : Game)
      → let rows = sort_values df in
        AllOn day rows
        → final rows ≡ some g
        → 0 < share_70 (length rows)
        → share_70 (length rows) < length rows
        → (s : Splits) × (compute_splits sort_values share_70 share_15 df ≡ some s)
          × (s.train_ids ≡ game_ids rows)
          × (s.val_ids ≡ [])
          × (s.test_ids ≡ g.game_id ∷ [])
  one_day_leaks df day g on last pos lt =
      let rows = sort_values df in
      let n = length rows in
      let (s, returned, trains, vals, tests) =
        with_ends_returns n (n - 1) rows (omega arith) (omega arith) (omega arith) (omega arith) in
      let none_left : n - 1 - n ≡ 0 = omega arith in
      (
        s,
        compute_splits_lem sort_values share_70 share_15 df
              (day_clean-AllOn day (share_70 n) rows on pos lt)
              (val_end_clamped n (share_15 n) rows refl)
            ∙ returned,
        trains ∙ ap game_ids (take-length rows),
        vals ∙ ap (λ (k : ℕ). game_ids (take k (drop n rows))) none_left,
        tests ∙ ap game_ids (drop-final rows last),
      )
