-- ===== src/Splits/Cuts.antt =====
-- research/splits/lock.py: cuts of a chronological table that divide no day.
use kalshi.Common.{
  ℕ, zero, suc, ◌+◌, ◌≤◌, ◌<◌, ◌≡◌, inl, inr, refl, sym, ap, ◌∙◌, false, leb, leb→le, ◌==◌, List,
  [], ◌∷◌, ◌++◌, length, none, some, arith, Option-cases, Bool-cases,
}
use kalshi.Splits.{Game, iloc, final, take, drop, count_until, day_clean}

-- Every row's date is at most, or after, the day.
abbrev pub AtMost : ℕ → List Game → Type 0
AtMost day [] = Unit
AtMost day (g ∷ gs) = (g.date ≤ day) × AtMost day gs

abbrev pub After : ℕ → List Game → Type 0
After day [] = Unit
After day (g ∷ gs) = (day < g.date) × After day gs

abbrev pub From : ℕ → List Game → Type 0
From day [] = Unit
From day (g ∷ gs) = (day ≤ g.date) × From day gs

abbrev pub IsChronological : List Game → Type 0
IsChronological [] = Unit
IsChronological (g ∷ gs) = From g.date gs × IsChronological gs

-- The cut at `k` divides no day.
abbrev pub IsClean : ℕ → List Game → Type 0
IsClean k rows = (day : ℕ) × AtMost day (take k rows) × After day (drop k rows)

pub take-drop : (k : ℕ) (rows : List Game) → take k rows ++ drop k rows ≡ rows
take-drop zero rows = refl
take-drop (suc k) [] = refl
take-drop (suc k) (g ∷ gs) = ap (◌∷◌ g) (take-drop k gs)

drop-nil : (k : ℕ) → drop k [] ≡ []
drop-nil zero = refl
drop-nil (suc k) = refl

pub drop-drop : (j k : ℕ) (rows : List Game) → drop j (drop k rows) ≡ drop (k + j) rows
drop-drop j zero rows = ap (λ (n : ℕ). drop n rows) (omega arith)
drop-drop j (suc k) [] = drop-nil j ∙ sym (drop-nil (suc k + j))
drop-drop j (suc k) (g ∷ gs) =
    let shift : suc (k + j) ≡ suc k + j = omega arith in
    drop-drop j k gs ∙ ap (λ (n : ℕ). drop n (g ∷ gs)) shift

After-of_From : (d e : ℕ) (rows : List Game) → d < e → From e rows → After d rows
After-of_From d e [] lt h = tt
After-of_From d e (g ∷ gs) lt (h, hs) = (omega arith, After-of_From d e gs lt hs)

count_until-After : (d : ℕ) (rows : List Game) → After d rows → count_until d rows ≡ 0
count_until-After d [] h = refl
count_until-After d (g ∷ gs) (h, hs) = ground (arith, count_until-After d gs hs)

-- The rows up to a day are a prefix.
pub AtMost-count_until :
    (d : ℕ) (rows : List Game) → IsChronological rows → AtMost d (take (count_until d rows) rows)
AtMost-count_until d [] c = tt
AtMost-count_until d (g ∷ gs) (from, c) = elim (Bool-cases (leb g.date d)) [
  | inl early ↦ rw early (leb→le g.date d early, AtMost-count_until d gs c)
  | inr late ↦
      rw (late, count_until-After d gs (After-of_From d g.date gs (ground (arith, late)) from)) tt
]

pub After-count_until :
    (d : ℕ) (rows : List Game) → IsChronological rows → After d (drop (count_until d rows) rows)
After-count_until d [] c = tt
After-count_until d (g ∷ gs) (from, c) = elim (Bool-cases (leb g.date d)) [
  | inl early ↦ rw early (After-count_until d gs c)
  | inr late ↦
      let rest : After d gs = After-of_From d g.date gs (ground (arith, late)) from in
      rw (late, count_until-After d gs rest) (ground (arith, late), rest)
]

From-iloc :
    (d i : ℕ) (rows : List Game) {a : Game} → From d rows → iloc i rows ≡ some a → d ≤ a.date
From-iloc d i [] h e = ground arith
From-iloc d zero (g ∷ gs) (h, hs) e = ground arith
From-iloc d (suc i) (g ∷ gs) (h, hs) e = From-iloc d i gs hs e

AtMost-iloc :
    (i : ℕ) (rows : List Game) {a : Game}
    → IsChronological rows
    → iloc i rows ≡ some a
    → AtMost a.date (take (suc i) rows)
AtMost-iloc i [] c e = ground arith
AtMost-iloc zero (g ∷ gs) c e = ground arith
AtMost-iloc (suc i) (g ∷ gs) (from, c) e = (From-iloc g.date i gs from e, AtMost-iloc i gs c e)

After-iloc :
    (i : ℕ) (rows : List Game) {a b : Game}
    → IsChronological rows
    → iloc i rows ≡ some a
    → iloc (suc i) rows ≡ some b
    → a.date == b.date ≡ false
    → After a.date (drop (suc i) rows)
After-iloc i [] c e next ne = tt
After-iloc zero (g ∷ []) c e next ne = tt
After-iloc zero (g ∷ h ∷ gs) {a} ((le, _), (from, _)) e next ne =
    let lt : a.date < h.date = ground arith in (lt, After-of_From a.date h.date gs lt from)
After-iloc (suc i) (g ∷ gs) (from, c) e next ne = After-iloc i gs c e next ne

pub iloc-total : (i : ℕ) (rows : List Game) → i < length rows → (a : Game) × (iloc i rows ≡ some a)
iloc-total i [] lt = ground arith
iloc-total zero (g ∷ gs) lt = (g, refl)
iloc-total (suc i) (g ∷ gs) lt = iloc-total i gs (omega arith)

pub final-total : (rows : List Game) → 0 < length rows → (a : Game) × (final rows ≡ some a)
final-total [] lt = ground arith
final-total (g ∷ []) lt = (g, refl)
final-total (g ∷ h ∷ gs) lt = final-total (h ∷ gs) (omega arith)

le_length_of_iloc : (i : ℕ) (rows : List Game) {a : Game} → iloc i rows ≡ some a → i < length rows
le_length_of_iloc i [] e = ground arith
le_length_of_iloc zero (g ∷ gs) e = omega arith
le_length_of_iloc (suc i) (g ∷ gs) e = omega (arith, le_length_of_iloc i gs e)

count_until-le : (d : ℕ) (rows : List Game) → count_until d rows ≤ length rows
count_until-le d [] = omega arith
count_until-le d (g ∷ gs) = ground (arith, count_until-le d gs)

le-count_until :
    (d k : ℕ) (rows : List Game) → AtMost d (take k rows) → k ≤ length rows → k ≤ count_until d rows
le-count_until d zero rows h le = omega arith
le-count_until d (suc k) [] h le = omega arith
le-count_until d (suc k) (g ∷ gs) (h, hs) le =
    ground (arith, le-count_until d k gs hs (omega arith))

After-none : (d i : ℕ) (rows : List Game) → iloc i rows ≡ none → After d (drop i rows)
After-none d zero [] e = tt
After-none d (suc i) [] e = tt
After-none d zero (g ∷ gs) e = ground arith
After-none d (suc i) (g ∷ gs) e = After-none d i gs e

day_clean-suc :
    (i : ℕ) (rows : List Game)
    → IsChronological rows
    → i < length rows
    → (n : ℕ) × (day_clean (suc i) rows ≡ some n) × (suc i ≤ n) × (n ≤ length rows) × IsClean n rows
unfolding day_clean
day_clean-suc i rows c lt =
    let (a, before) = iloc-total i rows lt in
    let early = AtMost-iloc i rows c before in
    elim (Option-cases (iloc (suc i) rows)) [
      | inl last ↦ (
        suc i,
        rw (before, last, day_clean) refl,
        omega arith,
        omega arith,
        (a.date, early, After-none a.date (suc i) rows last),
      )
      | inr (b, next) ↦ elim (Bool-cases (a.date == b.date)) [
        | inl same ↦ (
          count_until a.date rows,
          rw (before, next, same, day_clean) refl,
          le-count_until a.date (suc i) rows early (omega arith),
          count_until-le a.date rows,
          (a.date, AtMost-count_until a.date rows c, After-count_until a.date rows c),
        )
        | inr other ↦ (
          suc i,
          rw (before, next, other, day_clean) refl,
          omega arith,
          omega arith,
          (a.date, early, After-iloc i rows c before next other),
        )
      ]
    ]

-- A cut behind at least one row exists, lies no earlier than asked and divides no day.
pub day_clean_returns :
    (k : ℕ) (rows : List Game)
    → IsChronological rows
    → 0 < k
    → k ≤ length rows
    → (n : ℕ) × (day_clean k rows ≡ some n) × (k ≤ n) × (n ≤ length rows) × IsClean n rows
day_clean_returns zero rows c pos le = ground arith
day_clean_returns (suc i) rows c pos le = day_clean-suc i rows c (omega arith)
