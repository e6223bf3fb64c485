-- ===== src/Books.antt =====
-- kalshi_arbitrage/ws_books.py: the BookMirror, live ask ladders by instrument with a timestamp and
-- a dirty set. The feeds that fill it are in Polymarket and Kalshi, the mirror's laws in Ladders; the
-- lock makes every method one step.
pub mod Polymarket
pub mod Kalshi
pub mod Feed
pub mod Ladders
pub mod Changes
pub mod InSync
pub mod Dirty
use text.Mathlib.Text.{◌==◌ as str_eq}
use kalshi.Common.{
  ℕ, Bool, true, false, ◌&&◌, ◌||◌, not, Option, none, some, List, [], ◌∷◌, String, Dict, lookup,
  insert, remove, include, length, if◌then◌else◌,
}
use kalshi.Float.{Float, max}

-- `(price, size)`
abbrev pub Level : Type 0 → Type 0
Level A = A × A

pub record BookMirror (A : Type 0) : Type 0 where
  pub asks : Dict (List (Level A))
  pub ts : Dict A
  pub dirty : List String

module _ {A : Type 0} where
  abbrev pub empty_mirror : BookMirror A
  empty_mirror = record { asks = []; ts = []; dirty = [] }

  unfoldable pub drop : String → BookMirror A → BookMirror A
  drop key m = record m { asks = remove key m.asks; ts = remove key m.ts }

  unfoldable pub clear : BookMirror A → BookMirror A
  clear m = record m { asks = []; ts = [] }

  -- The set, and the mirror after.
  unfoldable pub pop_dirty : BookMirror A → List String × BookMirror A
  pop_dirty m = (m.dirty, record m { dirty = [] })

  abbrev pub or_empty : Option (List (Level A)) → List (Level A)
  or_empty none = []
  or_empty (some ladder) = ladder

module _ {A : Type 0} ⦃fl : Float A⦄ where
  open fl use {sub, lt, le, decimal}

  -- Python's order on pairs of floats.
  abbrev pub before : Level A → Level A → Bool
  before (p, s) (q, t) = lt p q || (le p q && le q p && lt s t)

  -- Python's sort is stable: an equal level goes behind.
  abbrev pub insert_level : Level A → List (Level A) → List (Level A)
  insert_level l [] = l ∷ []
  insert_level l (k ∷ ks) =
      let rest = insert_level l ks in if before l k then l ∷ k ∷ ks else k ∷ rest

  abbrev pub sort_onto : List (Level A) → List (Level A) → List (Level A)
  sort_onto sorted [] = sorted
  sort_onto sorted (l ∷ ls) = sort_onto (insert_level l sorted) ls

  abbrev pub positive : List (Level A) → List (Level A)
  positive [] = []
  positive ((p, s) ∷ ls) =
      let rest = positive ls in if lt (decimal 0 1) s then (p, s) ∷ rest else rest

  unfoldable pub ladder_of : List (Level A) → List (Level A)
  ladder_of levels = sort_onto [] (positive levels)

  unfoldable pub set_asks : A → String → List (Level A) → BookMirror A → BookMirror A
  unfolding ladder_of
  set_asks now key levels m = record {
    asks = insert key (ladder_of levels) m.asks;
    ts = insert key now m.ts;
    dirty = include key m.dirty;
  }

  unfoldable pub get_asks : A → String → A → BookMirror A → Option (List (Level A))
  get_asks now key max_age m = elim (lookup key m.ts) [
    | none ↦ none
    | some ts ↦ if lt max_age (sub now ts) then none else some (or_empty (lookup key m.asks))
  ]

  abbrev pub oldest : A → A → Dict A → A
  oldest now best [] = best
  oldest now best ((k, t) ∷ rest) = oldest now (max best (sub now t)) rest

  -- `books` and `max_age`
  abbrev pub stats : A → BookMirror A → ℕ × A
  stats now m =
      (length m.asks, elim m.ts [ [] ↦ decimal 0 1 | (k, t) ∷ rest ↦ oldest now (sub now t) rest ])
