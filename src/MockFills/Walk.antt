-- ===== src/MockFills/Walk.antt =====
-- kalshi_arbitrage/mock_execution.py: what a walk of a book takes from it.
use kalshi.Common.{◌≡◌, inl, inr, true, Bool, List, [], ◌∷◌, arith, Bool-cases}
use kalshi.Float.{Float, FloatOrder, min}
use kalshi.MockFills.{Level, insert_level, sort_levels, walk, fill_from_asks, fill_from_bids}

-- A predicate holds of every level of a list.
unfoldable pub All : {A : Type 0} → (Level A → Type 0) → List (Level A) → Type 0
All P [] = Unit
All P (l ∷ ls) = P l × All P ls

module _ {A : Type 0} ⦃fl : Float A⦄ (order : FloatOrder fl) (P : A → A → Type 0) where
  open fl use {le, lt, decimal}

  -- The level has some size at most which `P` allows.
  abbrev Allows : Level A → Type 0
  Allows l = P l.price l.size

  -- The fill is for a positive size that some allowed level of its price offers.
  abbrev pub Taken : Level A → Type 0
  Taken f = (size : A) × P f.price size × (lt (decimal 0 1) f.size ≡ true) × (le f.size size ≡ true)

  insert_level-All :
      (before : A → A → Bool) (l : Level A) (ls : List (Level A))
      → Allows l
      → All Allows ls
      → All Allows (insert_level before l ls)
  unfolding All
  insert_level-All before l [] p ps = (p, tt)
  insert_level-All before l (k ∷ ks) p (q, qs) = elim (Bool-cases (before l.price k.price)) [
    | inl e ↦ rw e (p, (q, qs))
    | inr e ↦ rw e (q, insert_level-All before l ks p qs)
  ]

  sort_levels-All :
      (before : A → A → Bool) (ls : List (Level A))
      → All Allows ls
      → All Allows (sort_levels before ls)
  unfolding All sort_levels
  sort_levels-All before [] ps = tt
  sort_levels-All before (l ∷ ls) (p, ps) =
      insert_level-All before l _ p (sort_levels-All before ls ps)

  min-le : (a b : A) → lt (decimal 0 1) (min a b) ≡ true → le (min a b) a ≡ true
  min-le a b h = ground (
    arith,
    order.le_of_lt b a,
    order.le_of_lt (decimal 0 1) a,
    order.le_refl_right (decimal 0 1) a,
  )

  walk-All :
      (ls : List (Level A)) (remaining : A) → All Allows ls → All Taken (walk ls remaining).fills
  unfolding All walk
  walk-All [] remaining ps = tt
  walk-All (l ∷ ls) remaining (p, ps) =
      let take = min l.size remaining in
      elim (Bool-cases (le remaining (decimal 0 1))) [
        | inl done ↦ rw done tt
        | inr e ↦ elim (Bool-cases (lt (decimal 0 1) take)) [
          | inl h ↦
              rw (e, h)
                ((l.size, p, h, min-le l.size remaining h), walk-All ls (fl.sub remaining take) ps)
          | inr h ↦ rw (e, h) (walk-All ls remaining ps)
        ]
      ]

  -- Every fill of a market order, on either book, is for a positive size at the price of a level of
  -- that book, and not larger than that level, whatever the target is.
  pub market_fills_within :
      (book : List (Level A)) (target : A)
      → All Allows book
      → All Taken (fill_from_asks book target).0 × All Taken (fill_from_bids book target).0
  unfolding fill_from_asks fill_from_bids
  market_fills_within book target ps = (
    walk-All _ target (sort_levels-All le book ps),
    walk-All _ target (sort_levels-All (λ a b. le b a) book ps),
  )
