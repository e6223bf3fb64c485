-- ===== src/Books/Ladders.antt =====
-- kalshi_arbitrage/ws_books.py: what the mirror serves, and the order of its ladders.
use text.Mathlib.Text.{◌==◌ as str_eq}
use text.Mathlib.TextPositions.{eq_refl}
use kalshi.Common.{
  ◌≡◌, refl, inl, inr, true, false, none, some, List, [], ◌∷◌, String, lookup, lookup-insert,
  lookup-remove, arith, if◌then◌else◌, Bool-cases,
}
use kalshi.Float.{Float, FloatOrder}
use kalshi.Books.{
  Level, BookMirror, before, insert_level, sort_onto, positive, ladder_of, set_asks, get_asks, drop,
  clear,
}

module _ {A : Type 0} ⦃fl : Float A⦄ where
  open fl use {sub, lt, le, decimal}

  pub get_asks-set_asks :
      (now later max_age : A) (key other : String) (levels : List (Level A)) (m : BookMirror A)
      → str_eq key other ≡ false
      → (get_asks later key max_age (set_asks now key levels m)
          ≡ (if lt max_age (sub later now) then none else some (ladder_of levels)))
        × (get_asks later other max_age (set_asks now key levels m)
            ≡ get_asks later other max_age m)
        × (get_asks later key max_age (drop key m) ≡ none)
        × (get_asks later other max_age (drop key m) ≡ get_asks later other max_age m)
        × (get_asks later key max_age (clear m) ≡ none)
  unfolding get_asks set_asks drop clear lookup
  get_asks-set_asks now later max_age key other levels m ne =
      let kept_ts = lookup-insert key other now m.ts in
      let kept_asks = lookup-insert key other (ladder_of levels) m.asks in
      let own_ts = lookup-insert key key now m.ts in
      let own_asks = lookup-insert key key (ladder_of levels) m.asks in
      let same = eq_refl key in
      (
        ground (arith, own_ts, own_asks, same),
        ground (arith, kept_ts, kept_asks, ne),
        ground (arith, lookup-remove key key m.ts, same),
        ground (arith, lookup-remove key other m.ts, lookup-remove key other m.asks, ne),
        refl,
      )

  abbrev pub AtLeast : A → List (Level A) → Type 0
  AtLeast p [] = Unit
  AtLeast p ((q, s) ∷ ls) = (le p q ≡ true) × AtLeast p ls

  -- Prices do not fall along the ladder.
  abbrev pub IsAscending : List (Level A) → Type 0
  IsAscending [] = Unit
  IsAscending ((p, s) ∷ ls) = AtLeast p ls × IsAscending ls

  abbrev pub IsPositive : List (Level A) → Type 0
  IsPositive [] = Unit
  IsPositive ((p, s) ∷ ls) = (lt (decimal 0 1) s ≡ true) × IsPositive ls

  -- No price is NaN.
  abbrev pub HasPrices : List (Level A) → Type 0
  HasPrices [] = Unit
  HasPrices ((p, s) ∷ ls) = (le p p ≡ true) × HasPrices ls

  HasPrices-positive : (ls : List (Level A)) → HasPrices ls → HasPrices (positive ls)
  HasPrices-positive [] h = tt
  HasPrices-positive ((p, s) ∷ ls) (h, hs) = elim (Bool-cases (lt (decimal 0 1) s)) [
    | inl pos ↦ rw pos (h, HasPrices-positive ls hs)
    | inr not_pos ↦ rw not_pos (HasPrices-positive ls hs)
  ]

  IsPositive-insert_level :
      (p s : A) (ls : List (Level A))
      → lt (decimal 0 1) s ≡ true
      → IsPositive ls
      → IsPositive (insert_level (p, s) ls)
  IsPositive-insert_level p s [] h hs = (h, tt)
  IsPositive-insert_level p s ((q, t) ∷ ls) h (k, ks) = elim (Bool-cases (before (p, s) (q, t))) [
    | inl first ↦ rw first (h, (k, ks))
    | inr behind ↦ rw behind (k, IsPositive-insert_level p s ls h ks)
  ]

  IsPositive-sort_onto :
      (sorted ls : List (Level A)) → IsPositive sorted → IsPositive (sort_onto sorted (positive ls))
  IsPositive-sort_onto sorted [] h = h
  IsPositive-sort_onto sorted ((p, s) ∷ ls) h = elim (Bool-cases (lt (decimal 0 1) s)) [
    | inl pos ↦ rw pos (
        IsPositive-sort_onto (insert_level (p, s) sorted) ls
          (IsPositive-insert_level p s sorted pos h))
    | inr not_pos ↦ rw not_pos (IsPositive-sort_onto sorted ls h)
  ]

  module _ (o : FloatOrder fl) where
    AtLeast-trans : (p q : A) (ls : List (Level A)) → le p q ≡ true → AtLeast q ls → AtLeast p ls
    AtLeast-trans p q [] h hs = tt
    AtLeast-trans p q ((r, s) ∷ ls) h (k, ks) = (o.le_trans p q r h k, AtLeast-trans p q ls h ks)

    AtLeast-insert_level :
        (p q s : A) (ls : List (Level A))
        → le p q ≡ true
        → AtLeast p ls
        → AtLeast p (insert_level (q, s) ls)
    AtLeast-insert_level p q s [] h hs = (h, tt)
    AtLeast-insert_level p q s ((r, t) ∷ ls) h (k, ks) = elim (Bool-cases (before (q, s) (r, t))) [
      | inl first ↦ rw first (h, (k, ks))
      | inr behind ↦ rw behind (k, AtLeast-insert_level p q s ls h ks)
    ]

    le_of_before :
        (p s q t : A)
        → le p p ≡ true
        → le q q ≡ true
        → ((before (p, s) (q, t) ≡ true) → le p q ≡ true)
          × ((before (p, s) (q, t) ≡ false) → le q p ≡ true)
    le_of_before p s q t pp qq = (
      λ first. ground (arith, o.le_of_lt p q, first),
      λ behind. ground (arith, o.le_of_not_lt p q pp qq, behind),
    )

    IsAscending-insert_level :
        (p s : A) (ls : List (Level A))
        → le p p ≡ true
        → HasPrices ls
        → IsAscending ls
        → IsAscending (insert_level (p, s) ls)
    IsAscending-insert_level p s [] h hs a = (tt, tt)
    IsAscending-insert_level p s ((q, t) ∷ ls) h (k, ks) (a, rise) =
        let (first_le, behind_le) = le_of_before p s q t h k in
        elim (Bool-cases (before (p, s) (q, t))) [
          | inl first ↦
              let below = first_le first in
              rw first ((below, AtLeast-trans p q ls below a), (a, rise))
          | inr behind ↦ rw behind (
            AtLeast-insert_level q p s ls (behind_le behind) a,
            IsAscending-insert_level p s ls h ks rise,
          )
        ]

    HasPrices-insert_level :
        (p s : A) (ls : List (Level A))
        → le p p ≡ true
        → HasPrices ls
        → HasPrices (insert_level (p, s) ls)
    HasPrices-insert_level p s [] h hs = (h, tt)
    HasPrices-insert_level p s ((q, t) ∷ ls) h (k, ks) = elim (Bool-cases (before (p, s) (q, t))) [
      | inl first ↦ rw first (h, (k, ks))
      | inr behind ↦ rw behind (k, HasPrices-insert_level p s ls h ks)
    ]

    IsAscending-sort_onto :
        (sorted ls : List (Level A))
        → HasPrices sorted
        → HasPrices ls
        → IsAscending sorted
        → IsAscending (sort_onto sorted ls)
    IsAscending-sort_onto sorted [] hs k a = a
    IsAscending-sort_onto sorted ((p, s) ∷ ls) hs (k, ks) a =
        IsAscending-sort_onto (insert_level (p, s) sorted) ls
          (HasPrices-insert_level p s sorted k hs) ks (IsAscending-insert_level p s sorted k hs a)

    -- A published ladder has no level without size, and its prices, none of them NaN, do not
    -- fall along it, so that its first level is the best ask.
    pub ladder_ascends :
        (levels : List (Level A))
        → HasPrices levels
        → IsAscending (ladder_of levels) × IsPositive (ladder_of levels)
    unfolding ladder_of
    ladder_ascends levels h = (
      IsAscending-sort_onto [] (positive levels) tt (HasPrices-positive levels h) tt,
      IsPositive-sort_onto [] levels tt,
    )
