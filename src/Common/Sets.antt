-- ===== src/Common/Sets.antt =====
-- Python's set of strings: a list without repetition.
use Prim.Native.String.{String}
use Prim.Native.Nat.{suc, ◌≤◌}
use mathlib.Core.Path.{◌≡◌, sym, subst}
use mathlib.Core.Logic.{inl, inr}
use mathlib.Core.Bool.{Bool, true, false, ◌||◌}
use mathlib.Core.List.{List, [], ◌∷◌}
use native.Mathlib.Omega.{arith}
use text.Mathlib.Text.{◌==◌ as str_eq}
use text.Mathlib.TextEquality.{eq_iff}
use text.Mathlib.TextPositions.{eq_refl}
use kalshi.Common.Tests.{if◌then◌else◌, Bool-cases}
use kalshi.Common.Lists.{length}

-- `i in ids`
abbrev pub contains : String → List String → Bool
contains i [] = false
contains i (j ∷ js) = str_eq j i || contains i js

-- `ids.add(i)`
abbrev pub include : String → List String → List String
include i ids = if contains i ids then ids else i ∷ ids

pub contains-include :
    (k j : String) (set : List String)
    → contains j (include k set) ≡ (if str_eq k j then true else contains j set)
contains-include k j set = elim (Bool-cases (str_eq k j)) [
  | inl same ↦
      subst
        (λ (i : String). contains i (include k set) ≡ (if str_eq k i then true else contains i set))
        ((eq_iff k j).0 same) (ground (arith, eq_refl k))
  | inr other ↦ ground (arith, other)
]

abbrev pub IsDistinct : List String → Type 0
IsDistinct [] = Unit
IsDistinct (i ∷ is) = (contains i is ≡ false) × IsDistinct is

pub include-IsDistinct :
    (i : String) (ids : List String) → IsDistinct ids → IsDistinct (include i ids)
include-IsDistinct i ids h = elim (Bool-cases (contains i ids)) [
  | inl known ↦ rw known h
  | inr fresh ↦ rw fresh (fresh, h)
]

abbrev pub IsSubset : List String → List String → Type 0
IsSubset xs ys = (i : String) → contains i xs ≡ true → contains i ys ≡ true

without : String → List String → List String
without x [] = []
without x (y ∷ ys) = let rest = without x ys in if str_eq y x then ys else y ∷ rest

length-without :
    (x : String) (ys : List String) → contains x ys ≡ true → length ys ≡ suc (length (without x ys))
unfolding without
length-without x [] h = ground arith
length-without x (y ∷ ys) h = ground (arith, length-without x ys)

contains-without :
    (x i : String) (ys : List String)
    → str_eq x i ≡ false
    → contains i ys ≡ true
    → contains i (without x ys) ≡ true
unfolding without
contains-without x i [] ne h = h
contains-without x i (y ∷ ys) ne h =
    ground (arith, contains-without x i ys ne, eq_iff y x, eq_iff y i, eq_iff x i)

-- A set inside another is no larger.
pub length-IsSubset : (xs ys : List String) → IsDistinct xs → IsSubset xs ys → length xs ≤ length ys
length-IsSubset [] ys h sub = omega arith
length-IsSubset (x ∷ xs) ys (fresh, h) sub =
    let here : contains x ys ≡ true = sub x (ground (arith, eq_refl x)) in
    let rest : IsSubset xs (without x ys) = (λ (i : String) (known : contains i xs ≡ true).
      elim (Bool-cases (str_eq x i)) [
        | inl same ↦
            let known' : contains x xs ≡ true =
              subst (λ (j : String). contains j xs ≡ true) (sym ((eq_iff x i).0 same)) known in
            ground (arith, known', fresh)
        | inr other ↦ contains-without x i ys other (sub i (ground (arith, known)))
      ]) in
    omega (arith, length-without x ys here, length-IsSubset xs (without x ys) h rest)
