-- ===== src/Common/Dicts.antt =====
-- Python's dict with string keys: an association list in insertion order, no key twice.
use Prim.Native.String.{String}
use mathlib.Core.Path.{◌≡◌, refl}
use mathlib.Core.Option.{Option, none, some}
use mathlib.Core.List.{List, [], ◌∷◌}
use native.Mathlib.Omega.{arith}
use text.Mathlib.Text.{◌==◌ as str_eq}
use text.Mathlib.TextEquality.{eq_iff}
use kalshi.Common.Tests.{if◌then◌else◌}

abbrev pub Dict {ℓ} : Type ℓ → Type ℓ
Dict V = List (String × V)

module _ {ℓ} {V : Type ℓ} where
  -- `d.get(key)`
  unfoldable pub lookup : String → Dict V → Option V
  lookup key [] = none
  lookup key ((own, held) ∷ entries) =
      let later = lookup key entries in if str_eq own key then some held else later

  -- `d[key] = value`
  unfoldable pub insert : String → V → Dict V → Dict V
  insert key value [] = (key, value) ∷ []
  insert key value ((own, held) ∷ entries) =
      let later = insert key value entries in
      if str_eq own key then (key, value) ∷ entries else (own, held) ∷ later

  -- `d.pop(key, None)`
  unfoldable pub remove : String → Dict V → Dict V
  remove key [] = []
  remove key ((own, held) ∷ entries) =
      let later = remove key entries in if str_eq own key then later else (own, held) ∷ later

  pub lookup-insert :
      (key other : String) (value : V) (entries : Dict V)
      → lookup other (insert key value entries)
        ≡ (if str_eq key other then some value else lookup other entries)
  unfolding lookup insert
  lookup-insert key other value [] = refl
  lookup-insert key other value ((own, held) ∷ entries) =
      let later = lookup-insert key other value entries in
      ground (arith, later, eq_iff own key, eq_iff own other, eq_iff key other)

  pub lookup-remove :
      (key other : String) (entries : Dict V)
      → lookup other (remove key entries)
        ≡ (if str_eq key other then none else lookup other entries)
  unfolding lookup remove
  lookup-remove key other [] = ground arith
  lookup-remove key other ((own, held) ∷ entries) =
      let later = lookup-remove key other entries in
      ground (arith, later, eq_iff own key, eq_iff own other, eq_iff key other)
