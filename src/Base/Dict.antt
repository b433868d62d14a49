-- ===== src/Base/Dict.antt =====
-- Python's `dict`, as the list of its entries in the order of insertion.
use mathlib.Core.Path.{◌≡◌, refl}
use mathlib.Core.Option.{Option, none, some}
use mathlib.Core.List.{List, [], ◌∷◌}
use native.Mathlib.Omega.{arith}
use ject6_4th_ai_analyzer.Base.Tests.{if◌then◌else◌}
use ject6_4th_ai_analyzer.Base.Eq.{◌==◌, text_eq}
use ject6_4th_ai_analyzer.Base.Chars.{Text}
use ject6_4th_ai_analyzer.Base.Eq.{list_beq_iff}

abbrev pub Dict {ℓ} : Type ℓ → Type ℓ
Dict V = List (Text × V)

module _ {ℓ} {V : Type ℓ} where
  -- `d.get(k)`
  unfoldable pub lookup : Text → Dict V → Option V
  lookup k [] = none
  lookup k ((j, v) ∷ d) = if j == k then some v else lookup k d

  -- `d[k] = v`
  unfoldable pub insert : Text → V → Dict V → Dict V
  insert k v [] = (k, v) ∷ []
  insert k v ((j, w) ∷ d) = if j == k then (k, v) ∷ d else (j, w) ∷ insert k v d

  pub lookup-insert :
      (k j : Text) (v : V) (d : Dict V)
      → lookup j (insert k v d) ≡ (if k == j then some v else lookup j d)
  unfolding lookup insert
  lookup-insert k j v [] = refl
  lookup-insert k j v ((i, w) ∷ d) =
      ground (arith, list_beq_iff k j, list_beq_iff i k, list_beq_iff i j, lookup-insert k j v d)
