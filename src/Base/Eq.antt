-- ===== src/Base/Eq.antt =====
-- Python's `==`, for the types whose equality the program tests.
use Prim.Native.Nat.{ℕ}
use mathlib.Core.Path.{◌≡◌, refl}
use mathlib.Core.Logic.{◌↔◌}
use mathlib.Core.Bool.{Bool, true, false, ◌&&◌}
use mathlib.Core.List.{List, [], ◌∷◌}
use native.Mathlib.Omega.{arith}
use ject6_4th_ai_analyzer.Base.Tests.{eqb}

abbrev pub list_beq : List ℕ → List ℕ → Bool
list_beq [] [] = true
list_beq (x ∷ xs) (y ∷ ys) = eqb x y && list_beq xs ys
list_beq _ _ = false

pub list_beq_iff : (xs ys : List ℕ) → (list_beq xs ys ≡ true) ↔ (xs ≡ ys)
list_beq_iff [] [] = (λ _. refl, λ _. refl)
list_beq_iff [] (y ∷ ys) = (λ h. cc, λ h. cc)
list_beq_iff (x ∷ xs) [] = (λ h. cc, λ h. cc)
list_beq_iff (x ∷ xs) (y ∷ ys) = ground (arith, list_beq_iff xs ys)

-- The test, and that it decides equality.
pub record Eq {ℓ} (A : Type ℓ) : Type ℓ where
  pub equals : A → A → Bool
  pub equals_iff : (x y : A) → (equals x y ≡ true) ↔ (x ≡ y)

-- Texts are compared code point by code point.
instance abbrev pub text_eq : Eq (List ℕ)
text_eq = record { equals = list_beq; equals_iff = list_beq_iff }

infix 50 ◌==◌
abbrev pub ◌==◌ {ℓ} : {T : Type ℓ} ⦃eq : Eq T⦄ → T → T → Bool
◌==◌ ⦃eq⦄ = eq.equals
