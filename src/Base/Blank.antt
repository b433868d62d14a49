-- ===== src/Base/Blank.antt =====
-- Texts with nothing but white space in them.
use mathlib.Core.Path.{◌≡◌, refl, ap, ◌∙◌, sym}
use mathlib.Core.Logic.{◌↔◌}
use mathlib.Core.Bool.{Bool, true, ◌&&◌}
use mathlib.Core.List.{[], ◌∷◌, ◌++◌, reverse, reverse-append}
use native.Mathlib.Omega.{arith}
use ject6_4th_ai_analyzer.Base.Chars.{Text, is_space, lstrip, strip}

abbrev pub blank : Text → Bool
blank [] = true
blank (c ∷ s) = is_space c && blank s

pub blank-append : (s t : Text) → blank (s ++ t) ≡ (blank s && blank t)
blank-append [] t = refl
blank-append (c ∷ s) t = ground (arith, blank-append s t)

pub blank-reverse : (s : Text) → blank (reverse s) ≡ blank s
blank-reverse [] = refl
blank-reverse (c ∷ s) =
    ap blank (reverse-append (c ∷ []) s)
    ∙ ground (arith, blank-append (reverse s) (c ∷ []), blank-reverse s)

blank-lstrip : (s : Text) → blank (lstrip s) ≡ blank s
unfolding lstrip
blank-lstrip [] = refl
blank-lstrip (c ∷ s) = ground (arith, blank-lstrip s)

lstrip-nil : (s : Text) → blank s ≡ true → lstrip s ≡ []
unfolding lstrip
lstrip-nil [] h = refl
lstrip-nil (c ∷ s) h = ground (arith, lstrip-nil s)

pub blank-strip : (s : Text) → blank (strip s) ≡ blank s
unfolding strip
blank-strip s =
    blank-reverse (lstrip (reverse (lstrip s)))
    ∙ blank-lstrip (reverse (lstrip s))
    ∙ blank-reverse (lstrip s)
    ∙ blank-lstrip s

-- `strip` leaves nothing exactly of the texts that are white space throughout.
pub strip-eq-nil_iff : (s : Text) → (strip s ≡ []) ↔ (blank s ≡ true)
strip-eq-nil_iff s = (
  λ e. sym (blank-strip s) ∙ ap blank e,
  λ b. unfold strip in ap (λ t. reverse (lstrip (reverse t))) (lstrip-nil s b),
)
