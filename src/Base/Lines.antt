-- ===== src/Base/Lines.antt =====
-- Lines: joined by a blank line they are split again, and no line has a line feed.
use mathlib.Core.Path.{◌≡◌, refl, sym, ap, ◌∙◌}
use mathlib.Core.Logic.{inl, inr}
use mathlib.Core.Bool.{Bool, true, false, ◌&&◌}
use mathlib.Core.List.{List, [], ◌∷◌, ◌++◌, reverse_aux, reverse-reverse, append_assoc, append-nil}
use Prim.Native.Nat.{ℕ}
use native.Mathlib.Omega.{arith}
use ject6_4th_ai_analyzer.Base.Tests.{eqb, eqb_iff, Bool-cases}
use ject6_4th_ai_analyzer.Base.Lists.{All, All-reverse}
use ject6_4th_ai_analyzer.Base.Chars.{
  Text, codes, is_space, lstrip, strip, is_line_end, lines_from, splitlines, join, split_from,
  split, starts_with,
}
use ject6_4th_ai_analyzer.Base.Blank.{blank, blank-reverse}

-- No line feed in it.
abbrev pub IsOneLine : Text → Type 0
IsOneLine = All (λ c. eqb 10 c ≡ false)

abbrev blank_line_between : Text
blank_line_between = codes "\n\n"

split_from-line :
    (piece p s : Text)
    → IsOneLine p
    → split_from blank_line_between 0 piece (p ++ s)
      ≡ split_from blank_line_between 0 (reverse_aux p piece) s
unfolding split_from starts_with
split_from-line piece [] s h = refl
split_from-line piece (c ∷ p) s (e, h) = rw e (split_from-line (c ∷ piece) p s h)

split_from-join :
    (p : Text) (ps : List Text)
    → IsOneLine p
    → All IsOneLine ps
    → split_from blank_line_between 0 [] (join blank_line_between (p ∷ ps)) ≡ p ∷ ps
unfolding split_from starts_with join
split_from-join p [] h k =
    ap (split_from blank_line_between 0 []) (sym (append-nil p))
    ∙ split_from-line [] p [] h
    ∙ ap (λ t. t ∷ []) (reverse-reverse p)
split_from-join p (q ∷ ps) h (k, ks) =
    let rest = join blank_line_between (q ∷ ps) in
    ap (split_from blank_line_between 0 []) (append_assoc p blank_line_between rest)
    ∙ split_from-line [] p (blank_line_between ++ rest) h
    ∙ ap (λ t. t ∷ split_from blank_line_between 0 [] rest) (reverse-reverse p)
    ∙ ap (λ t. p ∷ t) (split_from-join q ps k ks)

pub split-join :
    (p : Text) (ps : List Text)
    → IsOneLine p
    → All IsOneLine ps
    → split (codes "\n\n") (join (codes "\n\n") (p ∷ ps)) ≡ p ∷ ps
unfolding split
split-join p ps h k = split_from-join p ps h k

All-lstrip : (P : ℕ → Type 0) (s : Text) → All P s → All P (lstrip s)
unfolding lstrip
All-lstrip P [] h = tt
All-lstrip P (c ∷ s) (h, hs) = elim (Bool-cases (is_space c)) [
  | inl e ↦ rw e (All-lstrip P s hs)
  | inr e ↦ rw e (h, hs)
]

pub All-strip : (P : ℕ → Type 0) (s : Text) → All P s → All P (strip s)
unfolding strip
All-strip P s h = All-reverse P _ (All-lstrip P _ (All-reverse P _ (All-lstrip P s h)))

no_line_feed : (c : ℕ) → is_line_end c ≡ false → eqb 10 c ≡ false
unfolding is_line_end
no_line_feed c h = elim (Bool-cases (eqb 10 c)) [
  | inl e ↦ let false_true = rw (sym ((eqb_iff 10 c).0 e)) at h in cc
  | inr e ↦ e
]

lines_from-OneLine :
    (after_cr : Bool) (piece s : Text)
    → IsOneLine piece
    → All IsOneLine (lines_from after_cr piece s)
unfolding lines_from
lines_from-OneLine after_cr [] [] h = tt
lines_from-OneLine after_cr (p ∷ piece) [] h = (All-reverse _ (p ∷ piece) h, tt)
lines_from-OneLine after_cr piece (c ∷ s) h = elim (Bool-cases (after_cr && eqb c 10)) [
  | inl e ↦ rw e (lines_from-OneLine false piece s h)
  | inr e ↦ elim (Bool-cases (is_line_end c)) [
    | inl end ↦ rw (e, end) (All-reverse _ piece h, lines_from-OneLine (eqb c 13) [] s tt)
    | inr inside ↦
        rw (e, inside) (lines_from-OneLine false (c ∷ piece) s (no_line_feed c inside, h))
  ]
]

-- No line has a line feed in it.
pub splitlines-OneLine : (s : Text) → All IsOneLine (splitlines s)
unfolding splitlines
splitlines-OneLine s = lines_from-OneLine false [] s tt

abbrev pub all_blank : List Text → Bool
all_blank [] = true
all_blank (s ∷ ss) = blank s && all_blank ss

line_end-IsSpace : (c : ℕ) → is_line_end c ≡ true → is_space c ≡ true
unfolding is_line_end is_space
line_end-IsSpace c h = ground arith

line_feed-IsSpace : (c : ℕ) (b : Bool) → (b && eqb c 10) ≡ true → is_space c ≡ true
line_feed-IsSpace c b h =
    let e : eqb c 10 ≡ true = ground arith in rw ((eqb_iff c 10).0 e) (unfold is_space in refl)

swapped : (a b c : Bool) → ((a && b) && c) ≡ (b && (a && c))
swapped a b c = ground arith

lines_from-blank :
    (after_cr : Bool) (piece s : Text)
    → all_blank (lines_from after_cr piece s) ≡ (blank piece && blank s)
unfolding lines_from
lines_from-blank after_cr [] [] = refl
lines_from-blank after_cr (p ∷ piece) [] = let e = blank-reverse (p ∷ piece) in ground (arith, e)
lines_from-blank after_cr piece (c ∷ s) = elim (Bool-cases (after_cr && eqb c 10)) [
  | inl e ↦ rw (e, line_feed-IsSpace c after_cr e) (lines_from-blank false piece s)
  | inr e ↦ elim (Bool-cases (is_line_end c)) [
    | inl end ↦
        rw (e, end, line_end-IsSpace c end, blank-reverse piece, lines_from-blank (eqb c 13) [] s)
          refl
    | inr inside ↦
        rw (e, inside, lines_from-blank false (c ∷ piece) s)
          (swapped (is_space c) (blank piece) (blank s))
  ]
]

-- The lines are all blank exactly if the text is.
pub splitlines-blank : (s : Text) → all_blank (splitlines s) ≡ blank s
unfolding splitlines
splitlines-blank s = lines_from-blank false [] s
