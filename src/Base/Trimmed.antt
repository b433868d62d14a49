-- ===== src/Base/Trimmed.antt =====
-- Texts that `strip` leaves as they are.
use mathlib.Core.Path.{◌≡◌, refl, sym, ap, subst, ◌∙◌}
use mathlib.Core.Logic.{◌⊎◌, inl, inr}
use mathlib.Core.Bool.{false}
use mathlib.Core.List.{List, [], ◌∷◌, ◌++◌, reverse, reverse-append, reverse-reverse}
use ject6_4th_ai_analyzer.Base.Tests.{Bool-cases}
use ject6_4th_ai_analyzer.Base.Lists.{All}
use ject6_4th_ai_analyzer.Base.Chars.{Text, is_space, lstrip, strip, join}

-- The first character is none of white space.
abbrev pub StartsDark : Text → Type 0
StartsDark [] = ⊥
StartsDark (c ∷ s) = is_space c ≡ false

-- Nor is the last one.
abbrev pub IsTrimmed : Text → Type 0
IsTrimmed s = StartsDark s × StartsDark (reverse s)

StartsDark-append : (s t : Text) → StartsDark s → StartsDark (s ++ t)
StartsDark-append [] t h = elim h [ ]
StartsDark-append (c ∷ s) t h = h

lstrip-dark : (s : Text) → StartsDark s → lstrip s ≡ s
unfolding lstrip
lstrip-dark [] h = refl
lstrip-dark (c ∷ s) h = rw h

pub strip-trimmed : (s : Text) → IsTrimmed s → strip s ≡ s
unfolding strip
strip-trimmed s (h, k) =
    ap (λ t. reverse (lstrip (reverse t))) (lstrip-dark s h)
    ∙ ap reverse (lstrip-dark (reverse s) k)
    ∙ reverse-reverse s

lstrip-cases : (s : Text) → (lstrip s ≡ []) ⊎ StartsDark (lstrip s)
unfolding lstrip
lstrip-cases [] = inl refl
lstrip-cases (c ∷ s) = elim (Bool-cases (is_space c)) [
  | inl e ↦ rw e (lstrip-cases s)
  | inr e ↦ inr (rw e e)
]

-- What `lstrip` leaves is a rest of the text.
lstrip_rest : (s : Text) → (w : Text) × (s ≡ w ++ lstrip s)
unfolding lstrip
lstrip_rest [] = ([], refl)
lstrip_rest (c ∷ s) = elim (Bool-cases (is_space c)) [
  | inl e ↦ let (w, q) = lstrip_rest s in (c ∷ w, rw e (ap (λ t. c ∷ t) q))
  | inr e ↦ ([], rw e refl)
]

start_kept : (v r u : Text) → u ≡ v ++ r → StartsDark u → (v ≡ []) ⊎ StartsDark v
start_kept [] r u e h = inl refl
start_kept (c ∷ v) r u e h = inr (subst StartsDark e h)

trim_cases :
    (u : Text)
    → StartsDark u
    → let v = lstrip (reverse u) in (reverse v ≡ []) ⊎ IsTrimmed (reverse v)
trim_cases u h =
    let (w, q) = lstrip_rest (reverse u) in
    let e : u ≡ reverse (lstrip (reverse u)) ++ reverse w =
      sym (reverse-reverse u) ∙ ap reverse q ∙ reverse-append w (lstrip (reverse u)) in
    elim (start_kept (reverse (lstrip (reverse u))) (reverse w) u e h) [
      | inl n ↦ inl n
      | inr d ↦ elim (lstrip-cases (reverse u)) [
        | inl n ↦ inl (ap reverse n)
        | inr k ↦ inr (d, subst StartsDark (sym (reverse-reverse (lstrip (reverse u)))) k)
      ]
    ]

-- `strip` leaves nothing, or a trimmed text.
pub strip-cases : (s : Text) → (strip s ≡ []) ⊎ IsTrimmed (strip s)
unfolding strip
strip-cases s = elim (lstrip-cases s) [
  | inl n ↦ inl (ap (λ t. reverse (lstrip (reverse t))) n ∙ unfold lstrip in refl)
  | inr d ↦ trim_cases (lstrip s) d
]

pub join-IsTrimmed :
    (sep p : Text) (ps : List Text) → IsTrimmed p → All IsTrimmed ps → IsTrimmed (join sep (p ∷ ps))
unfolding join
join-IsTrimmed sep p [] h k = h
join-IsTrimmed sep p (q ∷ ps) h (k, ks) =
    let rest = join sep (q ∷ ps) in
    let back = reverse-append (p ++ sep) rest in
    (
      StartsDark-append (p ++ sep) rest (StartsDark-append p sep h.0),
      subst StartsDark (sym back)
          (StartsDark-append (reverse rest) (reverse (p ++ sep)) (join-IsTrimmed sep q ps k ks).1),
    )
