-- ===== src/Base/Decimal/RoundTrip.antt =====
-- `int(str(n))` gives `n` back.
use Prim.Native.Nat.{ℕ, zero, suc, ◌+◌, ◌-◌, ◌*◌, ◌/◌, ◌%◌, ◌<◌, ◌≤◌}
use mathlib.Core.Path.{◌≡◌, refl, ap, ◌∙◌}
use mathlib.Core.Logic.{inl, inr}
use mathlib.Core.Bool.{Bool, true, false}
use mathlib.Core.Option
use mathlib.Core.Option.{Option, none, some}
use mathlib.Core.List.{[], ◌∷◌, reverse, reverse-reverse}
use native.Mathlib.Omega.{arith}
use ject6_4th_ai_analyzer.Base.Tests.{ltb, leb, eqb, Bool-cases, ltb→lt, ltb_false→le}
use ject6_4th_ai_analyzer.Base.Lists.{All-reverse, All}
use ject6_4th_ai_analyzer.Base.Chars.{Text, strip, lstrip, is_space}
use ject6_4th_ai_analyzer.Base.Int.{ℤ, pos, negsuc, sub_ℕ}
use ject6_4th_ai_analyzer.Base.Decimal.{digits, show_ℕ, show, read_digits, read_signed, read_int}

abbrev IsPrintable : ℕ → Type 0
IsPrintable c = (33 ≤ c) × (c ≤ 126)

digit_step :
    (b : Bool) (m d : ℕ) (out : Text)
    → d < 10
    → read_digits b m ((b'0' + d) ∷ out) ≡ read_digits true (m * 10 + d) out
unfolding read_digits
digit_step b m d out h =
    let low : leb b'0' (b'0' + d) ≡ true = ground arith in
    let high : leb (b'0' + d) b'9' ≡ true = ground arith in
    let value : b'0' + d - b'0' ≡ d = omega arith in rw low (rw high (rw value))

-- Reading goes through the digits of `n` and then on from its value.
digits-read :
    (fuel n : ℕ) (out : Text) (b : Bool)
    → n ≤ fuel
    → read_digits b 0 (digits fuel n out) ≡ read_digits true n out
unfolding digits
digits-read zero n out b h =
    digit_step b 0 (n % 10) out (omega arith) ∙ ap (λ k. read_digits true k out) (omega arith)
digits-read (suc fuel) n out b h = elim (Bool-cases (ltb n 10)) [
  | inl small ↦ rw small (
      digit_step b 0 (n % 10) out (omega arith)
      ∙ ap (λ k. read_digits true k out) (omega (arith, ltb→lt n 10 small)))
  | inr big ↦ rw big (
      digits-read fuel (n / 10) ((b'0' + n % 10) ∷ out) b (omega (arith, ltb_false→le n 10 big))
      ∙ digit_step true (n / 10) (n % 10) out (omega arith)
      ∙ ap (λ k. read_digits true k out) (omega arith))
]

-- A digit comes first.
abbrev LeadsWithDigit : Text → Type 0
LeadsWithDigit [] = ⊥
LeadsWithDigit (c ∷ s) = (48 ≤ c) × (c ≤ 57)

digits-LeadsWithDigit : (fuel n : ℕ) (out : Text) → LeadsWithDigit (digits fuel n out)
unfolding digits
digits-LeadsWithDigit zero n out = (omega arith, omega arith)
digits-LeadsWithDigit (suc fuel) n out = elim (Bool-cases (ltb n 10)) [
  | inl small ↦ rw small (omega arith, omega arith)
  | inr big ↦ rw big (digits-LeadsWithDigit fuel (n / 10) ((b'0' + n % 10) ∷ out))
]

digits-IsPrintable :
    (fuel n : ℕ) (out : Text) → All IsPrintable out → All IsPrintable (digits fuel n out)
unfolding digits
digits-IsPrintable zero n out h = ((omega arith, omega arith), h)
digits-IsPrintable (suc fuel) n out h = elim (Bool-cases (ltb n 10)) [
  | inl small ↦ rw small ((omega arith, omega arith), h)
  | inr big ↦
      rw big
        (digits-IsPrintable fuel (n / 10) ((b'0' + n % 10) ∷ out) ((omega arith, omega arith), h))
]

is_space-printable : (c : ℕ) → IsPrintable c → is_space c ≡ false
unfolding is_space
is_space-printable c h = ground arith

lstrip-printable : (s : Text) → All IsPrintable s → lstrip s ≡ s
unfolding lstrip
lstrip-printable [] h = refl
lstrip-printable (c ∷ s) h = rw (is_space-printable c h.0)

strip-printable : (s : Text) → All IsPrintable s → strip s ≡ s
unfolding strip
strip-printable s h =
    ap (λ t. reverse (lstrip (reverse t))) (lstrip-printable s h)
    ∙ ap reverse (lstrip-printable (reverse s) (All-reverse IsPrintable s h))
    ∙ reverse-reverse s

read_signed-plain :
    (s : Text) → LeadsWithDigit s → read_signed s ≡ Option.map pos (read_digits false 0 s)
unfolding read_signed
read_signed-plain [] h = elim h [ ]
read_signed-plain (c ∷ s) h =
    let not_minus : eqb c b'-' ≡ false = ground arith in
    let not_plus : eqb c b'+' ≡ false = ground arith in rw not_minus (rw not_plus)

read_digits-show : (n : ℕ) → read_digits false 0 (show_ℕ n) ≡ some n
unfolding show_ℕ read_digits
read_digits-show n = digits-read n n [] false (omega arith)

show-IsPrintable : (z : ℤ) → All IsPrintable (show z)
unfolding show
show-IsPrintable (pos n) = digits-IsPrintable n n [] tt
show-IsPrintable (negsuc n) = ((omega arith, omega arith), digits-IsPrintable (suc n) (suc n) [] tt)

minus_suc : (n : ℕ) → sub_ℕ 0 (suc n) ≡ negsuc n
minus_suc n = ground arith

read_signed-show : (z : ℤ) → read_signed (show z) ≡ some z
unfolding show
read_signed-show (pos n) =
    read_signed-plain (show_ℕ n) (unfold show_ℕ in digits-LeadsWithDigit n n [])
    ∙ ap (Option.map pos) (read_digits-show n)
read_signed-show (negsuc n) =
    unfold read_signed in
    ap (Option.map (λ k. sub_ℕ 0 k)) (read_digits-show (suc n)) ∙ ap some (minus_suc n)

-- `int(str(n))` is `n`, for every integer.
pub read_int-show : (z : ℤ) → read_int (show z) ≡ some z
unfolding read_int
read_int-show z =
    ap read_signed (strip-printable (show z) (show-IsPrintable z)) ∙ read_signed-show z

pub read_int-nil : read_int [] ≡ none
unfolding read_int read_signed strip
read_int-nil = refl
