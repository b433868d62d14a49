-- ===== src/Base/Decimal.antt =====
-- Python's `str(n)` and `int(text)` for integers, over ASCII digits.
pub mod RoundTrip
use ject6_4th_ai_analyzer.Base.Tests.{ltb, leb, eqb, if◌then◌else◌}
use ject6_4th_ai_analyzer.Base.Lists.{is_empty}
use ject6_4th_ai_analyzer.Base.Chars.{Text, strip}
use ject6_4th_ai_analyzer.Base.Int.{ℤ, pos, negsuc, sub_ℕ}
use Prim.Native.Nat.{ℕ, zero, suc, ◌+◌, ◌-◌, ◌*◌, ◌/◌, ◌%◌}
use mathlib.Core.Bool.{Bool, true, false, ◌&&◌}
use mathlib.Core.Option
use mathlib.Core.Option.{Option, none, some}
use mathlib.Core.List.{List, [], ◌∷◌}

-- The digits of `n` before `out`; every round drops a digit, so `n` rounds are enough.
pub digits : ℕ → ℕ → Text → Text
digits zero n out = (b'0' + n % 10) ∷ out
digits (suc fuel) n out =
    let more = digits fuel (n / 10) ((b'0' + n % 10) ∷ out) in
    if ltb n 10 then (b'0' + n % 10) ∷ out else more

unfoldable pub show_ℕ : ℕ → Text
unfolding digits
show_ℕ n = digits n n []

-- `str(n)`
unfoldable pub show : ℤ → Text
unfolding show_ℕ
show (pos n) = show_ℕ n
show (negsuc n) = b'-' ∷ show_ℕ (suc n)

-- Digits, with single underscores between them; `after_digit` tells whether one has just been read.
pub read_digits : Bool → ℕ → Text → Option ℕ
read_digits after_digit n [] = if after_digit then some n else none
read_digits after_digit n (c ∷ s) =
    let next = read_digits true (n * 10 + (c - b'0')) s in
    let underscore = read_digits false n s in
    if leb b'0' c && leb c b'9'
    then next
    else if eqb c b'_' && after_digit
    then underscore
    else none

read_signed : Text → Option ℤ
unfolding read_digits
read_signed [] = none
read_signed (c ∷ s) =
    if eqb c b'-'
    then Option.map (λ n. sub_ℕ 0 n) (read_digits false 0 s)
    else if eqb c b'+'
    then Option.map pos (read_digits false 0 s)
    else Option.map pos (read_digits false 0 (c ∷ s))

-- `int(text)`; `none` is the `ValueError`. The digits are those of ASCII, as many as there are: that Python
-- also reads the other digits of Unicode, and refuses more than 4300 digits, is left out.
unfoldable pub read_int : Text → Option ℤ
unfolding read_signed
read_int text = read_signed (strip text)
