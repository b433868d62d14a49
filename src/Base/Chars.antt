-- ===== src/Base/Chars.antt =====
-- Python's `str` as its code points, and the methods of `str` that the program calls.
use Prim.Native.Nat.{ℕ, zero, suc, ◌+◌, ◌-◌}
use Prim.Native.Char.{code}
use Prim.Native.String.{String}
use mathlib.Core.Bool.{Bool, true, false, ◌&&◌, ◌||◌}
use mathlib.Core.List.{List, [], ◌∷◌, ◌++◌, reverse}
use ject6_4th_ai_analyzer.Base.Tests.{eqb, leb, if◌then◌else◌}
use ject6_4th_ai_analyzer.Base.Lists.{length}

abbrev pub Text : Type 0
Text = List ℕ

-- A literal.
abbrev pub codes : String → Text
codes String.[] = []
codes (String.◌∷◌ c s) = code c ∷ codes s

-- The characters that `str.isspace` accepts, which `strip` removes.
unfoldable pub is_space : ℕ → Bool
is_space c =
    (leb 9 c && leb c 13)
    || (leb 28 c && leb c 32)
    || eqb c 0x85
    || eqb c 0xa0
    || eqb c 0x1680
    || (leb 0x2000 c && leb c 0x200a)
    || eqb c 0x2028
    || eqb c 0x2029
    || eqb c 0x202f
    || eqb c 0x205f
    || eqb c 0x3000

unfoldable pub lstrip : Text → Text
lstrip [] = []
lstrip (c ∷ s) = let rest = lstrip s in if is_space c then rest else c ∷ s

-- `str.strip()`
unfoldable pub strip : Text → Text
unfolding lstrip
strip s = reverse (lstrip (reverse (lstrip s)))

unfoldable pub starts_with : Text → Text → Bool
starts_with [] s = true
starts_with (p ∷ ps) [] = false
starts_with (p ∷ ps) (c ∷ s) = eqb p c && starts_with ps s

-- `part in text`
unfoldable pub is_in : Text → Text → Bool
is_in part [] = eqb (length part) 0
is_in part (c ∷ s) = starts_with part (c ∷ s) || is_in part s

-- `text.lower()` as far as ASCII letters go
unfoldable pub lower : Text → Text
lower [] = []
lower (c ∷ s) = (if leb b'A' c && leb c b'Z' then c + 32 else c) ∷ lower s

-- The line boundaries of `str.splitlines`.
unfoldable pub is_line_end : ℕ → Bool
is_line_end c =
    (leb 10 c && leb c 13) || (leb 28 c && leb c 30) || eqb c 0x85 || eqb c 0x2028 || eqb c 0x2029

-- The scan of `str.splitlines`: `piece` is the line at hand, backwards, and `after_cr` tells that a
-- carriage return has just ended a line, to which a line feed then belongs.
unfoldable pub lines_from : Bool → Text → Text → List Text
lines_from after_cr [] [] = []
lines_from after_cr (p ∷ piece) [] = reverse (p ∷ piece) ∷ []
lines_from after_cr piece (c ∷ s) =
    let skipped = lines_from false piece s in
    let ended = reverse piece ∷ lines_from (eqb c 13) [] s in
    let longer = lines_from false (c ∷ piece) s in
    if after_cr && eqb c 10 then skipped else if is_line_end c then ended else longer

-- `text.splitlines()`
unfoldable pub splitlines : Text → List Text
unfolding lines_from is_line_end
splitlines s = lines_from false [] s

-- `sep.join(parts)`
unfoldable pub join : Text → List Text → Text
join sep [] = []
join sep (p ∷ []) = p
join sep (p ∷ q ∷ ps) = p ++ sep ++ join sep (q ∷ ps)

-- The scan of `str.split`: `skip` characters of a separator are still to pass, and `piece` is what
-- has been read of the piece at hand, backwards.
unfoldable pub split_from : Text → ℕ → Text → Text → List Text
split_from sep skip piece [] = reverse piece ∷ []
split_from sep (suc skip) piece (c ∷ s) = split_from sep skip piece s
split_from sep zero piece (c ∷ s) =
    let found = reverse piece ∷ split_from sep (length sep - 1) [] s in
    let longer = split_from sep zero (c ∷ piece) s in
    if starts_with sep (c ∷ s) then found else longer

-- `s.split(sep)`, for a separator that is not empty
unfoldable pub split : Text → Text → List Text
unfolding split_from
split sep s = split_from sep 0 [] s
