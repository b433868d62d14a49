-- ===== src/Core/Parsing.antt =====
-- Python's `text or None` and `int(text)`, as the program uses them on the values of Redis.
use ject6_4th_ai_analyzer.Base.{Option, none, some, ◌++◌, Text, codes, is_empty, if◌then◌else◌}
use ject6_4th_ai_analyzer.Base.Int.{ℤ, pos}
use ject6_4th_ai_analyzer.Base.Decimal.{read_int}
use ject6_4th_ai_analyzer.Core.Exceptions.{builtin, value_error}
use ject6_4th_ai_analyzer.Core.Effects.{Env, Result, ok, err}

-- `text or None`
unfoldable pub non_empty : Option Text → Option Text
non_empty none = none
non_empty (some t) = if is_empty t then none else some t

module _ (env : Env) where
  -- `int(text)`
  unfoldable pub parse_int : Text → Result ℤ
  parse_int text = elim (read_int text) [
    | some n ↦ ok n
    | none ↦
        err
          (builtin value_error (codes "invalid literal for int() with base 10: " ++ env.repr text))
  ]

  -- `int(text or 0)`
  unfoldable pub int_or_zero : Option Text → Result ℤ
  int_or_zero raw = elim (non_empty raw) [ none ↦ ok (pos 0) | some text ↦ parse_int text ]

  -- `int(text) if text else None`
  unfoldable pub int_if_set : Option Text → Result (Option ℤ)
  int_if_set raw = elim (non_empty raw) [
    | none ↦ ok none
    | some text ↦ elim (parse_int text) [ ok n ↦ ok (some n) | err e ↦ err e ]
  ]
