-- ===== src/Core/Session.antt =====
-- app/core/database.py: `session_scope`, which commits what its body did or rolls it back.
pub mod Kept
pub mod Lost
pub mod Runs
use ject6_4th_ai_analyzer.Core.Effects.{
  Env, Exec, Scope, call, open_session, commit, rollback, close, pure, raise, try_except, finally,
  ◌>>=◌, ◌>>◌,
}

module _ (env : Env) {A : Type 0} where
  -- The part between `try` and `finally`.
  abbrev pub committed : Scope → Exec A → Exec A
  committed scope body =
      try_except (do a ← body; call env (commit scope); pure a)
        (λ exc. call env (rollback scope) >> raise exc)

  unfoldable pub session_scope : Scope → Exec A → Exec A
  session_scope scope body =
      call env (open_session scope) >> finally (committed scope body) (call env (close scope))
