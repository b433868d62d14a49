-- ===== src/Core/Session/Kept.antt =====
-- A session that returns has committed.
use ject6_4th_ai_analyzer.Base.{true}
use ject6_4th_ai_analyzer.Core.Effects.{
  Env, Exec, Event, Scope, Command, open_session, commit, rollback, close, call,
}
use ject6_4th_ai_analyzer.Core.Effects.Issues.{Traces, Traces-pure, Traces-call}
use ject6_4th_ai_analyzer.Core.Effects.Ensures.{
  Ensures, Ensures-raise, Ensures-try, Ensures-bind_left, Ensures-bind_right, Ensures-finally,
  Ensures-call,
}
use ject6_4th_ai_analyzer.Core.Effects.Guarded.{SafeAfter, safe}
use ject6_4th_ai_analyzer.Core.Session.{session_scope}

module _ (env : Env) (Guarded : Command → Type 0) (Keeps : Event → Type 0) (scope : Scope)
    (at_open : Guarded (open_session scope) → ⊥) (at_commit : Guarded (commit scope) → ⊥)
    (at_rollback : Guarded (rollback scope) → ⊥) (at_close : Guarded (close scope) → ⊥)
    (kept : Keeps (record { command = commit scope; succeeded = true })) where
  free : (c : Command) → (Guarded c → ⊥) → Traces (SafeAfter Guarded Keeps ⊥) (call env c)
  free c p = Traces-call (safe Guarded Keeps ⊥) env c (λ _. (λ g. elim (p g) [ ], tt))

  pub Ensures-session_scope :
      {A : Type 0} (body : Exec A)
      → Traces (SafeAfter Guarded Keeps ⊥) body
      → Ensures (SafeAfter Guarded Keeps ⊥) Keeps (session_scope env scope body)
  unfolding session_scope
  Ensures-session_scope body k =
      let t = safe Guarded Keeps ⊥ in
      Ensures-bind_right t Keeps _ _ (free (open_session scope) at_open) λ _.
        Ensures-finally t Keeps _ _
          (Ensures-try t Keeps _ _
            (Ensures-bind_right t Keeps _ _ k λ a.
              Ensures-bind_left t Keeps _ _
                (Ensures-call t Keeps env (commit scope) (λ _. (λ g. elim (at_commit g) [ ], tt))
                  kept)
                λ _. Traces-pure t a)
            λ exc.
              Ensures-bind_right t Keeps _ _ (free (rollback scope) at_rollback)
                λ _. Ensures-raise t Keeps exc)
          (free (close scope) at_close)
