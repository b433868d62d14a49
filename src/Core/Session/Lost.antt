-- ===== src/Core/Session/Lost.antt =====
-- A session whose body raises commits nothing.
use ject6_4th_ai_analyzer.Base.{◌≡◌, ap, List}
use ject6_4th_ai_analyzer.Core.Exceptions.{Exception}
use ject6_4th_ai_analyzer.Core.Effects.{
  Env, Exec, Event, Log, Scope, Result, ok, err, Command, open_session, commit, rollback, close,
  call, raise, continue, handle, finally, ◌>>◌, >>=-err,
}
use ject6_4th_ai_analyzer.Core.Effects.Issues.{
  Adds, Adds-trans, Adds-refl, IsTrace, Only, Only-IsTrace, Traces, Traces-raise, Traces-bind,
  Traces-finally, Traces-call,
}
use ject6_4th_ai_analyzer.Core.Session.{session_scope, committed}

abbrev pub IsCommit : Command → Type 0
IsCommit (commit _) = Unit
IsCommit _ = ⊥

abbrev pub CommitsNothing : List Event → Type 0
CommitsNothing = Only (λ c. IsCommit c → ⊥)

abbrev commits_nothing : IsTrace CommitsNothing
commits_nothing = Only-IsTrace (λ c. IsCommit c → ⊥)

module _ (env : Env) {A : Type 0} (scope : Scope) (body : Exec A) (e : Exception) where
  uncommitted : (c : Command) → (IsCommit c → ⊥) → Traces CommitsNothing (call env c)
  uncommitted c p = Traces-call commits_nothing env c (λ _. (p, tt))

  undone : Exec A
  undone = call env (rollback scope) >> raise e

  -- The body, the rollback and the close.
  Adds-finally :
      (h : Log)
      → Traces CommitsNothing body
      → (body h).0 ≡ err e
      → Adds CommitsNothing h (finally (committed env scope body) (call env (close scope)) h).1
  unfolding undone
  Adds-finally h k raised_e =
      let same : committed env scope body h ≡ undone (body h).1 =
        ap (λ out. handle out.0 (λ exc. call env (rollback scope) >> raise exc) out.1)
          (>>=-err body (λ a. call env (commit scope) >> λ h. (ok a, h)) h raised_e) in
      rw same (
        Adds-trans commits_nothing (k.at h) (
          (Traces-finally commits_nothing undone (call env (close scope))
              (Traces-bind commits_nothing _ _ (uncommitted (rollback scope) (λ x. x))
                λ _. Traces-raise commits_nothing e)
              (uncommitted (close scope) (λ x. x))).at
            (body h).1))

  Adds-continue :
      (r : Result Unit) (f : Unit → Exec A) (h : Log)
      → Adds CommitsNothing h (f tt h).1
      → Adds CommitsNothing h (continue r f h).1
  Adds-continue (ok tt) f h k = k
  Adds-continue (err exc) f h k = Adds-refl commits_nothing h

  pub session_scope_commits_nothing :
      (h : Log)
      → Traces CommitsNothing body
      → (body (call env (open_session scope) h).1).0 ≡ err e
      → Adds CommitsNothing h (session_scope env scope body h).1
  unfolding session_scope
  session_scope_commits_nothing h k raised_e =
      Adds-trans commits_nothing ((uncommitted (open_session scope) (λ x. x)).at h) (
        Adds-continue (call env (open_session scope) h).0 _ (call env (open_session scope) h).1
          (Adds-finally (call env (open_session scope) h).1 k raised_e))
