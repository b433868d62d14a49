-- ===== src/Api/Endpoints/Answers.antt =====
-- app/api: when an endpoint answers.
use ject6_4th_ai_analyzer.Base.{ℕ, ◌≡◌, refl, ap, ◌∙◌, ◌⊎◌, inl, inr, ◌∷◌}
use ject6_4th_ai_analyzer.Core.Exceptions.{Exception, handle_exception}
use ject6_4th_ai_analyzer.Core.Effects.{
  Env, Exec, Log, Result, ok, err, open_session, commit, close, request, pure, ◌>>=◌, >>=-ok,
  >>=-err, try_except-ok, try_except-err,
}
use ject6_4th_ai_analyzer.Core.Session.{session_scope}
use ject6_4th_ai_analyzer.Core.Session.Runs.{done, session_scope_inv}
use ject6_4th_ai_analyzer.Api.Endpoints.{answered, failed, endpoint}

module _ (env : Env) {A : Type 0} (status : ℕ) (body : Exec A) (h : Log) where
  abbrev session : Exec A
  session = session_scope env request body

  abbrev opened : Log
  opened = done (open_session request) ∷ h

  -- The answer of its status: the body returned in its session, which then committed and closed.
  abbrev pub HasAnswered : Type 0
  HasAnswered =
      (a : A) × ((body opened).0 ≡ ok a)
      × (endpoint env status body h ≡ (
        ok (answered status a),
        done (close request) ∷ done (commit request) ∷ (body opened).1,
      ))

  -- The response to an exception: the one that the session raised.
  abbrev pub HasFailed : Type 0
  HasFailed =
      (e : Exception) × ((session h).0 ≡ err e)
      × (endpoint env status body h ≡ (ok (failed (handle_exception e)), (session h).1))

  by_result : (r : Result A) → (session h).0 ≡ r → HasAnswered ⊎ HasFailed
  unfolding endpoint
  by_result (ok a) e =
      let (at_body, log) = session_scope_inv env request body h a e in
      inl (
        a,
        at_body,
        try_except-ok (session >>= λ b. pure (answered status b))
              (λ exc. pure (failed (handle_exception exc))) h
              (>>=-ok session (λ b. pure (answered status b)) h e)
            ∙ ap (λ l. (ok (answered status a), l)) log,
      )
  by_result (err x) e = inr (
    x,
    e,
    try_except-err (session >>= λ b. pure (answered status b))
        (λ exc. pure (failed (handle_exception exc))) h
        (>>=-err session (λ b. pure (answered status b)) h e),
  )

  -- Whatever the service and the world do, an endpoint answers. Either it answers with its status,
  -- and then the body has returned and its session has committed and closed before the response, or it
  -- answers what the handlers make of the exception that the session raised, a failed commit included.
  pub endpoint_answers : HasAnswered ⊎ HasFailed
  endpoint_answers = by_result (session h).0 refl
