-- ===== src/Api/Endpoints/Limited.antt =====
-- app/api/analysis_router.py and app/api/conversation_router.py: a request over the limit.
use ject6_4th_ai_analyzer.Base.{
  ℕ, ◌≡◌, ap, ◌∙◌, if◌then◌else◌, true, false, some, Text, codes, ◌++◌, ◌∷◌,
}
use ject6_4th_ai_analyzer.Base.Int.{ℤ}
use ject6_4th_ai_analyzer.Base.Decimal.{show}
use ject6_4th_ai_analyzer.Domain.Schemas.{AnalysisRequest, ChatRequest, ChatResponse}
use ject6_4th_ai_analyzer.Domain.Models.{AnalysisJob}
use ject6_4th_ai_analyzer.Core.Exceptions.{
  Response, rate_limit_exceeded, retry_after_sec, handle_exception,
}
use ject6_4th_ai_analyzer.Core.RateLimiter.{Rate, RateLimitResult}
use ject6_4th_ai_analyzer.Core.Consume.{consume, enforce_rate_limit}
use ject6_4th_ai_analyzer.Core.Effects.{
  Env, Exec, Log, Result, ok, err, call, call-ok, time, eval_token_bucket, open_session, rollback,
  close, request, pure, raise, ◌>>=◌, >>=-run, try_except-err, Command, continue,
}
use ject6_4th_ai_analyzer.Core.Session.{session_scope}
use ject6_4th_ai_analyzer.Core.Session.Runs.{done, session_scope_raised}
use ject6_4th_ai_analyzer.Service.AnalysisService.{analyze}
use ject6_4th_ai_analyzer.Service.ConversationService.{chat_with}
use ject6_4th_ai_analyzer.Api.Endpoints.{
  answered, failed, endpoint, job_response, post_analysis, send_message,
}

-- A session opens, rolls back and closes without an exception.
pub record SessionsWork (env : Env) : Type 0 where
  pub opens : (l : Log) → env.answer l (open_session request) ≡ ok tt
  pub rolls_back : (l : Log) → env.answer l (rollback request) ≡ ok tt
  pub closes : (l : Log) → env.answer l (close request) ≡ ok tt

-- The call of the script at the bucket of a user.
abbrev pub asks_bucket : Text → ℤ → Rate → ℕ → Command
asks_bucket scope user_id rate now =
    eval_token_bucket (codes "ratelimit:" ++ scope ++ codes ":" ++ show user_id) rate now 1

module _ (env : Env) (h : Log) (now ms remaining : ℕ) where
  abbrev opened : Log
  opened = done (open_session request) ∷ h

  -- The script refuses one token, and asks to wait.
  abbrev pub Denies : Text → ℤ → Rate → Type 0
  Denies scope user_id rate =
      env.answer (done time ∷ opened) (asks_bucket scope user_id rate now)
      ≡ ok (record { allowed = false; remaining = remaining; retry_after_ms = ms })

  -- The log of a request that is refused: the session, the clock and the bucket.
  abbrev pub refused_log : Text → ℤ → Rate → Log
  refused_log scope user_id rate =
      done (close request)
      ∷ done (rollback request)
      ∷ done (asks_bucket scope user_id rate now)
      ∷ done time
      ∷ opened

  abbrev pub too_many : Text → Response
  too_many scope = record {
    status_code = 429;
    code = codes "RATE_LIMIT_EXCEEDED";
    message = scope ++ codes " rate limit exceeded";
    retry_after_ms = some ms;
    retry_after_header = some (retry_after_sec ms);
  }

  abbrev decided : Text → RateLimitResult → Exec Unit
  decided scope result =
      if result.allowed
      then pure tt
      else raise (rate_limit_exceeded (scope ++ codes " rate limit exceeded") result.retry_after_ms)

  -- What a denied request comes to, and its calls so far.
  abbrev denied : (A : Type 0) → Text → ℤ → Rate → Result A × Log
  denied A scope user_id rate = (
    err (rate_limit_exceeded (scope ++ codes " rate limit exceeded") ms),
    done (asks_bucket scope user_id rate now) ∷ done time ∷ opened,
  )

  enforce-denied :
      (scope : Text) (user_id : ℤ) (rate : Rate)
      → env.answer opened time ≡ ok now
      → Denies scope user_id rate
      → enforce_rate_limit env scope user_id rate opened ≡ denied Unit scope user_id rate
  unfolding enforce_rate_limit consume
  enforce-denied scope u rate t d =
      ap (λ (r : Result RateLimitResult × Log). continue r.0 (decided scope) r.1)
        (>>=-run (call env time) (λ n. call env (asks_bucket scope u rate n)) opened
            (call-ok env time opened t)
          ∙ call-ok env (asks_bucket scope u rate now) (done time ∷ opened) d)

  endpoint-denied :
      {A : Type 0} (status : ℕ) (scope : Text) (user_id : ℤ) (rate : Rate) (body : Exec A)
      → SessionsWork env
      → body opened ≡ denied A scope user_id rate
      → endpoint env status body h ≡ (ok (failed (too_many scope)), refused_log scope user_id rate)
  unfolding endpoint handle_exception
  endpoint-denied status scope u rate body w b =
      let rolled = done (asks_bucket scope u rate now) ∷ done time ∷ opened in
      try_except-err (session_scope env request body >>= λ a. pure (answered status a))
        (λ exc. pure (failed (handle_exception exc))) h
        (ap (λ r. continue r.0 (λ a. pure (answered status a)) r.1)
          (session_scope_raised env request body h rolled
            (rate_limit_exceeded (scope ++ codes " rate limit exceeded") ms) (w.opens h) b
            (w.rolls_back rolled) (w.closes (done (rollback request) ∷ rolled))))

  analyze-denied :
      (r : AnalysisRequest) (document_id : ℤ)
      → env.answer opened time ≡ ok now
      → Denies (codes "analysis") r.user_id env.settings.analysis_rate
      → analyze env (record r { document_id = some document_id }) true opened
        ≡ denied AnalysisJob (codes "analysis") r.user_id env.settings.analysis_rate
  unfolding analyze
  analyze-denied r i t d =
      rw (enforce-denied (codes "analysis") r.user_id env.settings.analysis_rate t d)

  chat_with-denied :
      (c : ChatRequest)
      → env.answer opened time ≡ ok now
      → Denies (codes "chat") c.user_id env.settings.chat_rate
      → chat_with env c opened ≡ denied ChatResponse (codes "chat") c.user_id env.settings.chat_rate
  unfolding chat_with
  chat_with-denied c t d = rw (enforce-denied (codes "chat") c.user_id env.settings.chat_rate t d)

  -- A request over the limit of its user is refused: POST /v1/analysis with a document and POST
  -- /v1/conversations/messages answer 429 with the wait of the script, in milliseconds and as
  -- `Retry-After`, and the session, the clock and the bucket are all that is called. Sessions open, roll
  -- back and close without an exception, and the clock answers.
  pub limited_requests :
      SessionsWork env
      → env.answer opened time ≡ ok now
      → (r : AnalysisRequest) (document_id : ℤ) (c : ChatRequest)
      → Denies (codes "analysis") r.user_id env.settings.analysis_rate
      → Denies (codes "chat") c.user_id env.settings.chat_rate
      → (post_analysis env (record r { document_id = some document_id }) h ≡ (
        ok (failed (too_many (codes "analysis"))),
        refused_log (codes "analysis") r.user_id env.settings.analysis_rate,
      ))
        × (send_message env c h ≡ (
          ok (failed (too_many (codes "chat"))),
          refused_log (codes "chat") c.user_id env.settings.chat_rate,
        ))
  unfolding post_analysis send_message
  limited_requests w t r i c da dc = (
    endpoint-denied 200 (codes "analysis") r.user_id env.settings.analysis_rate
        (analyze env (record r { document_id = some i }) true >>= λ job. pure (job_response job)) w
        (ap (λ out. continue out.0 (λ job. pure (job_response job)) out.1)
          (analyze-denied r i t da)),
    endpoint-denied 200 (codes "chat") c.user_id env.settings.chat_rate (chat_with env c) w
        (chat_with-denied c t dc),
  )
