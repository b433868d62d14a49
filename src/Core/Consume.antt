-- ===== src/Core/Consume.antt =====
-- app/core/rate_limiter.py: `RateLimiter.consume`, the call of the script at the bucket of a user.
use ject6_4th_ai_analyzer.Base.{ℕ, ◌++◌, Text, codes, if◌then◌else◌}
use ject6_4th_ai_analyzer.Base.Int.{ℤ}
use ject6_4th_ai_analyzer.Base.Decimal.{show}
use ject6_4th_ai_analyzer.Core.Exceptions.{rate_limit_exceeded}
use ject6_4th_ai_analyzer.Core.RateLimiter.{Rate, RateLimitResult}
use ject6_4th_ai_analyzer.Core.Effects.{
  Env, Exec, call, time, eval_token_bucket, pure, raise, ◌>>=◌,
}

module _ (env : Env) where
  unfoldable pub consume : Text → ℤ → Rate → ℕ → Exec RateLimitResult
  consume scope user_id rate cost = do
    now_ms ← call env time
    call env (
        eval_token_bucket (codes "ratelimit:" ++ scope ++ codes ":" ++ show user_id) rate now_ms
          cost)

  -- `_enforce_rate_limit` of the two services that have one.
  unfoldable pub enforce_rate_limit : Text → ℤ → Rate → Exec Unit
  unfolding consume
  enforce_rate_limit scope user_id rate = do
    result ← consume scope user_id rate 1
    if result.allowed
        then pure tt
        else raise
            (rate_limit_exceeded (scope ++ codes " rate limit exceeded") result.retry_after_ms)
