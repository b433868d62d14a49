-- ===== src/Api/Health.antt =====
-- app/api/health_router.py: liveness and readiness. The three checks, which run concurrently, stand one
-- after the other: what each is answered may be any function of the calls so far. A timeout is an
-- answer that raises.
pub mod Status
use ject6_4th_ai_analyzer.Base.{ℕ, Bool, true, false, ◌&&◌, Text, codes, if◌then◌else◌}
use ject6_4th_ai_analyzer.Core.Effects.{
  Env, Exec, call, select_one, ping, connect_queue, close_queue, health, pure, try_except, ◌>>=◌,
  ◌>>◌,
}
use ject6_4th_ai_analyzer.Core.Session.{session_scope}

pub record Readiness : Type 0 where
  pub status_code : ℕ
  pub status : Text
  pub database : Text
  pub redis : Text
  pub rabbitmq : Text

abbrev pub ok_or_fail : Bool → Text
ok_or_fail b = if b then codes "ok" else codes "fail"

unfoldable pub readiness_of : Bool → Bool → Bool → Readiness
readiness_of db_ok redis_ok mq_ok =
    let all_ok = db_ok && redis_ok && mq_ok in
    record {
      status_code = if all_ok then 200 else 503;
      status = if all_ok then codes "ok" else codes "degraded";
      database = ok_or_fail db_ok;
      redis = ok_or_fail redis_ok;
      rabbitmq = ok_or_fail mq_ok;
    }

module _ (env : Env) where
  -- `try: …; return True; except Exception: return False`
  abbrev pub check : Exec Unit → Exec Bool
  check m = try_except (m >> pure true) (λ _. pure false)

  unfoldable pub check_db : Exec Bool
  check_db = check (session_scope env health (call env select_one))

  unfoldable pub check_redis : Exec Bool
  check_redis = check (call env ping)

  unfoldable pub check_rabbitmq : Exec Bool
  check_rabbitmq = check (call env connect_queue >> call env close_queue)

  unfoldable pub readiness : Exec Readiness
  unfolding check_db check_redis check_rabbitmq readiness_of
  readiness = do
    db_ok ← check_db
    redis_ok ← check_redis
    mq_ok ← check_rabbitmq
    pure (readiness_of db_ok redis_ok mq_ok)
