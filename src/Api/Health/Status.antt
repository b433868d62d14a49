-- ===== src/Api/Health/Status.antt =====
-- app/api/health_router.py: what the answer of readiness says of the dependencies.
use ject6_4th_ai_analyzer.Base.{
  ◌≡◌, refl, ap, sym, ◌∙◌, ◌↔◌, ◌⊎◌, inl, inr, Bool, true, false, List, ◌++◌, append_assoc, codes,
  All-append, All-of_append,
}
use ject6_4th_ai_analyzer.Core.Effects.{
  Env, Exec, Event, Log, Result, ok, err, call, open_session, commit, close, rollback, select_one,
  ping, connect_queue, close_queue, health, pure, continue, handle, >>=-ok,
}
use ject6_4th_ai_analyzer.Core.Effects.Issues.{Adds, IsTrace, Traces-call}
use ject6_4th_ai_analyzer.Core.Effects.Tells.{
  AllSucceeded, TellsOf, Tells, Tells-call, Tells-pure, Tells-bind, Tells-cleanup, Tells-finally,
}
use ject6_4th_ai_analyzer.Core.Session.{session_scope}
use ject6_4th_ai_analyzer.Api.Health.{
  Readiness, check, check_db, check_redis, check_rabbitmq, readiness, readiness_of,
}

-- A check returns, and says whether all its calls did.
abbrev Says : Exec Bool → Log → Type 0
Says m h = (b : Bool) × ((m h).0 ≡ ok b) × Adds (λ es. (b ≡ true) ↔ AllSucceeded es) h (m h).1

any_event : IsTrace (λ _. Unit)
any_event = record { at_nil = tt; at_append = λ es es' p q. tt }

says_of_result :
    (r : Result Unit) (h h' : Log)
    → TellsOf r h h'
    → (b : Bool) × ((handle
          (continue r (λ _. pure true) h').0
          (λ _. pure false)
          (continue r (λ _. pure true) h').1).0
        ≡ ok b)
      × Adds
          (λ es. (b ≡ true) ↔ AllSucceeded es)
          h
          (handle
            (continue r (λ _. pure true) h').0
            (λ _. pure false)
            (continue r (λ _. pure true) h').1).1
says_of_result (ok _) h h' t = (true, refl, t)
says_of_result (err _) h h' t = (false, refl, t)

module _ (env : Env) where
  Says-check : (m : Exec Unit) → Tells m → (h : Log) → Says (check env m) h
  Says-check m t h = says_of_result (m h).0 h (m h).1 (t.at h)

  Tells-session_scope : Tells (session_scope env health (call env select_one))
  unfolding session_scope
  Tells-session_scope = Tells-bind _ _ (Tells-call env (open_session health)) λ _.
      Tells-finally _ _
        (Tells-cleanup _ _
          (Tells-bind _ _ (Tells-call env select_one)
            λ a. Tells-bind _ _ (Tells-call env (commit health)) λ _. Tells-pure a)
          (Traces-call any_event env (rollback health) (λ _. tt)))
        (Tells-call env (close health))

  Says-check_db : (h : Log) → Says (check_db env) h
  unfolding check_db
  Says-check_db = Says-check _ Tells-session_scope

  Says-check_redis : (h : Log) → Says (check_redis env) h
  unfolding check_redis
  Says-check_redis = Says-check _ (Tells-call env ping)

  Says-check_rabbitmq : (h : Log) → Says (check_rabbitmq env) h
  unfolding check_rabbitmq
  Says-check_rabbitmq =
      Says-check _ (Tells-bind _ _ (Tells-call env connect_queue) λ _. Tells-call env close_queue)

-- What the two flags of the status say, by the flags of the checks.
status_codes :
    (a b c : Bool)
    → (((a ≡ true) × (b ≡ true) × (c ≡ true))
        × ((readiness_of a b c).status_code ≡ 200)
        × ((readiness_of a b c).status ≡ codes "ok"))
      ⊎ ((((a ≡ true) × (b ≡ true) × (c ≡ true)) → ⊥)
          × ((readiness_of a b c).status_code ≡ 503)
          × ((readiness_of a b c).status ≡ codes "degraded"))
unfolding readiness_of
status_codes true true true = inl ((refl, refl, refl), refl, refl)
status_codes true true false = inr ((λ h. cc (h.2)), refl, refl)
status_codes true false c = inr ((λ h. cc (h.1)), refl, refl)
status_codes false b c = inr ((λ h. cc (h.0)), refl, refl)

module _ (env : Env) where
  run_of_checks :
      (h : Log) (a b c : Bool)
      → ((check_db env h).0 ≡ ok a)
      → ((check_redis env (check_db env h).1).0 ≡ ok b)
      → ((check_rabbitmq env (check_redis env (check_db env h).1).1).0 ≡ ok c)
      → readiness env h
        ≡ (ok (readiness_of a b c), (check_rabbitmq env (check_redis env (check_db env h).1).1).1)
  unfolding readiness
  run_of_checks h a b c p q r =
      >>=-ok (check_db env) _ h p
      ∙ >>=-ok (check_redis env) _ _ q
      ∙ >>=-ok (check_rabbitmq env) _ _ r

-- What readiness answers, by the calls that it made.
abbrev pub Reports : Readiness → List Event → Type 0
Reports r es =
    ((r.status_code ≡ 200) × (r.status ≡ codes "ok") × AllSucceeded es)
    ⊎ ((r.status_code ≡ 503) × (r.status ≡ codes "degraded") × (AllSucceeded es → ⊥))

reports :
    (a b c : Bool) (es es' es'' : List Event)
    → ((a ≡ true) ↔ AllSucceeded es)
    → ((b ≡ true) ↔ AllSucceeded es')
    → ((c ≡ true) ↔ AllSucceeded es'')
    → Reports (readiness_of a b c) (es'' ++ (es' ++ es))
reports a b c es es' es'' i i' i'' = elim (status_codes a b c) [
  | inl (all, s, t) ↦ inl (
    s,
    t,
    All-append _ es'' (es' ++ es) (i''.0 (all.2))
        (All-append _ es' es (i'.0 (all.1)) (i.0 (all.0))),
  )
  | inr (no_all, s, t) ↦ inr (
    s,
    t,
    λ succeeded.
        let (p, q) = All-of_append _ es'' (es' ++ es) succeeded in
        let (q', q'') = All-of_append _ es' es q in no_all (i.1 q'', i'.1 q', i''.1 p),
  )
]

-- Readiness never raises. It answers 200 and ok exactly if every call that it made of the database,
-- Redis and RabbitMQ returned, those that open, commit and close the session included, and 503 and
-- degraded otherwise.
pub readiness_status :
    (env : Env) (h : Log)
    → (r : Readiness) × ((readiness env h).0 ≡ ok r) × Adds (Reports r) h (readiness env h).1
readiness_status env h =
    let (a, p, (es, e, i)) = Says-check_db env h in
    let (b, q, (es', e', i')) = Says-check_redis env (check_db env h).1 in
    let (c, r, (es'', e'', i'')) = Says-check_rabbitmq env (check_redis env (check_db env h).1).1 in
    let run = run_of_checks env h a b c p q r in
    (
      readiness_of a b c,
      ap (λ t. t.0) run,
      (
        es'' ++ (es' ++ es),
        ap (λ t. t.1) run
            ∙ e''
            ∙ ap (λ t. es'' ++ t) (e' ∙ ap (λ t. es' ++ t) e ∙ sym (append_assoc es' es h))
            ∙ sym (append_assoc es'' (es' ++ es) h),
        reports a b c es es' es'' i i' i'',
      ),
    )
