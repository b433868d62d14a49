-- ===== src/Worker/AnalysisSettles.antt =====
-- app/worker/analysis_worker.py: when an analysis message is settled, and what a failed analysis leaves.
use ject6_4th_ai_analyzer.Base.{
  ◌≡◌, inl, inr, true, false, Option, none, some, List, [], ◌∷◌, Text, codes,
}
use ject6_4th_ai_analyzer.Base.Int.{ℤ, pos, ◌+ℤ◌, ltb_ℤ}
use ject6_4th_ai_analyzer.Domain.Schemas.{AnalysisRequest}
use ject6_4th_ai_analyzer.Domain.Models.{AnalysisJob}
use ject6_4th_ai_analyzer.Core.Exceptions.{Exception}
use ject6_4th_ai_analyzer.Core.Parsing.{non_empty, int_if_set}
use ject6_4th_ai_analyzer.Core.Effects.{
  Env, Exec, Event, Command, Log, err, call, analysis, open_session, commit, publish, ack, reject,
  get, pure, ◌>>=◌,
}
use ject6_4th_ai_analyzer.Core.Effects.Issues.{
  Adds, IsTrace, Traces, Only, Traces-pure, Traces-try, Traces-bind, Traces-lift, Traces-call,
}
use ject6_4th_ai_analyzer.Core.Effects.Ensures.{
  AddsOrRaises, AddsOne-AddsOrRaises, Ensures, Ensures-if, Ensures-try, Ensures-bind_left,
  Ensures-bind_right, Ensures-call,
}
use ject6_4th_ai_analyzer.Core.Effects.Guarded.{SafeAfter, safe, Only-SafeAfter, Ensures-keep_then}
use ject6_4th_ai_analyzer.Core.Session.{session_scope}
use ject6_4th_ai_analyzer.Core.Session.Kept.{Ensures-session_scope}
use ject6_4th_ai_analyzer.Core.Session.Lost.{
  IsCommit, CommitsNothing, session_scope_commits_nothing,
}
use ject6_4th_ai_analyzer.Client.Llm.Retries.{StopsUnlessRetried}
use ject6_4th_ai_analyzer.Service.AnalysisService.{analyze}
use ject6_4th_ai_analyzer.Service.AnalysisService.Bare.{IsAck, Touches, Bare-analyze}
use ject6_4th_ai_analyzer.Worker.AnalysisWorker.{
  IncomingMessage, read_header_count, retry_headers, republish, retry_or_reject, publish_completed,
  handle_analysis_failure, resolve_document_id, run_analysis, with_document, handle_valid,
  handle_incoming,
}

Bare-part :
    {C : Command → Type 0}
    → ((c : Command) → (Touches c → ⊥) → C c)
    → (es : List Event) → Only (λ c. Touches c → ⊥) es
    → Only C es
Bare-part f [] o = tt
Bare-part f (e ∷ es) (p, o) = (f e.command p, Bare-part f es o)

not_ack : (c : Command) → (Touches c → ⊥) → IsAck c → ⊥
not_ack c p a = p (inl a)

not_commit : (c : Command) → (Touches c → ⊥) → IsCommit c → ⊥
not_commit c p a = p (inr a)

module _ (env : Env) (m : IncomingMessage) where
  -- A call that returned, and after which the request is not lost: the session of its analysis is
  -- committed, or the message is on the queue again with the next count.
  pub data Covers : Event → Type 0 where
    analysed : Covers (record { command = commit analysis; succeeded = true })
    republished : Covers (record {
      command =
          publish env.settings.analysis_queue_name m.body
            (retry_headers m (read_header_count m +ℤ pos 1));
      succeeded = true;
    })

  -- The message is acknowledged or, without going back on the queue, rejected.
  pub data IsSettled : Event → Type 0 where
    acked : IsSettled (record { command = ack; succeeded = true })
    rejected : IsSettled (record { command = reject false; succeeded = true })

  -- No ack before a call that covers the request, which `Q` says was made before.
  abbrev pub CoveredFrom : Type 0 → List Event → Type 0
  CoveredFrom Q = SafeAfter IsAck Covers Q

  abbrev covered_from : (Q : Type 0) → IsTrace (CoveredFrom Q)
  covered_from Q = safe IsAck Covers Q

  spared : (Q : Type 0) (c : Command) → (IsAck c → ⊥) → Traces (CoveredFrom Q) (call env c)
  spared Q c p = Traces-call (covered_from Q) env c (λ _. (λ g. elim (p g) [ ], tt))

  spared_completed :
      (Q : Type 0) (r : AnalysisRequest) (job : Option AnalysisJob) (status : Text)
      → Traces (CoveredFrom Q) (publish_completed env r job status)
  unfolding publish_completed
  spared_completed Q r job status =
      Traces-try (covered_from Q) _ _ (spared Q (publish _ _ []) (λ x. x))
        λ _. Traces-pure (covered_from Q) tt

  Ensures-ack : Ensures (CoveredFrom Unit) IsSettled (call env ack)
  Ensures-ack = Ensures-call (covered_from Unit) IsSettled env ack (λ _. (λ _. inr tt, tt)) acked

  Ensures-reject : Ensures (CoveredFrom ⊥) IsSettled (call env (reject false))
  Ensures-reject =
      Ensures-call (covered_from ⊥) IsSettled env (reject false) (λ _. (λ c. elim c [ ], tt))
        rejected

  Ensures-republish :
      Ensures (CoveredFrom ⊥) Covers (republish env m (read_header_count m +ℤ pos 1))
  unfolding republish
  Ensures-republish =
      Ensures-call (covered_from ⊥) Covers env _ (λ _. (λ c. elim c [ ], tt)) republished

  Ensures-retry_or_reject :
      (k : Exec Unit)
      → Traces (CoveredFrom ⊥) k
      → Ensures (CoveredFrom ⊥) IsSettled (retry_or_reject env m k)
  unfolding retry_or_reject
  Ensures-retry_or_reject k t =
      Ensures-if (covered_from ⊥) IsSettled
        (ltb_ℤ (read_header_count m) env.settings.worker_max_retries) _ _
        (Ensures-keep_then IsAck Covers _ _ Ensures-republish λ _. Ensures-ack)
        (Ensures-bind_left (covered_from ⊥) IsSettled _ _ Ensures-reject λ _. t)

  module _ (stops : StopsUnlessRetried env) where
    covered_analyze : (r : AnalysisRequest) → Traces (CoveredFrom ⊥) (analyze env r false)
    covered_analyze r = record {
      at = λ h.
          let (es, e, o) = (Bare-analyze env stops r false).at h in
          (es, e, Only-SafeAfter IsAck Covers ⊥ es (Bare-part not_ack es o));
    }

    Ensures-run_analysis :
        (r : AnalysisRequest) → Ensures (CoveredFrom ⊥) IsSettled (run_analysis env m r)
    unfolding run_analysis handle_analysis_failure
    Ensures-run_analysis r =
        Ensures-try (covered_from ⊥) IsSettled _ _
          (Ensures-keep_then IsAck Covers _ _
            (Ensures-session_scope env IsAck Covers analysis (λ x. x) (λ x. x) (λ x. x) (λ x. x)
              analysed (analyze env r false) (covered_analyze r))
            λ job.
              Ensures-bind_left (covered_from Unit) IsSettled _ _ Ensures-ack
                λ _. spared_completed Unit r (some job) (codes "SUCCESS"))
          λ _. Ensures-retry_or_reject _ (spared_completed ⊥ r none (codes "FAILED"))

    Ensures-with_document :
        (r : AnalysisRequest) (d : Option ℤ)
        → Ensures (CoveredFrom ⊥) IsSettled (with_document env m r d)
    unfolding with_document
    Ensures-with_document r none =
        Ensures-retry_or_reject (pure tt) (Traces-pure (covered_from ⊥) tt)
    Ensures-with_document r (some d) = Ensures-run_analysis (record r { document_id = some d })

    covered_resolve : (c : Text) → Traces (CoveredFrom ⊥) (resolve_document_id env c)
    unfolding resolve_document_id
    covered_resolve c =
        Traces-try (covered_from ⊥) _ _
          (Traces-bind (covered_from ⊥) _ _ (spared ⊥ (get _) (λ x. x))
            λ value. Traces-lift (covered_from ⊥) (int_if_set env value))
          λ _. Traces-pure (covered_from ⊥) none

    Ensures-handle_valid :
        (r : AnalysisRequest) → Ensures (CoveredFrom ⊥) IsSettled (handle_valid env m r)
    unfolding handle_valid
    Ensures-handle_valid r = go r.document_id (non_empty r.correlation_id)
      where
        go :
            (d : Option ℤ) (c : Option Text)
            → Ensures (CoveredFrom ⊥) IsSettled (elim d [
              | some _ ↦ run_analysis env m r
              | none ↦ elim c [
                | none ↦ run_analysis env m r
                | some id ↦ resolve_document_id env id >>= with_document env m r
              ]
            ])
        go (some d) c = Ensures-run_analysis r
        go none none = Ensures-run_analysis r
        go none (some id) =
            Ensures-bind_right (covered_from ⊥) IsSettled _ _ (covered_resolve id)
              (Ensures-with_document r)

    handled :
        (o : Option AnalysisRequest)
        → Ensures
            (CoveredFrom ⊥)
            IsSettled
            (elim o [ none ↦ call env (reject false) | some r ↦ handle_valid env m r ])
    handled none = Ensures-reject
    handled (some r) = Ensures-handle_valid r

-- A request for an analysis is not lost: whatever the world answers, the analysis worker acknowledges
-- a message only after a call that returned and that covers the request, which is the commit of the
-- analysis session or the message put on the queue again with the next count of retries; and where
-- `_handle_message` returns at all, the message has been acknowledged or rejected without requeueing.
-- `tenacity` is assumed to make no second attempt after a result or an exception that its predicate
-- refuses.
pub handle_incoming_safe :
    (env : Env)
    → StopsUnlessRetried env
    → (m : IncomingMessage) (h : Log)
    → AddsOrRaises (CoveredFrom env m ⊥) (IsSettled env m) h (handle_incoming env m h)
unfolding handle_incoming
handle_incoming_safe env stops m h =
    AddsOne-AddsOrRaises (handle_incoming env m h)
      ((handled env m stops (env.read_request m.body)).at h)

-- The status of a failed analysis is lost: when `analyze` raises in the session of the worker, no
-- commit is attempted, so that the job that it marked as failed is rolled back with everything else.
-- `tenacity` is assumed to make no second attempt after a result or an exception that its predicate
-- refuses.
pub failed_analysis_not_stored :
    (env : Env)
    → StopsUnlessRetried env
    → (r : AnalysisRequest) (h : Log) (e : Exception)
    → (analyze env r false (call env (open_session analysis) h).1).0 ≡ err e
    → Adds CommitsNothing h (session_scope env analysis (analyze env r false) h).1
failed_analysis_not_stored env stops r h e raised_e =
    session_scope_commits_nothing env analysis (analyze env r false) e h
      (record {
        at = λ h.
            let (es, eq, o) = (Bare-analyze env stops r false).at h in
            (es, eq, Bare-part not_commit es o);
      })
      raised_e
