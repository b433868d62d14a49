-- ===== src/Worker/AnalysisWorker.antt =====
-- app/worker/analysis_worker.py: the worker that takes analysis messages from RabbitMQ.
use ject6_4th_ai_analyzer.Base.{
  false, Option, none, some, [], ◌++◌, Text, codes, text_eq, if◌then◌else◌,
}
use ject6_4th_ai_analyzer.Base.Int.{ℤ, pos, ◌+ℤ◌, ltb_ℤ}
use ject6_4th_ai_analyzer.Base.Decimal.{read_int}
use ject6_4th_ai_analyzer.Base.Dict.{Dict, lookup, insert}
use ject6_4th_ai_analyzer.Domain.Enums.{AnalysisMode, mode_value}
use ject6_4th_ai_analyzer.Domain.Json.{Json, Fields, null, number, string, object, end, field}
use ject6_4th_ai_analyzer.Domain.Schemas.{AnalysisRequest}
use ject6_4th_ai_analyzer.Domain.Models.{AnalysisJob}
use ject6_4th_ai_analyzer.Core.Parsing.{non_empty, int_if_set}
use ject6_4th_ai_analyzer.Core.Effects.{
  Env, Exec, Header, int_header, text_header, other_header, call, get, publish, ack, reject,
  analysis, pure, try_except, ◌>>=◌, ◌>>◌, lift,
}
use ject6_4th_ai_analyzer.Core.Session.{session_scope}
use ject6_4th_ai_analyzer.Service.AnalysisService.{analyze}

pub record IncomingMessage : Type 0 where
  pub body : Text
  pub headers : Option (Dict Header)

abbrev pub completed_queue : Text
completed_queue = codes "blog.analysis.completed"

abbrev pub retry_header : Text
retry_header = codes "x-app-retry-count"

-- `message.headers or {}`
abbrev pub headers_of : IncomingMessage → Dict Header
headers_of m = elim m.headers [ none ↦ [] | some headers ↦ headers ]

unfoldable pub header_count : Option Header → ℤ
header_count none = pos 0
header_count (some (int_header n)) = n
header_count (some (text_header text)) = elim (read_int text) [ none ↦ pos 0 | some n ↦ n ]
header_count (some other_header) = pos 0

-- `_read_retry_count`
unfoldable pub read_header_count : IncomingMessage → ℤ
unfolding header_count
read_header_count m = header_count (lookup retry_header (headers_of m))

unfoldable pub retry_headers : IncomingMessage → ℤ → Dict Header
retry_headers m next_count = insert retry_header (int_header next_count) (headers_of m)

abbrev text_or_null : Option Text → Json
text_or_null none = null
text_or_null (some text) = string text

abbrev number_or_null : Option ℤ → Json
number_or_null none = null
number_or_null (some n) = number n

abbrev mode_or_default : Option AnalysisMode → Text
mode_or_default none = codes "POST"
mode_or_default (some mode) = mode_value mode

unfoldable pub completed_payload : AnalysisRequest → Option AnalysisJob → Text → Fields
completed_payload r job status = field (codes "user_id") (number r.user_id) (
    field (codes "document_id") (number_or_null r.document_id) (
      field (codes "analysis_job_id") (elim job [ none ↦ null | some j ↦ number j.id ])
        (field (codes "analysis_mode") (string (mode_or_default r.analysis_mode)) (
          field (codes "blog_id") null (
            field (codes "batch_id") (text_or_null r.batch_id) (
              field (codes "correlation_id") (text_or_null r.correlation_id)
                (field (codes "status") (string status) end)))))))

module _ (env : Env) where
  -- A failure to publish the event is logged and forgotten.
  unfoldable pub publish_completed : AnalysisRequest → Option AnalysisJob → Text → Exec Unit
  unfolding completed_payload
  publish_completed r job status =
      try_except
        (call env
          (publish completed_queue (env.json_dumps (object (completed_payload r job status))) []))
        (λ _. pure tt)

  -- `_republish_with_retry`. A message is only handled once `run` has set the channel, so that the
  -- assertion holds, here as in `_publish_completed`.
  unfoldable pub republish : IncomingMessage → ℤ → Exec Unit
  unfolding retry_headers
  republish m next_count =
      call env (publish env.settings.analysis_queue_name m.body (retry_headers m next_count))

  -- Back on the queue with the next count, where the retries are not used up.
  unfoldable pub retry_or_reject : IncomingMessage → Exec Unit → Exec Unit
  unfolding republish
  retry_or_reject m rejected =
      if ltb_ℤ (read_header_count m) env.settings.worker_max_retries
      then republish m (read_header_count m +ℤ pos 1) >> call env ack
      else (call env (reject false) >> rejected)

  -- `_handle_failure`
  unfoldable pub handle_analysis_failure : IncomingMessage → AnalysisRequest → Exec Unit
  unfolding retry_or_reject publish_completed
  handle_analysis_failure m r = retry_or_reject m (publish_completed r none (codes "FAILED"))

  unfoldable pub resolve_document_id : Text → Exec (Option ℤ)
  resolve_document_id correlation_id =
      try_except
        (do
          value ← call env (get (codes "ingest:done:" ++ correlation_id))
          lift (int_if_set env value))
        (λ _. pure none)

  -- The last `try` of `_handle_message`.
  unfoldable pub run_analysis : IncomingMessage → AnalysisRequest → Exec Unit
  unfolding publish_completed handle_analysis_failure
  run_analysis m r =
      try_except
        (do
          job ← session_scope env analysis (analyze env r false)
          call env ack
          publish_completed r (some job) (codes "SUCCESS"))
        (λ _. handle_analysis_failure m r)

  -- The document is not stored yet: the message waits for it, as often as it may be retried.
  unfoldable pub with_document : IncomingMessage → AnalysisRequest → Option ℤ → Exec Unit
  unfolding run_analysis retry_or_reject
  with_document m r none = retry_or_reject m (pure tt)
  with_document m r (some doc_id) = run_analysis m (record r { document_id = some doc_id })

  unfoldable pub handle_valid : IncomingMessage → AnalysisRequest → Exec Unit
  unfolding with_document resolve_document_id
  handle_valid m r = elim r.document_id [
    | some _ ↦ run_analysis m r
    | none ↦ elim (non_empty r.correlation_id) [
      | none ↦ run_analysis m r
      | some correlation_id ↦ resolve_document_id correlation_id >>= with_document m r
    ]
  ]

  unfoldable pub handle_incoming : IncomingMessage → Exec Unit
  unfolding handle_valid
  handle_incoming m = elim (env.read_request m.body) [
    | none ↦ call env (reject false)
    | some r ↦ handle_valid m r
  ]
