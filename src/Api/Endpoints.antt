-- ===== src/Api/Endpoints.antt =====
-- app/api: the endpoints, each in a session of its own that ends before the response is sent, and the
-- response to what a service raises. FastAPI's reading of the request is left out, and so are the times
-- in a response.
pub mod Answers
pub mod Limited
use ject6_4th_ai_analyzer.Base.{ℕ, true, Option, none, some, Text, codes, Bool, false}
use ject6_4th_ai_analyzer.Base.Int.{ℤ}
use ject6_4th_ai_analyzer.Domain.Enums.{status_value}
use ject6_4th_ai_analyzer.Domain.Json.{Json, Items, Fields, array, object}
use ject6_4th_ai_analyzer.Domain.Schemas.{
  ChunkRequest, ChunkResponse, AnalysisRequest, ChatRequest, ChatResponse,
}
use ject6_4th_ai_analyzer.Domain.Models.{AnalysisJob, BlogDiagnosis, ProfileEmbedding}
use ject6_4th_ai_analyzer.Core.Exceptions.{
  Exception, Response, builtin, value_error, handle_exception,
}
use ject6_4th_ai_analyzer.Core.Effects.{Env, Exec, request, pure, or_raise, try_except, ◌>>=◌, ◌>>◌}
use ject6_4th_ai_analyzer.Core.Session.{session_scope}
use ject6_4th_ai_analyzer.Service.DocumentService.{ingest_and_chunk}
use ject6_4th_ai_analyzer.Service.AnalysisService.{analyze, get_analysis_for_document}
use ject6_4th_ai_analyzer.Service.ConversationService.{chat_with, reset_session}
use ject6_4th_ai_analyzer.Service.BlogDiagnosis.Metrics.{Ratios}
use ject6_4th_ai_analyzer.Service.BlogDiagnosis.{JsonReader, diagnose}
use ject6_4th_ai_analyzer.Service.ProfileEmbeddings.{embed_and_store}

-- A response with a status and a body, or the one of a handler of exceptions.
pub data Answer (A : Type 0) : Type 0 where
  answered : ℕ → A → Answer A
  failed : Response → Answer A

pub record AnalysisJobResponse : Type 0 where
  pub id : ℤ
  pub document_id : ℤ
  pub status : Text
  pub result : Fields
  pub error_message : Option Text

unfoldable pub job_response : AnalysisJob → AnalysisJobResponse
job_response job = record {
  id = job.id;
  document_id = job.document_id;
  status = status_value job.status;
  result = job.result;
  error_message = job.error_message;
}

pub record DiagnoseResponse : Type 0 where
  pub id : ℤ
  pub user_id : ℤ
  pub metrics : Fields
  pub category_fit : Items
  pub strengths : Items
  pub weaknesses : Items
  pub has_embedding : Bool

-- `none` where pydantic refuses a column.
unfoldable pub diagnose_response : BlogDiagnosis → Option DiagnoseResponse
diagnose_response diag = elim diag.metrics [
  | object metrics ↦ elim diag.category_fit [
    | array category_fit ↦ elim diag.strengths [
      | array strengths ↦ elim diag.weaknesses [
        | array weaknesses ↦ some (record {
          id = diag.id;
          user_id = diag.user_id;
          metrics = metrics;
          category_fit = category_fit;
          strengths = strengths;
          weaknesses = weaknesses;
          has_embedding = elim diag.result_embedding [ none ↦ false | some _ ↦ true ];
        })
        | _ ↦ none
      ]
      | _ ↦ none
    ]
    | _ ↦ none
  ]
  | _ ↦ none
]

pub record ProfileEmbedResponse : Type 0 where
  pub user_id : ℤ
  pub stored : Bool
  pub has_embedding : Bool

-- A failure of pydantic's is a `ValueError`, whose text no response shows.
abbrev pub refused : Exception
refused = builtin value_error (codes "validation error")

module _ (env : Env) where
  -- `SessionDep` around the body of an endpoint, in the handlers of `register_exception_handlers`.
  unfoldable pub endpoint : {A : Type 0} → ℕ → Exec A → Exec (Answer A)
  endpoint status body =
      try_except (session_scope env request body >>= λ a. pure (answered status a))
        (λ exc. pure (failed (handle_exception exc)))

  unfoldable pub create_chunks : ChunkRequest → Exec (Answer ChunkResponse)
  unfolding endpoint
  create_chunks r = endpoint 201 (ingest_and_chunk env r)

  unfoldable pub post_analysis : AnalysisRequest → Exec (Answer AnalysisJobResponse)
  unfolding endpoint job_response
  post_analysis r = endpoint 200 (analyze env r true >>= λ job. pure (job_response job))

  unfoldable pub get_analysis : ℤ → Exec (Answer AnalysisJobResponse)
  unfolding endpoint job_response
  get_analysis document_id =
      endpoint 200 (get_analysis_for_document env document_id >>= λ job. pure (job_response job))

  unfoldable pub send_message : ChatRequest → Exec (Answer ChatResponse)
  unfolding endpoint
  send_message r = endpoint 200 (chat_with env r)

  unfoldable pub delete_session : Text → Exec (Answer Unit)
  unfolding endpoint
  delete_session session_id = endpoint 204 (reset_session env session_id)

  unfoldable pub embed_profile : ℤ → Text → Exec (Answer ProfileEmbedResponse)
  unfolding endpoint
  embed_profile user_id profile_text = endpoint 200 (do
    stored ← embed_and_store env user_id profile_text
    pure (record { user_id = stored.user_id; stored = true; has_embedding = true }))

  unfoldable pub post_diagnosis : Ratios → JsonReader → ℤ → ℤ → Exec (Answer DiagnoseResponse)
  unfolding endpoint diagnose_response
  post_diagnosis ratios reader user_id document_id = endpoint 200 (do
    diag ← diagnose env ratios reader user_id document_id
    or_raise (diagnose_response diag) refused)
