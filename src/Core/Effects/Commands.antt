-- ===== src/Core/Effects/Commands.antt =====
-- The calls that leave the process, and what each returns.
use ject6_4th_ai_analyzer.Base.{ℕ, Bool, Option, List, Text}
use ject6_4th_ai_analyzer.Base.Int.{ℤ}
use ject6_4th_ai_analyzer.Base.Dict.{Dict}
use ject6_4th_ai_analyzer.Domain.Enums.{SourceType, AnalysisStatus}
use ject6_4th_ai_analyzer.Domain.Json.{Fields}
use ject6_4th_ai_analyzer.Domain.Schemas.{Embedding, ChatMessage}
use ject6_4th_ai_analyzer.Domain.Models.{
  DocumentColumns, Document, DocumentChunk, Influencer, AnalysisJob, DiagnosisColumns,
  BlogDiagnosis, ProfileColumns, ProfileEmbedding,
}
use ject6_4th_ai_analyzer.Core.RateLimiter.{Rate, RateLimitResult}

-- The places of the program that open a database session.
pub data Scope : Type 0 where
  influencer ingest snapshot analysis request health : Scope

pub record ContextChunk : Type 0 where
  pub document_id : ℤ
  pub title : Text
  pub content_preview : Text
  pub source_type : Text
  pub score : ℕ

-- The value of a header of a RabbitMQ message, which `int` takes, or tries to read, or refuses.
pub data Header : Type 0 where
  int_header : ℤ → Header
  text_header : Text → Header
  other_header : Header

pub data Command : Type 0 where
  -- the clock, in milliseconds
  time : Command
  -- whether `stop` has been called
  stop_requested : Command
  -- Redis: keys
  get : Text → Command
  set : Text → Text → ℕ → Command
  set_nx : Text → Text → ℕ → Command
  incr : Text → Command
  incrby : Text → ℕ → Command
  sadd : Text → Text → Command
  smembers : Text → Command
  expire : Text → ℕ → Command
  delete : List Text → Command
  rpush : Text → Text → Command
  lrange : Text → Command
  mget : List Text → Command
  pipeline_set : List (Text × Text) → ℕ → Command
  eval_transition : Text → Text → Text → ℕ → Command
  eval_token_bucket : Text → Rate → ℕ → ℕ → Command
  -- Redis: streams
  xgroup_create : Text → Text → Command
  xreadgroup : Text → Text → Text → ℕ → ℕ → Command
  xautoclaim : Text → Text → Text → ℕ → ℕ → Command
  xack : Text → Text → Text → Command
  xadd : Text → Dict Text → Command
  -- the database
  open_session commit rollback close : Scope → Command
  get_document : ℤ → Command
  select_document : ℤ → SourceType → Text → Command
  insert_document : DocumentColumns → Command
  assign_document : ℤ → DocumentColumns → Command
  delete_chunks : ℤ → Command
  insert_chunks : List DocumentChunk → Command
  insert_influencer : Influencer → Command
  insert_job : ℤ → ℤ → Command
  assign_job : ℤ → AnalysisStatus → Option Fields → Option Text → Command
  latest_job : ℤ → Command
  refresh_job : ℤ → Command
  avg_embedding : ℤ → Command
  my_blog_context : ℤ → Embedding → ℤ → ℕ → Command
  ext_blog_context : Embedding → ℕ → Command
  job_posting_context : Embedding → ℕ → Command
  insert_diagnosis : DiagnosisColumns → Command
  refresh_diagnosis : ℤ → Command
  select_profile : ℤ → Text → Command
  insert_profile : ProfileColumns → Command
  refresh_profile : ℤ → Command
  select_one : Command
  -- the providers of language models
  create_embeddings : Text → List Text → Option ℕ → Command
  create_chat : Text → List ChatMessage → ℕ → ℕ → Option Text → Command
  ollama_chat : Text → Text → List ChatMessage → ℕ → ℕ → Option Text → Command
  -- RabbitMQ
  publish : Text → Text → Dict Header → Command
  ack : Command
  reject : Bool → Command
  -- what readiness asks of Redis and RabbitMQ
  ping connect_queue close_queue : Command

abbrev pub Reply : Command → Type 0
Reply time = ℕ
Reply (get _) = Option Text
Reply (set_nx _ _ _) = Bool
Reply (incr _) = ℤ
Reply (incrby _ _) = ℤ
Reply (smembers _) = List Text
Reply (lrange _) = List Text
Reply (mget _) = List (Option Text)
Reply (eval_transition _ _ _ _) = Bool
Reply (eval_token_bucket _ _ _ _) = RateLimitResult
Reply (xreadgroup _ _ _ _ _) = List (Text × List (Text × Dict Text))
Reply (xautoclaim _ _ _ _ _) = Option (List (Text × Dict Text))
Reply stop_requested = Bool
Reply (xadd _ _) = Text
Reply (get_document _) = Option Document
Reply (select_document _ _ _) = Option Document
Reply (insert_document _) = ℤ
Reply (insert_job _ _) = ℤ
Reply (latest_job _) = Option AnalysisJob
Reply (refresh_job _) = AnalysisJob
Reply (avg_embedding _) = Option Embedding
Reply (my_blog_context _ _ _ _) = List ContextChunk
Reply (ext_blog_context _ _) = List ContextChunk
Reply (job_posting_context _ _) = List ContextChunk
Reply (insert_diagnosis _) = ℤ
Reply (refresh_diagnosis _) = BlogDiagnosis
Reply (select_profile _ _) = Option ProfileEmbedding
Reply (insert_profile _) = ℤ
Reply (refresh_profile _) = ProfileEmbedding
Reply (create_embeddings _ _ _) = List Embedding
Reply (create_chat _ _ _ _ _) = Option Text
Reply (ollama_chat _ _ _ _ _ _) = Option Text
Reply _ = Unit
