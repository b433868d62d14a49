-- ===== src/Domain/Schemas.antt =====
-- app/domain/schemas.py: what requests, responses and queue messages hold once pydantic has
-- accepted them. A float is the pattern of its 64 bits.
use ject6_4th_ai_analyzer.Base.{ℕ, Option, List, Text}
use ject6_4th_ai_analyzer.Base.Int.{ℤ}
use ject6_4th_ai_analyzer.Domain.Enums.{SourceType, AnalysisMode, ChatRole}
use ject6_4th_ai_analyzer.Domain.Json.{Fields}

abbrev pub Float64 : Type 0
Float64 = ℕ

abbrev pub Embedding : Type 0
Embedding = List Float64

-- `min_length=1` of the content is checked where the request is made.
pub record ChunkRequest : Type 0 where
  pub user_id : ℤ
  pub source_type : SourceType
  pub title : Text
  pub content : Text
  pub url : Option Text
  pub external_id : Option Text
  pub metadata : Fields
  pub content_hash : Option Text
  pub crawled_at : Option ℕ
  pub ingestion_status : Text

pub record ChunkResponse : Type 0 where
  pub document_id : ℤ
  pub chunk_count : ℕ

pub record AnalysisRequest : Type 0 where
  pub user_id : ℤ
  pub document_id : Option ℤ
  pub correlation_id : Option Text
  pub analysis_mode : Option AnalysisMode
  pub batch_id : Option Text
  pub source_document_ids : Option (List ℤ)

pub record ChatMessage : Type 0 where
  pub role : ChatRole
  pub content : Text

pub record ChatRequest : Type 0 where
  pub user_id : ℤ
  pub session_id : Text
  pub document_id : ℤ
  pub message : Text

pub record ChatResponse : Type 0 where
  pub session_id : Text
  pub reply : Text
  pub tokens_used : ℤ
  pub tokens_remaining : ℤ
