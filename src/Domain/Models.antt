-- ===== src/Domain/Models.antt =====
-- app/domain/models.py: the rows of the tables. Ids are PostgreSQL's, and a time is in milliseconds.
use ject6_4th_ai_analyzer.Base.{ℕ, Option, Text}
use ject6_4th_ai_analyzer.Base.Int.{ℤ}
use ject6_4th_ai_analyzer.Domain.Enums.{SourceType, AnalysisStatus}
use ject6_4th_ai_analyzer.Domain.Json.{Json, Fields}
use ject6_4th_ai_analyzer.Domain.Schemas.{Embedding}

-- The columns of a document that the program gives.
pub record DocumentColumns : Type 0 where
  pub user_id : ℤ
  pub source_type : SourceType
  pub external_id : Option Text
  pub url : Option Text
  pub title : Text
  pub content : Text
  pub doc_metadata : Fields
  pub content_hash : Option Text
  pub crawled_at : Option ℕ
  pub ingestion_status : Text

pub record Document : Type 0 where
  pub id : ℤ
  pub columns : DocumentColumns
  pub open columns use *

pub record DocumentChunk : Type 0 where
  pub document_id : ℤ
  pub chunk_index : ℕ
  pub content : Text
  pub token_count : ℕ
  pub embedding : Embedding

pub record Influencer : Type 0 where
  pub influencer_name : Option Text
  pub blog_name : Option Text
  pub title : Option Text
  pub thumbnail_url : Option Text
  pub blog_url : Text
  pub category : Option Text

pub record AnalysisJob : Type 0 where
  pub id : ℤ
  pub user_id : ℤ
  pub document_id : ℤ
  pub status : AnalysisStatus
  pub result : Fields
  pub error_message : Option Text

-- The columns of a diagnosis that the program gives. The JSON columns take any value.
pub record DiagnosisColumns : Type 0 where
  pub user_id : ℤ
  pub analysis_job_id : Option ℤ
  pub metrics : Json
  pub category_fit : Json
  pub strengths : Json
  pub weaknesses : Json
  pub result_embedding : Option Embedding

pub record BlogDiagnosis : Type 0 where
  pub id : ℤ
  pub columns : DiagnosisColumns
  pub open columns use *

pub record ProfileColumns : Type 0 where
  pub user_id : ℤ
  pub embedding : Embedding
  pub profile_hash : Option Text

pub record ProfileEmbedding : Type 0 where
  pub id : ℤ
  pub columns : ProfileColumns
  pub open columns use *
