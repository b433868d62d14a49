-- ===== src/Migrations/Revisions.antt =====
-- alembic/versions: the five revisions, each with its downgrade, and the two ways along them.

use ject6_4th_ai_analyzer.Base.{Bool, true, false, none, some, List, [], ◌∷◌, ◌++◌, Text, codes}
use ject6_4th_ai_analyzer.Migrations.{
  SqlType, big_integer, integer, sql_text, json, timestamp, tsvector, string, vector, Column, Table,
  Index, Operation, create_extension, widen_version, create_table, drop_table, add_column,
  drop_column, drop_default, create_index, drop_index,
}

-- `sa.Column(name, type, nullable=…)`
abbrev pub column : Text → SqlType → Bool → Column
column name sql_type nullable = record {
  name = name;
  sql_type = sql_type;
  nullable = nullable;
  is_primary = false;
  references = none;
  server_default = none;
  generated = none;
}

abbrev pub id_column : Column
id_column = record (column (codes "id") big_integer false) { is_primary = true }

abbrev pub with_default : Text → SqlType → Text → Column
with_default name sql_type default = record (column name sql_type false) {
  server_default = some default;
}

abbrev pub stamp : Text → Column
stamp name = with_default name timestamp (codes "now()")

abbrev pub foreign_key : Text → Bool → Text → Text → Column
foreign_key name nullable table on_delete = record (column name big_integer nullable) {
  references = some (table, on_delete);
}

abbrev pub index : Text → Text → List Text → Index
index name table columns = record {
  name = name;
  table = table;
  columns = columns;
  is_unique = false;
}

abbrev pub unique : Text → Text → List Text → Index
unique name table columns = record {
  name = name;
  table = table;
  columns = columns;
  is_unique = true;
}

abbrev pub documents : Table
documents = record {
  name = codes "documents";
  columns =
      id_column
      ∷ column (codes "user_id") big_integer false
      ∷ column (codes "source_type") (string 32) false
      ∷ column (codes "external_id") (string 255) true
      ∷ column (codes "url") (string 2048) true
      ∷ column (codes "title") (string 512) false
      ∷ column (codes "content") sql_text false
      ∷ with_default (codes "doc_metadata") json (codes "{}")
      ∷ stamp (codes "created_at")
      ∷ [];
}

abbrev pub document_chunks : Table
document_chunks = record {
  name = codes "document_chunks";
  columns =
      id_column
      ∷ foreign_key (codes "document_id") false (codes "documents") (codes "CASCADE")
      ∷ column (codes "chunk_index") integer false
      ∷ column (codes "content") sql_text false
      ∷ column (codes "token_count") integer false
      ∷ column (codes "embedding") (vector 768) false
      ∷ stamp (codes "created_at")
      ∷ [];
}

abbrev pub analysis_jobs : Table
analysis_jobs = record {
  name = codes "analysis_jobs";
  columns =
      id_column
      ∷ column (codes "user_id") big_integer false
      ∷ foreign_key (codes "document_id") false (codes "documents") (codes "CASCADE")
      ∷ with_default (codes "status") (string 32) (codes "pending")
      ∷ with_default (codes "result") json (codes "{}")
      ∷ column (codes "error_message") sql_text true
      ∷ stamp (codes "created_at")
      ∷ stamp (codes "updated_at")
      ∷ [];
}

abbrev pub blog_diagnoses : Table
blog_diagnoses = record {
  name = codes "blog_diagnoses";
  columns =
      id_column
      ∷ column (codes "user_id") big_integer false
      ∷ foreign_key (codes "analysis_job_id") true (codes "analysis_jobs") (codes "SET NULL")
      ∷ with_default (codes "metrics") json (codes "{}")
      ∷ with_default (codes "category_fit") json (codes "{}")
      ∷ with_default (codes "strengths") json (codes "[]")
      ∷ with_default (codes "weaknesses") json (codes "[]")
      ∷ column (codes "result_embedding") (vector 768) true
      ∷ stamp (codes "created_at")
      ∷ [];
}

abbrev pub profile_embeddings : Table
profile_embeddings = record {
  name = codes "profile_embeddings";
  columns =
      id_column
      ∷ column (codes "user_id") big_integer false
      ∷ column (codes "embedding") (vector 768) false
      ∷ stamp (codes "created_at")
      ∷ [];
}

-- 0001_init
unfoldable pub init_upgrade : List Operation
init_upgrade =
    create_extension
    ∷ create_table documents
    ∷ create_index (
        index (codes "ix_documents_user_source") (codes "documents")
          (codes "user_id" ∷ codes "source_type" ∷ []))
    ∷ create_index
        (index (codes "ix_documents_external_id") (codes "documents") (codes "external_id" ∷ []))
    ∷ create_table document_chunks
    ∷ create_index
        (index (codes "ix_chunks_document_id") (codes "document_chunks") (codes "document_id" ∷ []))
    ∷ create_index (
        index (codes "ix_chunks_embedding_hnsw") (codes "document_chunks") (codes "embedding" ∷ []))
    ∷ create_table analysis_jobs
    ∷ create_index
        (index (codes "ix_analysis_user_id") (codes "analysis_jobs") (codes "user_id" ∷ []))
    ∷ create_index
        (index (codes "ix_analysis_document_id") (codes "analysis_jobs") (codes "document_id" ∷ []))
    ∷ []

unfoldable pub init_downgrade : List Operation
init_downgrade =
    drop_table (codes "analysis_jobs")
    ∷ drop_index (codes "ix_chunks_embedding_hnsw") true
    ∷ drop_table (codes "document_chunks")
    ∷ drop_table (codes "documents")
    ∷ []

-- 0002_tsvector; `DROP COLUMN IF EXISTS` finds the column there.
unfoldable pub tsvector_upgrade : List Operation
tsvector_upgrade =
    add_column (codes "document_chunks") (record (column (codes "content_tsv") tsvector true) {
      generated = some (codes "to_tsvector('simple', content)");
    })
    ∷ create_index
        (index (codes "ix_chunks_content_tsv") (codes "document_chunks") (codes "content_tsv" ∷ []))
    ∷ []

unfoldable pub tsvector_downgrade : List Operation
tsvector_downgrade =
    drop_index (codes "ix_chunks_content_tsv") true
    ∷ drop_column (codes "document_chunks") (codes "content_tsv")
    ∷ []

-- 0003_crawl_metadata
unfoldable pub crawl_upgrade : List Operation
crawl_upgrade =
    add_column (codes "documents") (column (codes "content_hash") (string 64) true)
    ∷ add_column (codes "documents") (column (codes "crawled_at") timestamp true)
    ∷ add_column (codes "documents")
        (with_default (codes "ingestion_status") (string 32) (codes "completed"))
    ∷ drop_default (codes "documents") (codes "ingestion_status")
    ∷ []

unfoldable pub crawl_downgrade : List Operation
crawl_downgrade =
    drop_column (codes "documents") (codes "ingestion_status")
    ∷ drop_column (codes "documents") (codes "crawled_at")
    ∷ drop_column (codes "documents") (codes "content_hash")
    ∷ []

-- 0004_r1_r2_r4
unfoldable pub diagnosis_upgrade : List Operation
diagnosis_upgrade =
    widen_version 64
    ∷ create_index (
        unique (codes "uq_documents_user_source_external") (codes "documents")
          (codes "user_id" ∷ codes "source_type" ∷ codes "external_id" ∷ []))
    ∷ create_table blog_diagnoses
    ∷ create_index
        (index (codes "ix_blog_diagnoses_user_id") (codes "blog_diagnoses") (codes "user_id" ∷ []))
    ∷ create_table profile_embeddings
    ∷ create_index (
        index (codes "ix_profile_embeddings_user_id") (codes "profile_embeddings")
          (codes "user_id" ∷ []))
    ∷ []

unfoldable pub diagnosis_downgrade : List Operation
diagnosis_downgrade =
    drop_table (codes "profile_embeddings")
    ∷ drop_table (codes "blog_diagnoses")
    ∷ drop_index (codes "uq_documents_user_source_external") false
    ∷ []

-- 0005_profile_hash
unfoldable pub profile_upgrade : List Operation
profile_upgrade =
    add_column (codes "profile_embeddings") (column (codes "profile_hash") (string 64) true)
    ∷ create_index (
        index (codes "ix_profile_embeddings_user_created") (codes "profile_embeddings")
          (codes "user_id" ∷ codes "created_at" ∷ []))
    ∷ create_index (
        unique (codes "uq_profile_embeddings_user_hash") (codes "profile_embeddings")
          (codes "user_id" ∷ codes "profile_hash" ∷ []))
    ∷ []

unfoldable pub profile_downgrade : List Operation
profile_downgrade =
    drop_index (codes "uq_profile_embeddings_user_hash") false
    ∷ drop_index (codes "ix_profile_embeddings_user_created") false
    ∷ drop_column (codes "profile_embeddings") (codes "profile_hash")
    ∷ []

-- `alembic upgrade head` from nothing, and `alembic downgrade base`: the chain of `down_revision`.
unfoldable pub upgrade_all : List Operation
unfolding init_upgrade tsvector_upgrade crawl_upgrade diagnosis_upgrade profile_upgrade
upgrade_all =
    init_upgrade ++ (tsvector_upgrade ++ (crawl_upgrade ++ (diagnosis_upgrade ++ profile_upgrade)))

unfoldable pub downgrade_all : List Operation
unfolding init_downgrade tsvector_downgrade crawl_downgrade diagnosis_downgrade profile_downgrade
downgrade_all =
    profile_downgrade
    ++ (diagnosis_downgrade ++ (crawl_downgrade ++ (tsvector_downgrade ++ init_downgrade)))
