-- ===== src/Migrations/Steps.antt =====
-- alembic/versions: the schema after each revision, on top of a database that has none of its names.
use ject6_4th_ai_analyzer.Base.{
  ◌≡◌, refl, true, false, some, List, [], ◌∷◌, ◌++◌, Text, codes, All, ◌==◌, text_eq,
}
use ject6_4th_ai_analyzer.Migrations.{
  string, timestamp, tsvector, Table, Index, Schema, has_table, has_index, is_referenced, not_on,
  not_using, apply, apply_all,
}
use ject6_4th_ai_analyzer.Migrations.Revisions.{
  column, index, unique, documents, document_chunks, analysis_jobs, blog_diagnoses,
  profile_embeddings, init_upgrade, init_downgrade, tsvector_upgrade, tsvector_downgrade,
  crawl_upgrade, crawl_downgrade, diagnosis_upgrade, diagnosis_downgrade, profile_upgrade,
  profile_downgrade,
}

-- The tables of the revisions, and their indexes.
abbrev pub our_tables : List Text
our_tables =
    codes "documents"
    ∷ codes "document_chunks"
    ∷ codes "analysis_jobs"
    ∷ codes "blog_diagnoses"
    ∷ codes "profile_embeddings"
    ∷ []

abbrev pub our_indexes : List Text
our_indexes =
    codes "ix_documents_user_source"
    ∷ codes "ix_documents_external_id"
    ∷ codes "ix_chunks_document_id"
    ∷ codes "ix_chunks_embedding_hnsw"
    ∷ codes "ix_analysis_user_id"
    ∷ codes "ix_analysis_document_id"
    ∷ codes "ix_chunks_content_tsv"
    ∷ codes "uq_documents_user_source_external"
    ∷ codes "ix_blog_diagnoses_user_id"
    ∷ codes "ix_profile_embeddings_user_id"
    ∷ codes "ix_profile_embeddings_user_created"
    ∷ codes "uq_profile_embeddings_user_hash"
    ∷ []

-- A database that has nothing of these names, and nothing on tables of these names.
pub record Foreign (s : Schema) : Type 0 where
  pub no_tables : All (λ t. has_table t s.tables ≡ false) our_tables
  pub no_indexes : All (λ n. has_index n s.indexes ≡ false) our_indexes
  pub no_references : All (λ t. is_referenced t s.tables ≡ false) our_tables
  pub elsewhere : All (λ t. All (λ (i : Index). (i.table == t) ≡ false) s.indexes) our_tables

not_on-elsewhere :
    (t : Text) (is : List Index) → All (λ (i : Index). (i.table == t) ≡ false) is → not_on t is ≡ is
not_on-elsewhere t [] h = refl
not_on-elsewhere t (i ∷ is) h = rw (h.0, not_on-elsewhere t is h.1)

not_using-elsewhere :
    (t c : Text) (is : List Index)
    → All (λ (i : Index). (i.table == t) ≡ false) is
    → not_using t c is ≡ is
not_using-elsewhere t c [] h = refl
not_using-elsewhere t c (i ∷ is) h = rw (h.0, not_using-elsewhere t c is h.1)

abbrev pub init_schema : Schema → Schema
init_schema s = record {
  has_vector = true;
  version_width = s.version_width;
  tables = analysis_jobs ∷ document_chunks ∷ documents ∷ s.tables;
  indexes =
      index (codes "ix_analysis_document_id") (codes "analysis_jobs") (codes "document_id" ∷ [])
      ∷ index (codes "ix_analysis_user_id") (codes "analysis_jobs") (codes "user_id" ∷ [])
      ∷ index (codes "ix_chunks_embedding_hnsw") (codes "document_chunks") (codes "embedding" ∷ [])
      ∷ index (codes "ix_chunks_document_id") (codes "document_chunks") (codes "document_id" ∷ [])
      ∷ index (codes "ix_documents_external_id") (codes "documents") (codes "external_id" ∷ [])
      ∷ index (codes "ix_documents_user_source") (codes "documents")
          (codes "user_id" ∷ codes "source_type" ∷ [])
      ∷ s.indexes;
}

pub init_up : (s : Schema) → Foreign s → apply_all init_upgrade s ≡ some (init_schema s)
unfolding apply_all apply init_upgrade
init_up s f =
    let (t1, (t2, (t3, _))) = f.no_tables in
    let (i1, (i2, (i3, (i4, (i5, (i6, _)))))) = f.no_indexes in
    rw (apply_all, apply, t1, i1, i2, t2, i3, i4, t3, i5, i6)

pub init_down :
    (s : Schema)
    → Foreign s
    → apply_all init_downgrade (init_schema s) ≡ some (record s { has_vector = true })
unfolding apply_all apply init_downgrade
init_down s f =
    let (r1, (r2, (r3, _))) = f.no_references in
    let (e1, (e2, (e3, _))) = f.elsewhere in
    rw (
      r3,
      not_on-elsewhere _ s.indexes e3,
      r2,
      not_on-elsewhere _ s.indexes e2,
      r1,
      not_on-elsewhere _ s.indexes e1,
    )

abbrev pub chunks_with_tsv : Table
chunks_with_tsv = record document_chunks {
  columns =
      document_chunks.columns
      ++ (record (column (codes "content_tsv") tsvector true) {
        generated = some (codes "to_tsvector('simple', content)");
      }
          ∷ []);
}

abbrev pub tsvector_schema : Schema → Schema
tsvector_schema s = record (init_schema s) {
  tables = analysis_jobs ∷ chunks_with_tsv ∷ documents ∷ s.tables;
  indexes =
      index (codes "ix_chunks_content_tsv") (codes "document_chunks") (codes "content_tsv" ∷ [])
      ∷ (init_schema s).indexes;
}

pub tsvector_up :
    (s : Schema) → Foreign s → apply_all tsvector_upgrade (init_schema s) ≡ some (tsvector_schema s)
unfolding apply_all apply tsvector_upgrade
tsvector_up s f = rw (apply_all, apply, f.no_indexes.1.1.1.1.1.1.0)

pub tsvector_down :
    (s : Schema)
    → Foreign s
    → apply_all tsvector_downgrade (tsvector_schema s) ≡ some (init_schema s)
unfolding apply_all apply tsvector_downgrade
tsvector_down s f =
    rw (
      not_using-elsewhere (codes "document_chunks") (codes "content_tsv") s.indexes f.elsewhere.1.0)

abbrev pub crawled_documents : Table
crawled_documents = record documents {
  columns =
      documents.columns
      ++ (column (codes "content_hash") (string 64) true
          ∷ column (codes "crawled_at") timestamp true
          ∷ column (codes "ingestion_status") (string 32) false
          ∷ []);
}

abbrev pub crawl_schema : Schema → Schema
crawl_schema s = record (tsvector_schema s) {
  tables = analysis_jobs ∷ chunks_with_tsv ∷ crawled_documents ∷ s.tables;
}

pub crawl_up : (s : Schema) → apply_all crawl_upgrade (tsvector_schema s) ≡ some (crawl_schema s)
unfolding apply_all apply crawl_upgrade
crawl_up s = refl

pub crawl_down :
    (s : Schema) → Foreign s → apply_all crawl_downgrade (crawl_schema s) ≡ some (tsvector_schema s)
unfolding apply_all apply crawl_downgrade
crawl_down s f = rw (
  not_using-elsewhere (codes "documents") (codes "ingestion_status") s.indexes f.elsewhere.0,
  not_using-elsewhere (codes "documents") (codes "crawled_at") s.indexes f.elsewhere.0,
  not_using-elsewhere (codes "documents") (codes "content_hash") s.indexes f.elsewhere.0,
)

abbrev pub diagnosis_schema : Schema → Schema
diagnosis_schema s = record (crawl_schema s) {
  version_width = 64;
  tables = profile_embeddings ∷ blog_diagnoses ∷ (crawl_schema s).tables;
  indexes =
      index (codes "ix_profile_embeddings_user_id") (codes "profile_embeddings")
        (codes "user_id" ∷ [])
      ∷ index (codes "ix_blog_diagnoses_user_id") (codes "blog_diagnoses") (codes "user_id" ∷ [])
      ∷ unique (codes "uq_documents_user_source_external") (codes "documents")
          (codes "user_id" ∷ codes "source_type" ∷ codes "external_id" ∷ [])
      ∷ (crawl_schema s).indexes;
}

pub diagnosis_up :
    (s : Schema)
    → Foreign s
    → apply_all diagnosis_upgrade (crawl_schema s) ≡ some (diagnosis_schema s)
unfolding apply_all apply diagnosis_upgrade
diagnosis_up s f =
    let (u, (b, (p, _))) = f.no_indexes.1.1.1.1.1.1.1 in
    let (t, (v, _)) = f.no_tables.1.1.1 in rw (apply_all, apply, u, t, b, v, p)

pub diagnosis_down :
    (s : Schema)
    → Foreign s
    → apply_all diagnosis_downgrade (diagnosis_schema s)
      ≡ some (crawl_schema (record s { version_width = 64 }))
unfolding apply_all apply diagnosis_downgrade
diagnosis_down s f =
    let (r, (q, _)) = f.no_references.1.1.1 in
    let (e, (d, _)) = f.elsewhere.1.1.1 in
    rw (
      q,
      not_on-elsewhere (codes "profile_embeddings") s.indexes d,
      r,
      not_on-elsewhere (codes "blog_diagnoses") s.indexes e,
    )

abbrev pub hashed_profiles : Table
hashed_profiles = record profile_embeddings {
  columns = profile_embeddings.columns ++ (column (codes "profile_hash") (string 64) true ∷ []);
}

abbrev pub head_schema : Schema → Schema
head_schema s = record (diagnosis_schema s) {
  tables = hashed_profiles ∷ blog_diagnoses ∷ (crawl_schema s).tables;
  indexes =
      unique (codes "uq_profile_embeddings_user_hash") (codes "profile_embeddings")
        (codes "user_id" ∷ codes "profile_hash" ∷ [])
      ∷ index (codes "ix_profile_embeddings_user_created") (codes "profile_embeddings")
          (codes "user_id" ∷ codes "created_at" ∷ [])
      ∷ (diagnosis_schema s).indexes;
}

pub profile_up :
    (s : Schema) → Foreign s → apply_all profile_upgrade (diagnosis_schema s) ≡ some (head_schema s)
unfolding apply_all apply profile_upgrade
profile_up s f = let (c, (h, _)) = f.no_indexes.1.1.1.1.1.1.1.1.1.1 in rw (apply_all, apply, c, h)

pub profile_down :
    (s : Schema)
    → Foreign s
    → apply_all profile_downgrade (head_schema s) ≡ some (diagnosis_schema s)
unfolding apply_all apply profile_downgrade
profile_down s f = rw (
    not_using-elsewhere (codes "profile_embeddings") (codes "profile_hash") s.indexes
      f.elsewhere.1.1.1.1.0)
