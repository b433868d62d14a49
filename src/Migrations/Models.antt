-- ===== src/Migrations/Models.antt =====
-- app/domain/models.py: the columns that the classes declare, and whether a table has them. Defaults are
-- left out, since the classes fill most of them in themselves.
use ject6_4th_ai_analyzer.Base.{
  Bool, true, false, not, ◌&&◌, ◌||◌, Option, none, some, List, [], ◌∷◌, Text, codes, ◌==◌, text_eq,
  eqb,
}
use ject6_4th_ai_analyzer.Migrations.{
  SqlType, big_integer, integer, sql_text, json, timestamp, tsvector, string, vector, Column, Table,
}
use ject6_4th_ai_analyzer.Migrations.Revisions.{column, id_column, foreign_key}

abbrev pub document_class : Table
document_class = record {
  name = codes "documents";
  columns =
      id_column
      ∷ column (codes "user_id") big_integer false
      ∷ column (codes "source_type") (string 32) false
      ∷ column (codes "external_id") (string 255) true
      ∷ column (codes "url") (string 2048) true
      ∷ column (codes "title") (string 512) false
      ∷ column (codes "content") sql_text false
      ∷ column (codes "doc_metadata") json false
      ∷ column (codes "content_hash") (string 64) true
      ∷ column (codes "crawled_at") timestamp true
      ∷ column (codes "ingestion_status") (string 32) false
      ∷ column (codes "created_at") timestamp false
      ∷ [];
}

abbrev pub chunk_class : Table
chunk_class = record {
  name = codes "document_chunks";
  columns =
      id_column
      ∷ foreign_key (codes "document_id") false (codes "documents") (codes "CASCADE")
      ∷ column (codes "chunk_index") integer false
      ∷ column (codes "content") sql_text false
      ∷ column (codes "token_count") integer false
      ∷ column (codes "embedding") (vector 768) false
      ∷ column (codes "created_at") timestamp false
      ∷ [];
}

abbrev pub diagnosis_class : Table
diagnosis_class = record {
  name = codes "blog_diagnoses";
  columns =
      id_column
      ∷ column (codes "user_id") big_integer false
      ∷ foreign_key (codes "analysis_job_id") true (codes "analysis_jobs") (codes "SET NULL")
      ∷ column (codes "metrics") json false
      ∷ column (codes "category_fit") json false
      ∷ column (codes "strengths") json false
      ∷ column (codes "weaknesses") json false
      ∷ column (codes "result_embedding") (vector 768) true
      ∷ column (codes "created_at") timestamp false
      ∷ [];
}

abbrev pub profile_class : Table
profile_class = record {
  name = codes "profile_embeddings";
  columns =
      id_column
      ∷ column (codes "user_id") big_integer false
      ∷ column (codes "embedding") (vector 768) false
      ∷ column (codes "profile_hash") (string 64) true
      ∷ column (codes "created_at") timestamp false
      ∷ [];
}

abbrev pub job_class : Table
job_class = record {
  name = codes "analysis_jobs";
  columns =
      id_column
      ∷ column (codes "user_id") big_integer false
      ∷ foreign_key (codes "document_id") false (codes "documents") (codes "CASCADE")
      ∷ column (codes "status") (string 32) false
      ∷ column (codes "result") json false
      ∷ column (codes "error_message") sql_text true
      ∷ column (codes "created_at") timestamp false
      ∷ column (codes "updated_at") timestamp false
      ∷ [];
}

-- The classes whose tables the revisions own; the table of influencers belongs to another program.
abbrev pub classes : List Table
classes = document_class ∷ chunk_class ∷ diagnosis_class ∷ profile_class ∷ job_class ∷ []

abbrev same_type : SqlType → SqlType → Bool
same_type big_integer big_integer = true
same_type integer integer = true
same_type sql_text sql_text = true
same_type json json = true
same_type timestamp timestamp = true
same_type tsvector tsvector = true
same_type (string n) (string m) = eqb n m
same_type (vector n) (vector m) = eqb n m
same_type _ _ = false

abbrev same_bool : Bool → Bool → Bool
same_bool true b = b
same_bool false b = not b

abbrev same_reference : Option (Text × Text) → Option (Text × Text) → Bool
same_reference none none = true
same_reference (some r) (some q) = (r.0 == q.0) && (r.1 == q.1)
same_reference _ _ = false

-- The same but for their defaults.
abbrev pub agrees : Column → Column → Bool
agrees c k =
    (c.name == k.name)
    && same_type c.sql_type k.sql_type
    && same_bool c.nullable k.nullable
    && same_bool c.is_primary k.is_primary
    && same_reference c.references k.references

abbrev pub declared_in : Column → List Column → Bool
declared_in c [] = false
declared_in c (k ∷ ks) = agrees c k || declared_in c ks

abbrev pub all_declared : List Column → List Column → Bool
all_declared [] ks = true
all_declared (c ∷ cs) ks = declared_in c ks && all_declared cs ks

-- The columns that the database does not fill in itself.
abbrev pub written : List Column → List Column
written [] = []
written (c ∷ cs) = elim c.generated [ none ↦ c ∷ written cs | some _ ↦ written cs ]

-- The columns of a class are those of its table, but for generated ones.
abbrev pub matches : Table → Table → Bool
matches m t =
    (m.name == t.name)
    && all_declared m.columns t.columns
    && all_declared (written t.columns) m.columns

abbrev pub has_match : Table → List Table → Bool
has_match m [] = false
has_match m (t ∷ ts) = matches m t || has_match m ts
