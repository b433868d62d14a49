-- ===== src/Repository/ContextRetrieval.antt =====
-- app/repository/context_retrieval_repository.py: the vector of a document, and the SQL of the three
-- queries as functions on the rows of the tables, in any order in which the database may scan them.
-- The operators of pgvector on floats are a parameter.
pub mod Best
pub mod TopK
pub mod Sources
pub mod Average
pub mod Private
use ject6_4th_ai_analyzer.Base.{
  ℕ, Bool, not, ◌&&◌, Option, none, some, List, [], ◌∷◌, map, Text, codes, ◌==◌, text_eq, take,
  split, leb, if◌then◌else◌,
}
use ject6_4th_ai_analyzer.Base.Int.{ℤ, int_eq, ltb_ℤ}
use ject6_4th_ai_analyzer.Base.Sorting.{sort_by, distinct_on}
use ject6_4th_ai_analyzer.Domain.Enums.{source_value}
use ject6_4th_ai_analyzer.Domain.Schemas.{Float64, Embedding}
use ject6_4th_ai_analyzer.Domain.Models.{Document, DocumentChunk}
use ject6_4th_ai_analyzer.Core.Exceptions.{builtin, value_error}
use ject6_4th_ai_analyzer.Core.Effects.{ContextChunk, Result, ok, err}

-- `<=>`, `1 - x`, and the place of a float in the order by which PostgreSQL sorts.
pub record Pgvector : Type 0 where
  pub distance : Embedding → Embedding → Float64
  pub one_minus : Float64 → Float64
  pub rank : Float64 → ℕ

-- The two tables.
pub record Tables : Type 0 where
  pub documents : List Document
  pub document_chunks : List DocumentChunk

-- A row of the inner query, with the expression that it is ordered by.
pub record Row : Type 0 where
  pub document_id : ℤ
  pub title : Text
  pub content_preview : Text
  pub source_type : Text
  pub distance : Float64
  pub score : Float64

unfoldable pub row : Pgvector → Embedding → DocumentChunk → Document → Row
row pg embedding c d =
    let distance = pg.distance c.embedding embedding in
    record {
      document_id = d.id;
      title = d.title;
      content_preview = take 300 c.content;
      source_type = source_value d.source_type;
      distance = distance;
      score = pg.one_minus distance;
    }

-- `FROM document_chunks c JOIN documents d ON d.id = c.document_id WHERE …`
unfoldable pub rows_of_chunk :
    Pgvector → Embedding → (Document → Bool) → DocumentChunk → List Document → List Row → List Row
unfolding row
rows_of_chunk pg embedding selects c [] rest = rest
rows_of_chunk pg embedding selects c (d ∷ ds) rest =
    let others = rows_of_chunk pg embedding selects c ds rest in
    if (d.id == c.document_id) && selects d then row pg embedding c d ∷ others else others

unfoldable pub joined_rows :
    Pgvector → Embedding → (Document → Bool) → List DocumentChunk → List Document → List Row
unfolding rows_of_chunk
joined_rows pg embedding selects [] ds = []
joined_rows pg embedding selects (c ∷ cs) ds =
    rows_of_chunk pg embedding selects c ds (joined_rows pg embedding selects cs ds)

-- `ORDER BY d.id, c.embedding <=> …`
abbrev pub is_nearer : Pgvector → Row → Row → Bool
is_nearer pg a b =
    if a.document_id == b.document_id
    then leb (pg.rank a.distance) (pg.rank b.distance)
    else ltb_ℤ a.document_id b.document_id

abbrev pub has_same_document : Row → Row → Bool
has_same_document a b = a.document_id == b.document_id

-- `ORDER BY score DESC`
abbrev pub scores_higher : Pgvector → Row → Row → Bool
scores_higher pg a b = leb (pg.rank b.score) (pg.rank a.score)

-- The inner query: of each document its nearest chunk.
unfoldable pub best_chunk_per_doc : Pgvector → List Row → List Row
best_chunk_per_doc pg rows = distinct_on has_same_document (sort_by (is_nearer pg) rows)

-- The outer query.
unfoldable pub top_rows : Pgvector → ℕ → List Row → List Row
top_rows pg top_k rows = take top_k (sort_by (scores_higher pg) (best_chunk_per_doc pg rows))

unfoldable pub context_chunk : Row → ContextChunk
context_chunk r = record {
  document_id = r.document_id;
  title = r.title;
  content_preview = r.content_preview;
  source_type = r.source_type;
  score = r.score;
}

-- The conditions of the three queries.
unfoldable pub is_my_blog_of : ℤ → ℤ → Document → Bool
is_my_blog_of user_id exclude_document_id d =
    (d.user_id == user_id)
    && (source_value d.source_type == codes "my_blog")
    && not (d.id == exclude_document_id)

unfoldable pub has_source : Text → Document → Bool
has_source value d = source_value d.source_type == value

unfoldable pub find_context :
    Pgvector → Tables → (Document → Bool) → Embedding → ℕ → List ContextChunk
unfolding joined_rows top_rows context_chunk
find_context pg db selects embedding top_k =
    map context_chunk
      (top_rows pg top_k (joined_rows pg embedding selects db.document_chunks db.documents))

unfoldable pub find_my_blog_context : Pgvector → Tables → ℤ → Embedding → ℤ → ℕ → List ContextChunk
unfolding find_context is_my_blog_of
find_my_blog_context pg db user_id embedding exclude_document_id top_k =
    find_context pg db (is_my_blog_of user_id exclude_document_id) embedding top_k

unfoldable pub find_ext_blog_context : Pgvector → Tables → Embedding → ℕ → List ContextChunk
unfolding find_context has_source
find_ext_blog_context pg db embedding top_k =
    find_context pg db (has_source (codes "ext_blog")) embedding top_k

unfoldable pub find_job_posting_context : Pgvector → Tables → Embedding → ℕ → List ContextChunk
unfolding find_context has_source
find_job_posting_context pg db embedding top_k =
    find_context pg db (has_source (codes "job_posting")) embedding top_k
