-- ===== src/Tests/Retrieval.antt =====
-- The retrieval of context at concrete tables.
use ject6_4th_ai_analyzer.Base.{
  ℕ, ◌-◌, ◌≤◌, ◌≡◌, refl, ◌⊎◌, List, [], ◌∷◌, codes, All, length, arith,
}
use ject6_4th_ai_analyzer.Base.Int.{pos}
use ject6_4th_ai_analyzer.Base.Sorting.{Some, Pairwise, sort_by, distinct_on}
use ject6_4th_ai_analyzer.Domain.Enums.{my_blog, ext_blog, job_posting}
use ject6_4th_ai_analyzer.Domain.Models.{Document}
use ject6_4th_ai_analyzer.Core.Effects.{ContextChunk}
use ject6_4th_ai_analyzer.Repository.ContextRetrieval.{
  Pgvector, Tables, Row, best_chunk_per_doc, top_rows, find_my_blog_context, find_ext_blog_context,
  find_job_posting_context,
}
use ject6_4th_ai_analyzer.Repository.ContextRetrieval.Best.{Covers, OtherDocument}
use ject6_4th_ai_analyzer.Repository.ContextRetrieval.TopK.{
  NearerScoresHigher, ScoresAtLeast, NearestOf, top_rows_of_best, top_rows_complete,
}
use ject6_4th_ai_analyzer.Repository.ContextRetrieval.Sources.{Shows, contexts_from_their_sources}
use ject6_4th_ai_analyzer.Tests.World.{stored_document}

-- Distances in hundredths.
abbrev pg : Pgvector
pg = record { distance = λ a b. length a; one_minus = λ d. 100 - d; rank = λ d. d }

abbrev row_at : ℕ → ℕ → Row
row_at id distance = record {
  document_id = pos id;
  title = codes "a post";
  content_preview = codes "text";
  source_type = codes "my_blog";
  distance = distance;
  score = 100 - distance;
}

abbrev rows : List Row
rows = row_at 2 40 ∷ row_at 1 30 ∷ row_at 2 10 ∷ []

top_row : top_rows pg 1 rows ≡ row_at 2 10 ∷ []
unfolding top_rows best_chunk_per_doc sort_by distinct_on
top_row = refl

top_rows_of_best_example :
    (length (top_rows pg 1 rows) ≤ 1)
    × Pairwise (ScoresAtLeast pg) (top_rows pg 1 rows)
    × Pairwise (OtherDocument pg) (top_rows pg 1 rows)
    × All (λ r. Some (λ c. c ≡ r) rows × NearestOf pg rows r) (top_rows pg 1 rows)
top_rows_of_best_example = top_rows_of_best pg 1 rows

higher : NearerScoresHigher pg rows
higher = (
  ((λ h. omega arith), ((λ h. omega arith), ((λ h. omega arith), tt))),
  (
    ((λ h. omega arith), ((λ h. omega arith), ((λ h. omega arith), tt))),
    (((λ h. omega arith), ((λ h. omega arith), ((λ h. omega arith), tt))), tt),
  ),
)

top_rows_complete_example :
    All
      (λ c.
        Some (Covers pg c) (top_rows pg 1 rows)
        ⊎ ((length (top_rows pg 1 rows) ≡ 1)
            × All (λ r. ScoresAtLeast pg r c) (top_rows pg 1 rows)))
      rows
top_rows_complete_example = top_rows_complete pg 1 rows higher

abbrev db : Tables
db = record {
  documents = stored_document ∷ [];
  document_chunks =
      record {
        document_id = pos 7;
        chunk_index = 0;
        content = codes "old text";
        token_count = 2;
        embedding = 1 ∷ [];
      }
      ∷ [];
}

contexts_from_their_sources_example :
    All
      (λ (c : ContextChunk).
        Some
          (λ (d : Document).
            Shows db.document_chunks d c
            × (d.user_id ≡ pos 1)
            × (d.source_type ≡ my_blog)
            × (d.id ≡ pos 8 → ⊥))
          db.documents)
      (find_my_blog_context pg db (pos 1) (1 ∷ []) (pos 8) 3)
    × All
        (λ (c : ContextChunk).
          Some
            (λ (d : Document). Shows db.document_chunks d c × (d.source_type ≡ ext_blog))
            db.documents)
        (find_ext_blog_context pg db (1 ∷ []) 3)
    × All
        (λ (c : ContextChunk).
          Some
            (λ (d : Document). Shows db.document_chunks d c × (d.source_type ≡ job_posting))
            db.documents)
        (find_job_posting_context pg db (1 ∷ []) 3)
contexts_from_their_sources_example = contexts_from_their_sources pg db (1 ∷ []) 3 (pos 1) (pos 8)
