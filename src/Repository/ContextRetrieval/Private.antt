-- ===== src/Repository/ContextRetrieval/Private.antt =====
-- app/repository/context_retrieval_repository.py: of other users the three queries read nothing but
-- external blogs and job postings.
use ject6_4th_ai_analyzer.Base.{
  ℕ, ◌≡◌, refl, sym, ap, ◌∙◌, inl, inr, Bool, true, false, ◌||◌, List, [], ◌∷◌, map, codes, ◌==◌,
  text_eq, Bool-cases, arith, if◌then◌else◌,
}
use ject6_4th_ai_analyzer.Base.Int.{ℤ, int_eq}
use ject6_4th_ai_analyzer.Domain.Enums.{source_value}
use ject6_4th_ai_analyzer.Domain.Schemas.{Embedding}
use ject6_4th_ai_analyzer.Domain.Models.{Document, DocumentChunk}
use ject6_4th_ai_analyzer.Repository.ContextRetrieval.{
  Pgvector, Tables, Row, rows_of_chunk, joined_rows, context_chunk, top_rows, has_source,
  is_my_blog_of, find_context, find_my_blog_context, find_ext_blog_context,
  find_job_posting_context,
}

-- A document of the user, or one that is for everybody.
abbrev pub is_open_to : ℤ → Document → Bool
is_open_to user_id d =
    (d.user_id == user_id)
    || (source_value d.source_type == codes "ext_blog")
    || (source_value d.source_type == codes "job_posting")

abbrev pub open_documents : ℤ → List Document → List Document
open_documents user_id [] = []
open_documents user_id (d ∷ ds) =
    let rest = open_documents user_id ds in if is_open_to user_id d then d ∷ rest else rest

abbrev pub is_chunk_of : DocumentChunk → List Document → Bool
is_chunk_of c [] = false
is_chunk_of c (d ∷ ds) = (d.id == c.document_id) || is_chunk_of c ds

abbrev pub chunks_of : List Document → List DocumentChunk → List DocumentChunk
chunks_of ds [] = []
chunks_of ds (c ∷ cs) = let rest = chunks_of ds cs in if is_chunk_of c ds then c ∷ rest else rest

-- What a user may see: the documents open to the user, and their chunks.
abbrev pub open_tables : ℤ → Tables → Tables
open_tables user_id db = record {
  documents = open_documents user_id db.documents;
  document_chunks = chunks_of (open_documents user_id db.documents) db.document_chunks;
}

module _ (pg : Pgvector) (embedding : Embedding) (selects : Document → Bool) (user_id : ℤ)
    (opens : (d : Document) → selects d ≡ true → is_open_to user_id d ≡ true) where
  rows_of_chunk-open :
      (c : DocumentChunk) (ds : List Document) (rest : List Row)
      → rows_of_chunk pg embedding selects c (open_documents user_id ds) rest
        ≡ rows_of_chunk pg embedding selects c ds rest
  unfolding rows_of_chunk
  rows_of_chunk-open c [] rest = refl
  rows_of_chunk-open c (d ∷ ds) rest =
      let ih = rows_of_chunk-open c ds rest in
      elim (Bool-cases (is_open_to user_id d)) [
        | inl o ↦ ground (arith, ih)
        | inr o ↦ ground (arith, ih, opens d)
      ]

  rows_of_chunk-none :
      (c : DocumentChunk) (ds : List Document) (rest : List Row)
      → is_chunk_of c ds ≡ false
      → rows_of_chunk pg embedding selects c ds rest ≡ rest
  unfolding rows_of_chunk
  rows_of_chunk-none c [] rest e = refl
  rows_of_chunk-none c (d ∷ ds) rest e = ground (arith, rows_of_chunk-none c ds rest)

  joined_rows-open :
      (cs : List DocumentChunk) (ds : List Document)
      → joined_rows pg embedding selects
          (chunks_of (open_documents user_id ds) cs)
          (open_documents user_id ds)
        ≡ joined_rows pg embedding selects cs ds
  unfolding joined_rows
  joined_rows-open [] ds = refl
  joined_rows-open (c ∷ cs) ds =
      let ih = joined_rows-open cs ds in
      let opened = rows_of_chunk-open c ds (joined_rows pg embedding selects cs ds) in
      elim (Bool-cases (is_chunk_of c (open_documents user_id ds))) [
        | inl e ↦ rw (e, ih) opened
        | inr e ↦
            rw (e, ih)
              (sym (
                  rows_of_chunk-none c (open_documents user_id ds)
                    (joined_rows pg embedding selects cs ds) e)
                ∙ opened)
      ]

  find_context-open :
      (db : Tables) (k : ℕ)
      → find_context pg (open_tables user_id db) selects embedding k
        ≡ find_context pg db selects embedding k
  unfolding find_context
  find_context-open db k =
      ap (λ rows. map context_chunk (top_rows pg k rows))
        (joined_rows-open db.document_chunks db.documents)

-- The three queries answer the same from what the user may see.
pub queries_open :
    (pg : Pgvector) (db : Tables) (embedding : Embedding) (top_k : ℕ) (user_id exclude : ℤ)
    → (find_my_blog_context pg (open_tables user_id db) user_id embedding exclude top_k
        ≡ find_my_blog_context pg db user_id embedding exclude top_k)
      × (find_ext_blog_context pg (open_tables user_id db) embedding top_k
          ≡ find_ext_blog_context pg db embedding top_k)
      × (find_job_posting_context pg (open_tables user_id db) embedding top_k
          ≡ find_job_posting_context pg db embedding top_k)
unfolding find_my_blog_context find_ext_blog_context find_job_posting_context is_my_blog_of
    has_source
queries_open pg db embedding k user_id exclude = (
  find_context-open pg embedding (is_my_blog_of user_id exclude) user_id (λ d h. ground arith) db k,
  find_context-open pg embedding (has_source (codes "ext_blog")) user_id (λ d h. ground arith) db k,
  find_context-open pg embedding (has_source (codes "job_posting")) user_id (λ d h. ground arith) db
      k,
)
