-- ===== src/Repository/ContextRetrieval/Sources.antt =====
-- app/repository/context_retrieval_repository.py: which documents the three queries read.
use ject6_4th_ai_analyzer.Base.{
  ℕ, ◌≡◌, refl, inl, inr, Bool, true, ◌&&◌, List, [], ◌∷◌, map, codes, take, sym, ◌==◌, text_eq,
  All, Bool-cases, arith,
}
use ject6_4th_ai_analyzer.Base.Int.{ℤ, int_eq, eqb_ℤ_iff}
use ject6_4th_ai_analyzer.Base.Sorting.{Some, All-mono, Some-mono}
use ject6_4th_ai_analyzer.Domain.Enums.{
  SourceType, my_blog, ext_blog, job_posting, blog_snapshot, source_value,
}
use ject6_4th_ai_analyzer.Domain.Schemas.{Embedding}
use ject6_4th_ai_analyzer.Domain.Models.{Document, DocumentChunk}
use ject6_4th_ai_analyzer.Core.Effects.{ContextChunk}
use ject6_4th_ai_analyzer.Repository.ContextRetrieval.{
  Pgvector, Tables, Row, row, rows_of_chunk, joined_rows, context_chunk, has_source, is_my_blog_of,
  find_context, find_my_blog_context, find_ext_blog_context, find_job_posting_context,
}
use ject6_4th_ai_analyzer.Repository.ContextRetrieval.Best.{All-best_chunk_per_doc}
use ject6_4th_ai_analyzer.Repository.ContextRetrieval.TopK.{All-top_rows}

-- A chunk of the table, of this document, is what the context shows of it.
abbrev pub Shows : List DocumentChunk → Document → ContextChunk → Type 0
Shows cs d k =
    (d.id ≡ k.document_id)
    × (d.title ≡ k.title)
    × (source_value d.source_type ≡ k.source_type)
    × Some (λ c. (c.document_id ≡ d.id) × (take 300 c.content ≡ k.content_preview)) cs

module _ (pg : Pgvector) (embedding : Embedding) (selects : Document → Bool) where
  -- The rows are of a selected document of the table and of a chunk of that document.
  Joins : (Row → Type 0) → List DocumentChunk → List Document → Type 0
  Joins P cs ds =
      (c : DocumentChunk) (d : Document)
      → Some (λ x. x ≡ c) cs
      → Some (λ x. x ≡ d) ds
      → c.document_id ≡ d.id
      → selects d ≡ true
      → P (row pg embedding c d)

  All-rows_of_chunk :
      (P : Row → Type 0) (c : DocumentChunk) (ds : List Document) (rest : List Row)
      → ((d : Document)
          → Some (λ x. x ≡ d) ds
          → c.document_id ≡ d.id
          → selects d ≡ true
          → P (row pg embedding c d))
      → All P rest
      → All P (rows_of_chunk pg embedding selects c ds rest)
  unfolding rows_of_chunk
  All-rows_of_chunk P c [] rest f h = h
  All-rows_of_chunk P c (d ∷ ds) rest f h =
      let others = All-rows_of_chunk P c ds rest (λ x m. f x (inr m)) h in
      elim (Bool-cases ((d.id == c.document_id) && selects d)) [
        | inl e ↦
            let same : d.id ≡ c.document_id = (eqb_ℤ_iff d.id c.document_id).0 (ground arith) in
            rw e (f d (inl refl) (sym same) (ground arith), others)
        | inr e ↦ rw e others
      ]

  All-joined_rows :
      (P : Row → Type 0) (cs : List DocumentChunk) (ds : List Document)
      → Joins P cs ds
      → All P (joined_rows pg embedding selects cs ds)
  unfolding joined_rows Joins
  All-joined_rows P [] ds f = tt
  All-joined_rows P (c ∷ cs) ds f =
      All-rows_of_chunk P c ds _ (λ d n. f c d (inl refl) n)
        (All-joined_rows P cs ds (λ x d m. f x d (inr m)))

  All-context_chunk :
      (P : ContextChunk → Type 0) (rows : List Row)
      → All (λ r. P (context_chunk r)) rows
      → All P (map context_chunk rows)
  All-context_chunk P [] h = tt
  All-context_chunk P (r ∷ rows) h = (h.0, All-context_chunk P rows h.1)

  abbrev IsSelected : Tables → ContextChunk → Type 0
  IsSelected db k = Some (λ d. Shows db.document_chunks d k × (selects d ≡ true)) db.documents

  IsSelected-row :
      (db : Tables) → Joins (λ r. IsSelected db (context_chunk r)) db.document_chunks db.documents
  unfolding Joins row context_chunk
  IsSelected-row db c d m n same s =
      Some-mono _ _ db.documents
        (λ x e.
          rw e
            ((refl, refl, refl, Some-mono _ _ db.document_chunks (λ y q. rw q (same, refl)) m), s))
        n

  All-find_context :
      (db : Tables) (k : ℕ) → All (IsSelected db) (find_context pg db selects embedding k)
  unfolding find_context
  All-find_context db k = All-context_chunk (IsSelected db) _ (
      All-top_rows pg _ k _ (
        All-best_chunk_per_doc pg _ _
          (All-joined_rows _ db.document_chunks db.documents (IsSelected-row db))))

-- A source type is known by its value.
source_of_value :
    (s : SourceType)
    → ((source_value s == codes "my_blog") ≡ true → s ≡ my_blog)
      × ((source_value s == codes "ext_blog") ≡ true → s ≡ ext_blog)
      × ((source_value s == codes "job_posting") ≡ true → s ≡ job_posting)
unfolding source_value
source_of_value my_blog = (λ h. refl, λ h. cc, λ h. cc)
source_of_value ext_blog = (λ h. cc, λ h. refl, λ h. cc)
source_of_value job_posting = (λ h. cc, λ h. cc, λ h. refl)
source_of_value blog_snapshot = (λ h. cc, λ h. cc, λ h. cc)

own_blog :
    (user_id exclude : ℤ) (d : Document)
    → is_my_blog_of user_id exclude d ≡ true
    → (d.user_id ≡ user_id) × (d.source_type ≡ my_blog) × (d.id ≡ exclude → ⊥)
unfolding is_my_blog_of
own_blog user_id exclude d h = (
  (eqb_ℤ_iff d.user_id user_id).0 (ground arith),
  (source_of_value d.source_type).0 (ground arith),
  λ e. let t = (eqb_ℤ_iff d.id exclude).1 e in ground arith,
)

-- Each chunk that a query returns is the beginning of a chunk of the table, with the id, the title and the source type
-- of the document that this chunk is of: for the user's own context, of a blog
-- post of that user other than the document under analysis, and for the two others of an external
-- blog and of a job posting.
pub contexts_from_their_sources :
    (pg : Pgvector) (db : Tables) (embedding : Embedding) (top_k : ℕ) (user_id exclude : ℤ)
    → All
        (λ (c : ContextChunk).
          Some
            (λ (d : Document).
              Shows db.document_chunks d c
              × (d.user_id ≡ user_id)
              × (d.source_type ≡ my_blog)
              × (d.id ≡ exclude → ⊥))
            db.documents)
        (find_my_blog_context pg db user_id embedding exclude top_k)
      × All
          (λ (c : ContextChunk).
            Some
              (λ (d : Document). Shows db.document_chunks d c × (d.source_type ≡ ext_blog))
              db.documents)
          (find_ext_blog_context pg db embedding top_k)
      × All
          (λ (c : ContextChunk).
            Some
              (λ (d : Document). Shows db.document_chunks d c × (d.source_type ≡ job_posting))
              db.documents)
          (find_job_posting_context pg db embedding top_k)
unfolding find_my_blog_context find_ext_blog_context find_job_posting_context has_source
contexts_from_their_sources pg db embedding k user_id exclude = (
  All-mono _ _ _
      (λ c.
        Some-mono _ _ db.documents
          λ d p. let q = own_blog user_id exclude d p.1 in (p.0, q.0, q.1, q.2))
      (All-find_context pg embedding (is_my_blog_of user_id exclude) db k),
  All-mono _ _ _
      (λ c. Some-mono _ _ db.documents λ d p. (p.0, (source_of_value d.source_type).1 p.1))
      (All-find_context pg embedding (has_source (codes "ext_blog")) db k),
  All-mono _ _ _
      (λ c. Some-mono _ _ db.documents λ d p. (p.0, (source_of_value d.source_type).2 p.1))
      (All-find_context pg embedding (has_source (codes "job_posting")) db k),
)
