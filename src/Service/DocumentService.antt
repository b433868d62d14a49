-- ===== src/Service/DocumentService.antt =====
-- app/service/document_service.py: a document is stored, cut into chunks, and the chunks stored with
-- their embeddings, most of which the cache may have.
pub mod Merge
pub mod Cached
use ject6_4th_ai_analyzer.Base.{
  ℕ, ◌+◌, Bool, true, false, Option, none, some, List, [], ◌∷◌, ◌++◌, map, Text, codes, is_empty,
  length, eqb, get_elem?, if◌then◌else◌,
}
use ject6_4th_ai_analyzer.Base.Int.{ℤ}
use ject6_4th_ai_analyzer.Base.Decimal.{show}
use ject6_4th_ai_analyzer.Domain.Schemas.{Embedding, ChunkRequest, ChunkResponse}
use ject6_4th_ai_analyzer.Domain.Models.{DocumentColumns, Document, DocumentChunk}
use ject6_4th_ai_analyzer.Core.Exceptions.{
  Exception, raised, not_found, builtin, value_error, assertion_error,
}
use ject6_4th_ai_analyzer.Core.Effects.{
  Env, Exec, call, assign_document, pure, raise, or_raise, lift, Result, ok, err, ◌>>=◌, ◌>>◌,
}
use ject6_4th_ai_analyzer.Client.Llm.{embed}
use ject6_4th_ai_analyzer.Repository.EmbeddingCache.{get_many, set_many}
use ject6_4th_ai_analyzer.Repository.Documents.{
  create, get_by_id, find_by_external_id, add_chunks, delete_chunks_by_document,
}
use ject6_4th_ai_analyzer.Service.Chunker.{TextChunk, TextChunker, init_chunker, chunk}

unfoldable pub columns_of : ChunkRequest → DocumentColumns
columns_of r = record {
  user_id = r.user_id;
  source_type = r.source_type;
  external_id = r.external_id;
  url = r.url;
  title = r.title;
  content = r.content;
  doc_metadata = r.metadata;
  content_hash = r.content_hash;
  crawled_at = r.crawled_at;
  ingestion_status = r.ingestion_status;
}

-- The assignments to an existing row, which keeps its owner, source type and external id.
unfoldable pub reassigned : DocumentColumns → ChunkRequest → DocumentColumns
reassigned old r = record old {
  title = r.title;
  content = r.content;
  url = r.url;
  doc_metadata = r.metadata;
  content_hash = r.content_hash;
  crawled_at = r.crawled_at;
  ingestion_status = r.ingestion_status;
}

-- `next(miss_iter, (None, None))` over the strict zip: the pair, and what is left of the two lists.
unfoldable pub next_miss :
    List ℕ → List Embedding → Result (Option (ℕ × Embedding) × List ℕ × List Embedding)
next_miss [] [] = ok (none, [], [])
next_miss (i ∷ is) (e ∷ es) = ok (some (i, e), is, es)
next_miss [] (e ∷ es) =
    err (builtin value_error (codes "zip() argument 2 is longer than argument 1"))
next_miss (i ∷ is) [] =
    err (builtin value_error (codes "zip() argument 2 is shorter than argument 1"))

-- The loop that puts the cached embeddings and the new ones together.
unfoldable pub merge :
    ℕ
    → List (Option Embedding)
    → Option (ℕ × Embedding)
    → List ℕ
    → List Embedding
    → Result (List Embedding)
unfolding next_miss
merge i [] next is es = ok []
merge i (some emb ∷ cached) next is es = elim (merge (i + 1) cached next is es) [
  | ok result ↦ ok (emb ∷ result)
  | err e ↦ err e
]
merge i (none ∷ cached) none is es = err (builtin assertion_error [])
merge i (none ∷ cached) (some (j, emb)) is es =
    if eqb i j
    then elim (next_miss is es) [
      | err e ↦ err e
      | ok (next, is', es') ↦ elim (merge (i + 1) cached next is' es') [
        | ok result ↦ ok (emb ∷ result)
        | err e ↦ err e
      ]
    ]
    else err (builtin assertion_error [])

-- `[texts[i] for i in miss_indexes]`; no position is out of range there.
unfoldable pub texts_at : List Text → List ℕ → List Text
texts_at texts [] = []
texts_at texts (i ∷ is) = elim (get_elem? texts i) [
  | none ↦ texts_at texts is
  | some t ↦ t ∷ texts_at texts is
]

-- `[emb for emb in cached if emb is not None]`
unfoldable pub present : List (Option Embedding) → List Embedding
present [] = []
present (none ∷ cached) = present cached
present (some emb ∷ cached) = emb ∷ present cached

-- `zip(text_chunks, embeddings, strict=True)`
unfoldable pub chunk_entities : ℤ → List TextChunk → List Embedding → Result (List DocumentChunk)
chunk_entities document_id [] [] = ok []
chunk_entities document_id (tc ∷ tcs) (emb ∷ embs) = elim (chunk_entities document_id tcs embs) [
  | err e ↦ err e
  | ok rest ↦ ok (
      record {
        document_id = document_id;
        chunk_index = tc.index;
        content = tc.content;
        token_count = tc.token_count;
        embedding = emb;
      }
      ∷ rest)
]
chunk_entities document_id _ _ =
    err (builtin value_error (codes "zip() arguments differ in length"))

abbrev bad_overlap : Exception
bad_overlap = builtin value_error (codes "chunk_size must be greater than overlap")

module _ (env : Env) where
  -- The two branches of `_embed_with_cache`, once the cache has answered.
  unfoldable pub fill_misses : List Text → List (Option Embedding) × List ℕ → Exec (List Embedding)
  unfolding present texts_at next_miss merge
  fill_misses texts (cached, []) = pure (present cached)
  fill_misses texts (cached, i ∷ is) = do
    let miss_texts = texts_at texts (i ∷ is)
    new_embeddings ← embed env miss_texts
    set_many env env.settings.embedding_model miss_texts new_embeddings
    (next, is', es') ← lift (next_miss (i ∷ is) new_embeddings)
    lift (merge 0 cached next is' es')

  unfoldable pub embed_with_cache : List Text → Exec (List Embedding)
  unfolding fill_misses
  embed_with_cache texts = do
    found ← get_many env env.settings.embedding_model texts
    fill_misses texts found

  -- `existing` is looked up for an external id that is not empty.
  unfoldable pub find_existing : ChunkRequest → Exec (Option Document)
  find_existing r = elim r.external_id [
    | none ↦ pure none
    | some external_id ↦
        if is_empty external_id
        then pure none
        else find_by_external_id env r.user_id r.source_type external_id
  ]

  unfoldable pub upsert_document : ChunkRequest → Exec Document
  unfolding find_existing columns_of reassigned
  upsert_document r = do
    existing ← find_existing r
    elim existing [
      | none ↦ create env (columns_of r)
      | some doc ↦ do
        let columns = reassigned doc.columns r
        call env (assign_document doc.id columns)
        delete_chunks_by_document env doc.id
        pure (record doc { columns = columns })
    ]

  -- What follows the chunking.
  unfoldable pub store_chunks : ℤ → List TextChunk → Exec ChunkResponse
  unfolding embed_with_cache chunk_entities
  store_chunks document_id text_chunks =
      if is_empty text_chunks
      then pure (record { document_id = document_id; chunk_count = 0 })
      else do
        embeddings ← embed_with_cache (map (λ c. c.content) text_chunks)
        entities ← lift (chunk_entities document_id text_chunks embeddings)
        add_chunks env entities
        pure (record { document_id = document_id; chunk_count = length entities })

  -- `DocumentService(...)`, of which the chunker may refuse the settings.
  unfoldable pub init_service : Exec Unit
  init_service =
      elim (init_chunker env.settings.chunk_size_tokens env.settings.chunk_overlap_tokens
        env.encoder) [ none ↦ raise bad_overlap | some _ ↦ pure tt ]

  -- The chunker is made with the service, before the request is read.
  unfoldable pub ingest_and_chunk : ChunkRequest → Exec ChunkResponse
  unfolding upsert_document store_chunks
  ingest_and_chunk r =
      elim (init_chunker env.settings.chunk_size_tokens env.settings.chunk_overlap_tokens
        env.encoder) [
          | none ↦ raise bad_overlap
          | some chunker ↦ do
            document ← upsert_document r
            store_chunks document.id (chunk chunker r.content)
        ]

  unfoldable pub find_document : ℤ → Exec Document
  find_document document_id = do
    doc ← get_by_id env document_id
    or_raise doc (raised not_found (codes "document not found: " ++ show document_id) none)
