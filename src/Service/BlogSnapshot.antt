-- ===== src/Service/BlogSnapshot.antt =====
-- app/service/blog_snapshot_service.py: the posts of a batch put together into one document.
use ject6_4th_ai_analyzer.Base.{
  ℕ, Option, none, some, List, [], ◌∷◌, ◌++◌, map, Text, codes, join, length, take,
}
use ject6_4th_ai_analyzer.Base.Int.{ℤ, pos}
use ject6_4th_ai_analyzer.Base.Decimal.{show}
use ject6_4th_ai_analyzer.Domain.Enums.{blog_snapshot}
use ject6_4th_ai_analyzer.Domain.Json.{
  Fields, end, field, string, number, array, strings, set_field,
}
use ject6_4th_ai_analyzer.Domain.Schemas.{ChunkRequest}
use ject6_4th_ai_analyzer.Domain.Models.{Document}
use ject6_4th_ai_analyzer.Core.Exceptions.{raised, not_found}
use ject6_4th_ai_analyzer.Core.Effects.{Env, Exec, pure, raise, ◌>>=◌}
use ject6_4th_ai_analyzer.Repository.Documents.{get_by_id, find_by_external_id}
use ject6_4th_ai_analyzer.Service.DocumentService.{ingest_and_chunk}

abbrev pub max_content_per_post : ℕ
max_content_per_post = 3000

abbrev pub snapshot_external_id : Text → Text
snapshot_external_id batch_id = codes "blog_snapshot:" ++ batch_id

abbrev pub post_part : Document → Text
post_part doc = codes "## " ++ doc.title ++ codes "\n\n" ++ take max_content_per_post doc.content

unfoldable pub snapshot_metadata : Text → ℕ → List ℤ → Option ℤ → Option Text → Fields
snapshot_metadata batch_id post_count document_ids blog_id correlation_id =
    let base = field (codes "batch_id") (string batch_id) (
      field (codes "post_count") (number (pos post_count))
        (field (codes "source_document_ids") (array (strings (map show document_ids))) end)) in
    let with_blog : Fields = elim blog_id [
      | none ↦ base
      | some b ↦ set_field (codes "blog_id") (string (show b)) base
    ] in
    elim correlation_id [
      | none ↦ with_blog
      | some c ↦ set_field (codes "correlation_id") (string c) with_blog
    ]

unfoldable pub snapshot_request :
    ℤ → Option ℤ → Text → List ℤ → Option Text → List Document → ChunkRequest
unfolding snapshot_metadata
snapshot_request user_id blog_id batch_id document_ids correlation_id posts = record {
  user_id = user_id;
  source_type = blog_snapshot;
  title = codes "블로그 전체 분석 스냅샷 (" ++ show (pos (length posts)) ++ codes "개 포스트)";
  content = join (codes "\n\n---\n\n") (map post_part posts);
  url = none;
  external_id = some (snapshot_external_id batch_id);
  metadata = snapshot_metadata batch_id (length posts) document_ids blog_id correlation_id;
  content_hash = none;
  crawled_at = none;
  ingestion_status = codes "completed";
}

module _ (env : Env) where
  unfoldable pub find_existing_snapshot : ℤ → Text → Exec (Option ℤ)
  find_existing_snapshot user_id batch_id = do
    existing ← find_by_external_id env user_id blog_snapshot (snapshot_external_id batch_id)
    pure (elim existing [ none ↦ none | some doc ↦ some doc.id ])

  -- The loop that collects the posts which are there.
  unfoldable pub collect_posts : List ℤ → Exec (List Document)
  collect_posts [] = pure []
  collect_posts (doc_id ∷ doc_ids) = do
    doc ← get_by_id env doc_id
    posts ← collect_posts doc_ids
    pure (elim doc [ none ↦ posts | some d ↦ d ∷ posts ])

  unfoldable pub store_snapshot :
      ℤ → Option ℤ → Text → List ℤ → Option Text → List Document → Exec (ℤ × List ℤ)
  unfolding snapshot_request
  store_snapshot user_id blog_id batch_id document_ids correlation_id [] =
      raise (raised not_found (codes "no source documents found for batch_id=" ++ batch_id) none)
  store_snapshot user_id blog_id batch_id document_ids correlation_id (post ∷ posts) = do
    response ←
        ingest_and_chunk env
          (snapshot_request user_id blog_id batch_id document_ids correlation_id (post ∷ posts))
    pure (response.document_id, document_ids)

  -- The id of the snapshot, and the ids that it was asked for.
  unfoldable pub create_snapshot : ℤ → Option ℤ → Text → List ℤ → Option Text → Exec (ℤ × List ℤ)
  unfolding find_existing_snapshot collect_posts store_snapshot
  create_snapshot user_id blog_id batch_id document_ids correlation_id = do
    existing_id ← find_existing_snapshot user_id batch_id
    elim existing_id [
      | some id ↦ pure (id, document_ids)
      | none ↦ do
        posts ← collect_posts document_ids
        store_snapshot user_id blog_id batch_id document_ids correlation_id posts
    ]
