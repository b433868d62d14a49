-- ===== src/Worker/IngestWorker.antt =====
-- app/worker/ingest_worker.py: the worker that takes posts from the stream, stores them, and says so.
use ject6_4th_ai_analyzer.Base.{
  ℕ, zero, suc, Bool, true, false, not, Option, none, some, List, [], ◌∷◌, ◌++◌, Text, codes,
  is_empty, ◌==◌, text_eq, if◌then◌else◌,
}
use ject6_4th_ai_analyzer.Base.Int.{ℤ, pos, ◌+ℤ◌, ltb_ℤ, eqb_ℤ}
use ject6_4th_ai_analyzer.Base.Decimal.{show}
use ject6_4th_ai_analyzer.Base.Dict.{Dict, insert}
use ject6_4th_ai_analyzer.Domain.Enums.{is_ext_blog}
use ject6_4th_ai_analyzer.Domain.Schemas.{ChunkRequest}
use ject6_4th_ai_analyzer.Core.Exceptions.{Exception, exception_text}
use ject6_4th_ai_analyzer.Core.Effects.{
  Env, Exec, Result, ok, err, call, influencer, ingest, stop_requested, pure, lift, try_except,
  ◌>>=◌, ◌>>◌,
}
use ject6_4th_ai_analyzer.Core.Session.{session_scope}
use ject6_4th_ai_analyzer.Repository.Documents.{upsert_influencer}
use ject6_4th_ai_analyzer.Repository.CrawlQueue.{
  CrawlMessage, ensure_group, read, claim_pending, ack_message, requeue, send_to_dlq,
}
use ject6_4th_ai_analyzer.Service.DocumentService.{ingest_and_chunk}
use ject6_4th_ai_analyzer.Worker.IngestMessage.{
  get_set, get_string, read_retry_count, expected_count_of, chunk_request_of,
}
use ject6_4th_ai_analyzer.Worker.FullBlogBatch.{mark_ingest_done, handle_full_blog_batch}

-- `fields.get("analysis_mode") or "POST"`
unfoldable pub analysis_mode_of : Dict Text → Text
analysis_mode_of fields = elim (get_set (codes "analysis_mode") fields) [
  | some mode ↦ mode
  | none ↦ codes "POST"
]

unfoldable pub consumer_name : Env → Text
consumer_name env =
    if not (env.settings.crawl_worker_name == codes "worker-1")
    then env.settings.crawl_worker_name
    else codes "ingest-" ++ env.host_name ++ codes "-" ++ show env.process_id

-- The message that goes back to the stream.
unfoldable pub retry_fields : CrawlMessage → Dict Text
retry_fields m = insert (codes "retry_count") (show (read_retry_count m +ℤ pos 1)) m.fields

module _ (env : Env) where
  unfoldable pub handle_failure : CrawlMessage → Exception → Exec Unit
  unfolding retry_fields
  handle_failure m exc =
      if ltb_ℤ (read_retry_count m) env.settings.crawl_max_retries
      then requeue env (retry_fields m) >> ack_message env m.id
      else send_to_dlq env m (exception_text exc) >> ack_message env m.id

  -- The profile of an influencer is stored on its own; its failure is logged and forgotten.
  unfoldable pub register_influencer : ChunkRequest → Exec Unit
  register_influencer r =
      if is_ext_blog r.source_type
      then elim (get_string (codes "source_blog_url") r.metadata) [
        | none ↦ pure tt
        | some source_blog_url ↦
            try_except
              (session_scope env influencer (
                upsert_influencer env (record {
                  influencer_name = get_string (codes "nickname") r.metadata;
                  blog_name = get_string (codes "nickname") r.metadata;
                  title = some r.title;
                  thumbnail_url = none;
                  blog_url = source_blog_url;
                  category = get_string (codes "category") r.metadata;
                })))
              (λ _. pure tt)
      ]
      else pure tt

  -- What follows the ack: a batch, a post that someone waits for, or nothing.
  unfoldable pub announce : CrawlMessage → ChunkRequest → Option ℤ → ℤ → Exec Unit
  unfolding analysis_mode_of
  announce m r expected_count document_id =
      let correlation_id = get_set (codes "correlation_id") m.fields in
      let mark : Exec Unit = elim correlation_id [
        | none ↦ pure tt
        | some id ↦ mark_ingest_done env id document_id r.user_id (codes "POST")
      ] in
      if analysis_mode_of m.fields == codes "FULL_BLOG"
      then elim (get_set (codes "batch_id") m.fields) [
        | none ↦ mark
        | some batch_id ↦ elim expected_count [
          | none ↦ mark
          | some count ↦
              if eqb_ℤ count (pos 0)
              then mark
              else handle_full_blog_batch env batch_id document_id r.user_id
                  (get_set (codes "blog_id") m.fields) correlation_id count
        ]
      ]
      else mark

  -- The body of the last `try` of `_handle_message`.
  unfoldable pub process : CrawlMessage → ChunkRequest → Option ℤ → Exec Unit
  unfolding announce
  process m r expected_count = do
    response ← session_scope env ingest (ingest_and_chunk env r)
    ack_message env m.id
    announce m r expected_count response.document_id

  unfoldable pub handle_request : CrawlMessage → Option ℤ → Result ChunkRequest → Exec Unit
  unfolding register_influencer process handle_failure
  handle_request m expected_count (err exc) =
      send_to_dlq env m (exception_text exc) >> ack_message env m.id
  handle_request m expected_count (ok r) =
      register_influencer r >> try_except (process m r expected_count) (handle_failure m)

  unfoldable pub handle_message : CrawlMessage → Exec Unit
  unfolding handle_request
  handle_message m = do
    expected_count ← lift (expected_count_of env m.fields)
    handle_request m expected_count (chunk_request_of env m.fields)

  unfoldable pub handle_all : List CrawlMessage → Exec Unit
  unfolding handle_message
  handle_all [] = pure tt
  handle_all (m ∷ messages) = handle_message m >> handle_all messages

  -- One turn of the loop: the messages that another consumer left, or else new ones.
  unfoldable pub turn : Exec Unit
  unfolding handle_all
  turn = do
    claimed ← claim_pending env (consumer_name env)
    messages ← (if is_empty claimed then read env (consumer_name env) else pure claimed)
    handle_all messages

  -- `true` once the worker has stopped; `false` where it still runs after `n` turns.
  unfoldable pub turns : ℕ → Exec Bool
  unfolding turn
  turns zero = pure false
  turns (suc n) = do
    let rest = turn >> turns n
    is_set ← call env stop_requested
    if is_set then pure true else rest

  unfoldable pub run : ℕ → Exec Bool
  unfolding turns
  run n = ensure_group env >> turns n
