-- ===== src/Worker/FullBlogBatch.antt =====
-- app/worker/ingest_worker.py: the analysis message of a post, and the batch of posts that ends in
-- one snapshot and one analysis message.
use ject6_4th_ai_analyzer.Base.{
  ℕ, ◌+◌, ◌/◌, Bool, true, false, ◌&&◌, ◌||◌, Option, none, some, List, [], ◌∷◌, ◌++◌, Text, codes,
  is_empty, ◌==◌, text_eq, if◌then◌else◌,
}
use ject6_4th_ai_analyzer.Base.Int.{ℤ, pos, ltb_ℤ, leb_ℤ}
use ject6_4th_ai_analyzer.Base.Decimal.{show}
use ject6_4th_ai_analyzer.Domain.Json.{
  Fields, end, field, string, number, array, object, numbers, set_field,
}
use ject6_4th_ai_analyzer.Core.Effects.{
  Env, Exec, Result, ok, err, call, time, get, set, set_nx, incr, sadd, smembers, expire,
  eval_transition, publish, snapshot, pure, raise, lift, try_except, ◌>>=◌, ◌>>◌,
}
use ject6_4th_ai_analyzer.Core.Session.{session_scope}
use ject6_4th_ai_analyzer.Service.DocumentService.{init_service}
use ject6_4th_ai_analyzer.Service.BlogSnapshot.{create_snapshot}
use ject6_4th_ai_analyzer.Core.Parsing.{non_empty, parse_int, int_or_zero, int_if_set}
use ject6_4th_ai_analyzer.Worker.IngestMessage.{put_set}

abbrev pub batch_ttl : ℕ
batch_ttl = 86400

abbrev pub batch_deadline_sec : ℕ
batch_deadline_sec = 1800

abbrev pub snapshot_creating : Text
snapshot_creating = codes "creating"

abbrev pub snapshot_completed : Text
snapshot_completed = codes "completed"

abbrev pub snapshot_failed : Text
snapshot_failed = codes "failed"

-- `f"batch:{batch_id}:{name}"`
abbrev pub batch_key : Text → Text → Text
batch_key batch_id name = codes "batch:" ++ batch_id ++ codes ":" ++ name

unfoldable pub put_ids : Option (List ℤ) → Fields → Fields
put_ids none payload = payload
put_ids (some ids) payload =
    if is_empty ids
    then payload
    else set_field (codes "source_document_ids") (array (numbers ids)) payload

unfoldable pub analysis_payload :
    ℤ → ℤ → Option Text → Text → Option Text → Option (List ℤ) → Fields
unfolding put_ids
analysis_payload user_id document_id correlation_id analysis_mode batch_id source_document_ids =
    put_ids source_document_ids (
      put_set (codes "batch_id") (non_empty batch_id) (
        put_set (codes "correlation_id") (non_empty correlation_id) (
          field (codes "user_id") (number user_id) (
            field (codes "document_id") (number document_id)
              (field (codes "analysis_mode") (string analysis_mode) end)))))

-- `[int(d) for d in raw_ids]`
unfoldable pub parse_ids : Env → List Text → Result (List ℤ)
parse_ids env [] = ok []
parse_ids env (d ∷ raw_ids) = elim (parse_int env d) [
  | err e ↦ err e
  | ok n ↦ elim (parse_ids env raw_ids) [ ok ns ↦ ok (n ∷ ns) | err e ↦ err e ]
]

module _ (env : Env) where
  unfoldable pub publish_analysis :
      ℤ → ℤ → Option Text → Text → Option Text → Option (List ℤ) → Exec Unit
  unfolding analysis_payload
  publish_analysis user_id document_id correlation_id analysis_mode batch_id source_document_ids =
      let payload =
        analysis_payload user_id document_id correlation_id analysis_mode batch_id
          source_document_ids in
      call env (publish env.settings.analysis_queue_name (env.json_dumps (object payload)) [])

  -- The mark is only a hint to the analysis worker: a failure to set it is logged and forgotten.
  unfoldable pub mark_ingest_done : Text → ℤ → ℤ → Text → Exec Unit
  unfolding publish_analysis
  mark_ingest_done correlation_id document_id user_id analysis_mode =
      try_except (call env (set (codes "ingest:done:" ++ correlation_id) (show document_id) 3600))
        (λ _. pure tt)
      >> publish_analysis user_id document_id (some correlation_id) analysis_mode none none

  -- The body of the `try` of `_create_snapshot_and_publish`.
  unfoldable pub snapshot_and_publish : Text → Exec Unit
  unfolding publish_analysis
  snapshot_and_publish batch_id = do
    raw_ids ← call env (smembers (batch_key batch_id (codes "doc_ids")))
    doc_ids ← lift (parse_ids env raw_ids)
    user_id_raw ← call env (get (batch_key batch_id (codes "user_id")))
    user_id ← lift (int_or_zero env user_id_raw)
    blog_id_raw ← call env (get (batch_key batch_id (codes "blog_id")))
    blog_id ← lift (int_if_set env blog_id_raw)
    correlation_id ← call env (get (batch_key batch_id (codes "correlation_id")))
    (snapshot_doc_id, source_doc_ids) ←
        session_scope env snapshot
          (init_service env >> create_snapshot env user_id blog_id batch_id doc_ids correlation_id)
    publish_analysis user_id snapshot_doc_id correlation_id (codes "FULL_BLOG") (some batch_id)
        (some source_doc_ids)
    call env (set (batch_key batch_id (codes "snapshot_status")) snapshot_completed batch_ttl)

  unfoldable pub create_snapshot_and_publish : Text → Exec Unit
  unfolding snapshot_and_publish
  create_snapshot_and_publish batch_id = try_except (snapshot_and_publish batch_id) (λ exc.
      call env (set (batch_key batch_id (codes "snapshot_status")) snapshot_failed batch_ttl)
      >> raise exc)

  -- `if value: await redis.set(key, value, ex=...)`
  unfoldable pub set_if_set : Text → Option Text → Exec Unit
  set_if_set key value = elim (non_empty value) [
    | none ↦ pure tt
    | some text ↦ call env (set key text batch_ttl)
  ]

  -- `bool(deadline_raw) and int(deadline_raw) < int(time.time())`
  unfoldable pub is_past : Option Text → Exec Bool
  is_past deadline_raw = elim (non_empty deadline_raw) [
    | none ↦ pure false
    | some text ↦ do
      deadline ← lift (parse_int env text)
      now ← call env time
      pure (ltb_ℤ deadline (pos (now / 1000)))
  ]

  -- Whether this worker is the one to make the snapshot.
  unfoldable pub claim_snapshot : Text → Exec Bool
  claim_snapshot batch_id = do
    let status_key = batch_key batch_id (codes "snapshot_status")
    locked ← call env (set_nx status_key snapshot_creating batch_ttl)
    if locked then pure true else (do
      existing ← call env (get status_key)
      let status : Text = elim existing [ none ↦ [] | some text ↦ text ]
      if (status == snapshot_completed) || (status == snapshot_creating)
          then pure false
          else call env (eval_transition status_key snapshot_failed snapshot_creating batch_ttl))

  -- The id of the post is in the set before the post is counted.
  unfoldable pub count_post : Text → ℤ → Exec ℤ
  count_post batch_id document_id = do
    call env (sadd (batch_key batch_id (codes "doc_ids")) (show document_id))
    call env (expire (batch_key batch_id (codes "doc_ids")) batch_ttl)
    call env (incr (batch_key batch_id (codes "completed")))

  unfoldable pub handle_full_blog_batch : Text → ℤ → ℤ → Option Text → Option Text → ℤ → Exec Unit
  unfolding create_snapshot_and_publish set_if_set is_past claim_snapshot count_post
  handle_full_blog_batch batch_id document_id user_id blog_id correlation_id expected_count = do
    call env (set (batch_key batch_id (codes "user_id")) (show user_id) batch_ttl)
    call env (set (batch_key batch_id (codes "expected")) (show expected_count) batch_ttl)
    set_if_set (batch_key batch_id (codes "blog_id")) blog_id
    set_if_set (batch_key batch_id (codes "correlation_id")) correlation_id
    now ← call env time
    call env (
        set_nx (batch_key batch_id (codes "deadline"))
          (show (pos (now / 1000 + batch_deadline_sec))) batch_ttl)
    completed ← count_post batch_id document_id
    call env (expire (batch_key batch_id (codes "completed")) batch_ttl)
    deadline_raw ← call env (get (batch_key batch_id (codes "deadline")))
    past_deadline ← is_past deadline_raw
    if leb_ℤ expected_count completed || (past_deadline && ltb_ℤ (pos 0) completed)
        then (do
          is_claimed ← claim_snapshot batch_id
          if is_claimed then create_snapshot_and_publish batch_id else pure tt)
        else pure tt
