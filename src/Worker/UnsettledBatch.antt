-- ===== src/Worker/UnsettledBatch.antt =====
-- app/worker/ingest_worker.py: what follows the ack of a post leaves the messages alone.
use ject6_4th_ai_analyzer.Base.{
  true, false, Option, none, some, List, [], Text, codes, ◌==◌, ◌&&◌, ◌||◌, text_eq,
}
use ject6_4th_ai_analyzer.Base.Int.{ℤ, pos, leb_ℤ, ltb_ℤ, eqb_ℤ}
use ject6_4th_ai_analyzer.Domain.Enums.{is_ext_blog}
use ject6_4th_ai_analyzer.Domain.Schemas.{ChunkRequest}
use ject6_4th_ai_analyzer.Core.Parsing.{non_empty, parse_int, int_or_zero, int_if_set}
use ject6_4th_ai_analyzer.Core.Effects.{
  Env, influencer, time, get, set, set_nx, incr, sadd, smembers, expire, eval_transition,
  insert_influencer, publish, snapshot,
}
use ject6_4th_ai_analyzer.Core.Effects.Issues.{
  Traces-pure, Traces-raise, Traces-lift, Traces-if, Traces-option, Traces-try, Traces-bind,
}
use ject6_4th_ai_analyzer.Client.Llm.Retries.{StopsUnlessRetried}
use ject6_4th_ai_analyzer.Repository.Documents.{upsert_influencer}
use ject6_4th_ai_analyzer.Repository.CrawlQueue.{CrawlMessage}
use ject6_4th_ai_analyzer.Worker.IngestMessage.{get_set, get_string}
use ject6_4th_ai_analyzer.Worker.FullBlogBatch.{
  parse_ids, publish_analysis, mark_ingest_done, snapshot_and_publish, create_snapshot_and_publish,
  set_if_set, is_past, claim_snapshot, count_post, handle_full_blog_batch, batch_key, batch_ttl,
  snapshot_completed,
}
use ject6_4th_ai_analyzer.Worker.IngestWorker.{register_influencer, announce, analysis_mode_of}
use ject6_4th_ai_analyzer.Worker.Unsettled.{
  Unsettled, spares, Unsettled-call, Unsettled-session_scope, Unsettled-create_snapshot,
  Unsettled-init_service,
}

module _ (env : Env) where
  Unsettled-publish_analysis :
      (u d : ℤ) (c : Option Text) (a : Text) (b : Option Text) (s : Option (List ℤ))
      → Unsettled (publish_analysis env u d c a b s)
  unfolding publish_analysis
  Unsettled-publish_analysis u d c a b s = Unsettled-call env (publish _ _ []) (λ x. x)

  Unsettled-mark_ingest_done :
      (c : Text) (d u : ℤ) (a : Text) → Unsettled (mark_ingest_done env c d u a)
  unfolding mark_ingest_done
  Unsettled-mark_ingest_done c d u a =
      Traces-bind spares _ _
        (Traces-try spares _ _ (Unsettled-call env (set _ _ 3600) (λ x. x))
          λ _. Traces-pure spares tt)
        λ _. Unsettled-publish_analysis u d (some c) a none none

  Unsettled-set_if_set : (key : Text) (value : Option Text) → Unsettled (set_if_set env key value)
  unfolding set_if_set
  Unsettled-set_if_set key value =
      Traces-option spares (non_empty value) _ _ (Traces-pure spares tt)
        λ text. Unsettled-call env (set _ _ _) (λ x. x)

  Unsettled-is_past : (raw : Option Text) → Unsettled (is_past env raw)
  unfolding is_past
  Unsettled-is_past raw =
      Traces-option spares (non_empty raw) _ _ (Traces-pure spares false) λ text.
        Traces-bind spares _ _ (Traces-lift spares (parse_int env text)) λ deadline.
          Traces-bind spares _ _ (Unsettled-call env time (λ x. x)) λ now. Traces-pure spares _

  Unsettled-claim_snapshot : (batch_id : Text) → Unsettled (claim_snapshot env batch_id)
  unfolding claim_snapshot
  Unsettled-claim_snapshot batch_id =
      Traces-bind spares _ _ (Unsettled-call env (set_nx _ _ _) (λ x. x)) λ locked.
        Traces-if spares locked _ _ (Traces-pure spares true) (
          Traces-bind spares _ _ (Unsettled-call env (get _) (λ x. x)) λ existing.
            Traces-if spares _ _ _ (Traces-pure spares false)
              (Unsettled-call env (eval_transition _ _ _ _) (λ x. x)))

  Unsettled-count_post : (batch_id : Text) (d : ℤ) → Unsettled (count_post env batch_id d)
  unfolding count_post
  Unsettled-count_post batch_id d =
      Traces-bind spares _ _ (Unsettled-call env (sadd _ _) (λ x. x)) λ _.
        Traces-bind spares _ _ (Unsettled-call env (expire _ _) (λ x. x))
          λ _. Unsettled-call env (incr _) (λ x. x)

  pub Unsettled-register_influencer : (r : ChunkRequest) → Unsettled (register_influencer env r)
  unfolding register_influencer upsert_influencer
  Unsettled-register_influencer r =
      Traces-if spares (is_ext_blog r.source_type) _ _
        (Traces-option spares (get_string (codes "source_blog_url") r.metadata) _ _
          (Traces-pure spares tt)
          λ url.
            Traces-try spares _ _
              (Unsettled-session_scope env influencer _
                (Unsettled-call env (insert_influencer _) (λ x. x)))
              λ _. Traces-pure spares tt)
        (Traces-pure spares tt)

  module _ (stops : StopsUnlessRetried env) where
    Unsettled-snapshot_and_publish :
        (batch_id : Text) → Unsettled (snapshot_and_publish env batch_id)
    unfolding snapshot_and_publish
    Unsettled-snapshot_and_publish batch_id =
        Traces-bind spares _ _ (Unsettled-call env (smembers _) (λ x. x)) λ raw_ids.
          Traces-bind spares _ _ (Traces-lift spares (parse_ids env raw_ids)) λ ids.
            Traces-bind spares _ _ (Unsettled-call env (get _) (λ x. x)) λ user_raw.
              Traces-bind spares _ _ (Traces-lift spares (int_or_zero env user_raw)) λ user_id.
                Traces-bind spares _ _ (Unsettled-call env (get _) (λ x. x)) λ blog_raw.
                  Traces-bind spares _ _ (Traces-lift spares (int_if_set env blog_raw)) λ blog_id.
                    Traces-bind spares _ _ (Unsettled-call env (get _) (λ x. x)) λ correlation_id.
                      Traces-bind spares _ _
                        (Unsettled-session_scope env snapshot _ (
                          Traces-bind spares _ _ (Unsettled-init_service env) λ _.
                            Unsettled-create_snapshot env stops user_id blog_id batch_id ids
                              correlation_id))
                        λ out.
                          Traces-bind spares _ _
                            (Unsettled-publish_analysis user_id out.0 correlation_id
                              (codes "FULL_BLOG") (some batch_id) (some out.1))
                            λ _.
                              Unsettled-call env
                                (set (batch_key batch_id (codes "snapshot_status"))
                                  snapshot_completed batch_ttl)
                                (λ x. x)

    Unsettled-create_snapshot_and_publish :
        (batch_id : Text) → Unsettled (create_snapshot_and_publish env batch_id)
    unfolding create_snapshot_and_publish
    Unsettled-create_snapshot_and_publish batch_id =
        Traces-try spares _ _ (Unsettled-snapshot_and_publish batch_id) λ exc.
          Traces-bind spares _ _ (Unsettled-call env (set _ _ _) (λ x. x))
            λ _. Traces-raise spares exc

    Unsettled-handle_full_blog_batch :
        (batch_id : Text) (d u : ℤ) (b c : Option Text) (n : ℤ)
        → Unsettled (handle_full_blog_batch env batch_id d u b c n)
    unfolding handle_full_blog_batch
    Unsettled-handle_full_blog_batch batch_id d u b c n =
        Traces-bind spares _ _ (Unsettled-call env (set _ _ _) (λ x. x)) λ _.
          Traces-bind spares _ _ (Unsettled-call env (set _ _ _) (λ x. x)) λ _.
            Traces-bind spares _ _ (Unsettled-set_if_set _ b) λ _.
              Traces-bind spares _ _ (Unsettled-set_if_set _ c) λ _.
                Traces-bind spares _ _ (Unsettled-call env time (λ x. x)) λ now.
                  Traces-bind spares _ _ (Unsettled-call env (set_nx _ _ _) (λ x. x)) λ _.
                    Traces-bind spares _ _ (Unsettled-count_post batch_id d) λ done.
                      Traces-bind spares _ _ (Unsettled-call env (expire _ _) (λ x. x)) λ _.
                        Traces-bind spares _ _ (Unsettled-call env (get _) (λ x. x)) λ deadline.
                          Traces-bind spares _ _ (Unsettled-is_past deadline) λ past.
                            Traces-if spares (leb_ℤ n done || (past && ltb_ℤ (pos 0) done)) _ _
                              (Traces-bind spares _ _ (Unsettled-claim_snapshot batch_id)
                                λ is_claimed.
                                  Traces-if spares is_claimed _ _
                                    (Unsettled-create_snapshot_and_publish batch_id)
                                    (Traces-pure spares tt))
                              (Traces-pure spares tt)

    pub Unsettled-announce :
        (m : CrawlMessage) (r : ChunkRequest) (count : Option ℤ) (d : ℤ)
        → Unsettled (announce env m r count d)
    unfolding announce
    Unsettled-announce m r count d =
        let mark =
          Traces-option spares (get_set (codes "correlation_id") m.fields) _ _
            (Traces-pure spares tt) λ c. Unsettled-mark_ingest_done c d r.user_id (codes "POST") in
        Traces-if spares (analysis_mode_of m.fields == codes "FULL_BLOG") _ _
          (Traces-option spares (get_set (codes "batch_id") m.fields) _ _ mark λ batch_id.
            Traces-option spares count _ _ mark λ n.
              Traces-if spares (eqb_ℤ n (pos 0)) _ _ mark
                (Unsettled-handle_full_blog_batch batch_id d r.user_id _ _ n))
          mark
