-- ===== src/Repository/CrawlQueue.antt =====
-- app/repository/crawl_queue.py: the Redis stream of crawled posts.
use ject6_4th_ai_analyzer.Base.{
  Bool, false, none, some, List, [], ◌∷◌, ◌++◌, Text, codes, take, is_in, if◌then◌else◌,
}
use ject6_4th_ai_analyzer.Base.Dict.{Dict, insert}
use ject6_4th_ai_analyzer.Core.Exceptions.{Exception, builtin, redis_response_error}
use ject6_4th_ai_analyzer.Core.Effects.{
  Env, Exec, call, xgroup_create, xreadgroup, xautoclaim, xack, xadd, pure, raise, try_except,
  ◌>>=◌,
}

pub record CrawlMessage : Type 0 where
  pub id : Text
  pub fields : Dict Text

unfoldable pub decode_list : List (Text × Dict Text) → List CrawlMessage
decode_list [] = []
decode_list ((id, fields) ∷ messages) = record { id = id; fields = fields } ∷ decode_list messages

-- `_decode_messages`
unfoldable pub decode_messages : List (Text × List (Text × Dict Text)) → List CrawlMessage
unfolding decode_list
decode_messages [] = []
decode_messages ((stream, messages) ∷ raw) = decode_list messages ++ decode_messages raw

-- The group is there already.
abbrev pub is_busy_group : Exception → Bool
is_busy_group (builtin redis_response_error text) = is_in (codes "BUSYGROUP") text
is_busy_group _ = false

-- The entry of the dead letter stream.
unfoldable pub dlq_payload : CrawlMessage → Text → Dict Text
dlq_payload m error_message =
    insert (codes "error_message") (take 1000 error_message)
      (insert (codes "failed_message_id") m.id m.fields)

module _ (env : Env) where
  unfoldable pub ensure_group : Exec Unit
  ensure_group =
      try_except
        (call env (xgroup_create env.settings.crawl_stream_name env.settings.crawl_consumer_group))
        (λ exc. if is_busy_group exc then pure tt else raise exc)

  unfoldable pub read : Text → Exec (List CrawlMessage)
  unfolding decode_messages
  read consumer_name = do
    messages ← call env (
        xreadgroup env.settings.crawl_consumer_group consumer_name env.settings.crawl_stream_name
          env.settings.crawl_batch_size env.settings.crawl_block_ms)
    pure (decode_messages messages)

  unfoldable pub claim_pending : Text → Exec (List CrawlMessage)
  unfolding decode_list
  claim_pending consumer_name = do
    result ← call env (
        xautoclaim env.settings.crawl_stream_name env.settings.crawl_consumer_group consumer_name
          env.settings.crawl_pending_idle_ms env.settings.crawl_batch_size)
    pure (elim result [ none ↦ [] | some messages ↦ decode_list messages ])

  unfoldable pub ack_message : Text → Exec Unit
  ack_message message_id =
      call env (xack env.settings.crawl_stream_name env.settings.crawl_consumer_group message_id)

  unfoldable pub requeue : Dict Text → Exec Text
  requeue fields = call env (xadd env.settings.crawl_stream_name fields)

  unfoldable pub send_to_dlq : CrawlMessage → Text → Exec Text
  unfolding dlq_payload
  send_to_dlq m error_message =
      call env (xadd env.settings.crawl_dlq_stream_name (dlq_payload m error_message))
