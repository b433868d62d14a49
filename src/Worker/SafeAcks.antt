-- ===== src/Worker/SafeAcks.antt =====
-- app/worker/ingest_worker.py: when a message of the stream is acknowledged.
use ject6_4th_ai_analyzer.Base.{inr, true, Option, List, Text}
use ject6_4th_ai_analyzer.Base.Int.{ℤ, ltb_ℤ}
use ject6_4th_ai_analyzer.Domain.Schemas.{ChunkRequest}
use ject6_4th_ai_analyzer.Core.Exceptions.{Exception, exception_text}
use ject6_4th_ai_analyzer.Core.Effects.{
  Env, Exec, Event, Log, Result, ok, err, ingest, commit, xack, xadd,
}
use ject6_4th_ai_analyzer.Core.Effects.Issues.{IsTrace, Traces, Traces-lift}
use ject6_4th_ai_analyzer.Core.Effects.Ensures.{
  AddsOrRaises, AddsOne-AddsOrRaises, Ensures, Ensures-if, Ensures-try, Ensures-bind_left,
  Ensures-bind_right, Ensures-call,
}
use ject6_4th_ai_analyzer.Core.Effects.Guarded.{SafeAfter, safe, Only-SafeAfter, Ensures-keep_then}
use ject6_4th_ai_analyzer.Core.Session.Kept.{Ensures-session_scope}
use ject6_4th_ai_analyzer.Client.Llm.Retries.{StopsUnlessRetried}
use ject6_4th_ai_analyzer.Repository.CrawlQueue.{
  CrawlMessage, dlq_payload, ack_message, requeue, send_to_dlq,
}
use ject6_4th_ai_analyzer.Service.DocumentService.{ingest_and_chunk}
use ject6_4th_ai_analyzer.Worker.IngestMessage.{
  read_retry_count, expected_count_of, chunk_request_of,
}
use ject6_4th_ai_analyzer.Worker.IngestWorker.{
  retry_fields, handle_failure, process, handle_request, handle_message,
}
use ject6_4th_ai_analyzer.Worker.Unsettled.{Settles, Unsettled, Unsettled-ingest_and_chunk}
use ject6_4th_ai_analyzer.Worker.UnsettledBatch.{Unsettled-register_influencer, Unsettled-announce}

module _ (env : Env) (m : CrawlMessage) where
  -- A call that returned, and after which the post is not lost: its documents are committed, or the
  -- message is on the stream again with the next count, or it is on the dead letter stream.
  pub data Keeps : Event → Type 0 where
    stored : Keeps (record { command = commit ingest; succeeded = true })
    requeued : Keeps (record {
      command = xadd env.settings.crawl_stream_name (retry_fields m);
      succeeded = true;
    })
    buried :
        (text : Text)
        → Keeps (record {
          command = xadd env.settings.crawl_dlq_stream_name (dlq_payload m text);
          succeeded = true;
        })

  -- The acknowledgement of the message, and it returned.
  pub data IsAcked : Event → Type 0 where
    acked : IsAcked (record {
      command = xack env.settings.crawl_stream_name env.settings.crawl_consumer_group m.id;
      succeeded = true;
    })

  -- No message is settled before a call that keeps the post, which `Q` says was made before.
  abbrev pub SafeFrom : Type 0 → List Event → Type 0
  SafeFrom Q = SafeAfter Settles Keeps Q

  abbrev safe_from : (Q : Type 0) → IsTrace (SafeFrom Q)
  safe_from Q = safe Settles Keeps Q

  Unsettled-safe : {A : Type 0} (Q : Type 0) (k : Exec A) → Unsettled k → Traces (SafeFrom Q) k
  Unsettled-safe Q k u = record {
    at = λ h. let (es, e, o) = u.at h in (es, e, Only-SafeAfter Settles Keeps Q es o);
  }

  Ensures-ack_message : Ensures (SafeFrom Unit) IsAcked (ack_message env m.id)
  unfolding ack_message
  Ensures-ack_message = Ensures-call (safe_from Unit) IsAcked env _ (λ _. (λ _. inr tt, tt)) acked

  Ensures-send_to_dlq : (text : Text) → Ensures (SafeFrom ⊥) Keeps (send_to_dlq env m text)
  unfolding send_to_dlq
  Ensures-send_to_dlq text =
      Ensures-call (safe_from ⊥) Keeps env _ (λ _. (λ c. elim c [ ], tt)) (buried text)

  Ensures-requeue : Ensures (SafeFrom ⊥) Keeps (requeue env (retry_fields m))
  unfolding requeue
  Ensures-requeue = Ensures-call (safe_from ⊥) Keeps env _ (λ _. (λ c. elim c [ ], tt)) requeued

  Ensures-handle_failure :
      (exc : Exception) → Ensures (SafeFrom ⊥) IsAcked (handle_failure env m exc)
  unfolding handle_failure
  Ensures-handle_failure exc =
      Ensures-if (safe_from ⊥) IsAcked (ltb_ℤ (read_retry_count m) env.settings.crawl_max_retries) _
        _ (Ensures-keep_then Settles Keeps _ _ Ensures-requeue λ _. Ensures-ack_message)
        (Ensures-keep_then Settles Keeps _ _ (Ensures-send_to_dlq (exception_text exc))
          λ _. Ensures-ack_message)

  module _ (stops : StopsUnlessRetried env) where
    Ensures-process :
        (r : ChunkRequest) (count : Option ℤ) → Ensures (SafeFrom ⊥) IsAcked (process env m r count)
    unfolding process
    Ensures-process r count =
        Ensures-keep_then Settles Keeps _ _
          (Ensures-session_scope env Settles Keeps ingest (λ x. x) (λ x. x) (λ x. x) (λ x. x) stored
            (ingest_and_chunk env r) (Unsettled-safe ⊥ _ (Unsettled-ingest_and_chunk env stops r)))
          λ response.
            Ensures-bind_left (safe_from Unit) IsAcked _ _ Ensures-ack_message λ _.
              Unsettled-safe Unit _ (Unsettled-announce env stops m r count response.document_id)

    Ensures-handle_request :
        (count : Option ℤ) (r : Result ChunkRequest)
        → Ensures (SafeFrom ⊥) IsAcked (handle_request env m count r)
    unfolding handle_request
    Ensures-handle_request count (err exc) =
        Ensures-keep_then Settles Keeps _ _ (Ensures-send_to_dlq (exception_text exc))
          λ _. Ensures-ack_message
    Ensures-handle_request count (ok r) =
        Ensures-bind_right (safe_from ⊥) IsAcked _ _
          (Unsettled-safe ⊥ _ (Unsettled-register_influencer env r))
          λ _.
            Ensures-try (safe_from ⊥) IsAcked _ _ (Ensures-process r count) Ensures-handle_failure

-- A post is not lost: whatever the world answers, the ingest worker acknowledges a message only
-- after a call that returned and that keeps the post, which is the commit of the ingest session, the
-- message with the next count of retries put on the stream, or the message put on the dead letter
-- stream; and where `handle_message` returns at all, it has acknowledged the message. `tenacity` is
-- assumed to make no second attempt after a result or an exception that its predicate refuses.
pub handle_message_safe :
    (env : Env)
    → StopsUnlessRetried env
    → (m : CrawlMessage) (h : Log)
    → AddsOrRaises (SafeFrom env m ⊥) (IsAcked env m) h (handle_message env m h)
unfolding handle_message
handle_message_safe env stops m h = AddsOne-AddsOrRaises (handle_message env m h) (
    (Ensures-bind_right (safe_from env m ⊥) (IsAcked env m) _ _
        (Traces-lift (safe_from env m ⊥) (expected_count_of env m.fields))
        λ count. Ensures-handle_request env m stops count (chunk_request_of env m.fields)).at
      h)
