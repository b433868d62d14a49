-- ===== src/Tests/Workers.antt =====
-- The two workers.
use ject6_4th_ai_analyzer.Base.{
  ◌≡◌, refl, false, none, some, [], ◌∷◌, codes, strip, is_space, lower, if◌then◌else◌,
}
use ject6_4th_ai_analyzer.Base.Int.{pos, ◌+ℤ◌, ltb_ℤ}
use ject6_4th_ai_analyzer.Base.Dict.{lookup, insert}
use ject6_4th_ai_analyzer.Base.Decimal.{show, read_int}
use ject6_4th_ai_analyzer.Domain.Schemas.{AnalysisRequest}
use ject6_4th_ai_analyzer.Core.Exceptions.{Exception, raised, llm_client_error, exception_text}
use ject6_4th_ai_analyzer.Core.Effects.{err, call, analysis, open_session, is_ok, int_header, ◌>>◌}
use ject6_4th_ai_analyzer.Core.Effects.Issues.{Adds}
use ject6_4th_ai_analyzer.Core.Effects.Ensures.{AddsOrRaises}
use ject6_4th_ai_analyzer.Core.Session.{session_scope}
use ject6_4th_ai_analyzer.Core.Session.Lost.{CommitsNothing}
use ject6_4th_ai_analyzer.Client.Llm.{chat, chat_once}
use ject6_4th_ai_analyzer.Repository.Documents.{get_by_id}
use ject6_4th_ai_analyzer.Repository.AnalysisJobs.{create_job, update_status}
use ject6_4th_ai_analyzer.Repository.CrawlQueue.{CrawlMessage, ack_message, requeue, send_to_dlq}
use ject6_4th_ai_analyzer.Service.AnalysisService.{analyze}
use ject6_4th_ai_analyzer.Worker.IngestMessage.{get_set, read_retry_count}
use ject6_4th_ai_analyzer.Worker.IngestWorker.{handle_failure, handle_message, handle_all}
use ject6_4th_ai_analyzer.Worker.SafeAcks.{SafeFrom, IsAcked, handle_message_safe}
use ject6_4th_ai_analyzer.Worker.Retries.{redelivered, retries_bounded, poison_message}
use ject6_4th_ai_analyzer.Worker.AnalysisWorker.{IncomingMessage, retry_header, handle_incoming}
use ject6_4th_ai_analyzer.Worker.AnalysisSettles.{
  CoveredFrom, IsSettled, handle_incoming_safe, failed_analysis_not_stored,
}
use ject6_4th_ai_analyzer.Tests.World.{world}

abbrev post_message : CrawlMessage
post_message = record {
  id = codes "1-0";
  fields =
      (codes "user_id", codes "1")
      ∷ (codes "source_type", codes "my_blog")
      ∷ (codes "content", codes "some text")
      ∷ (codes "correlation_id", codes "c")
      ∷ [];
}

handle_message_safe_example :
    AddsOrRaises
      (SafeFrom world post_message ⊥)
      (IsAcked world post_message)
      []
      (handle_message world post_message [])
handle_message_safe_example = handle_message_safe world (λ A n p m h e. refl) post_message []

abbrev failure : Exception
failure = raised llm_client_error (codes "embedding failed: down") none

retries_bounded_example :
    let now = redelivered post_message (codes "2-0" ∷ codes "3-0" ∷ []) in
    let tried = read_retry_count post_message +ℤ pos 2 in
    handle_failure world now failure []
    ≡ (if ltb_ℤ tried (pos 3)
          then requeue world (insert (codes "retry_count") (show (tried +ℤ pos 1)) now.fields)
            >> ack_message world now.id
          else send_to_dlq world now (exception_text failure) >> ack_message world now.id)
        []
retries_bounded_example =
    retries_bounded world post_message (codes "2-0" ∷ codes "3-0" ∷ []) failure []

abbrev poison : CrawlMessage
poison = record { id = codes "4-0"; fields = (codes "expected_count", codes "x") ∷ [] }

poison_field : get_set (codes "expected_count") poison.fields ≡ some (codes "x")
unfolding get_set lookup
poison_field = refl

not_a_number : read_int (codes "x") ≡ none
unfolding read_int strip is_space
not_a_number = refl

poison_message_example :
    ((handle_all world (poison ∷ post_message ∷ []) []).1 ≡ [])
    × (is_ok (handle_all world (poison ∷ post_message ∷ []) []).0 ≡ false)
poison_message_example =
    poison_message world poison (post_message ∷ []) (codes "x") [] poison_field not_a_number

abbrev request_message : IncomingMessage
request_message = record {
  body = codes "{}";
  headers = some ((retry_header, int_header (pos 2)) ∷ []);
}

handle_incoming_safe_example :
    AddsOrRaises
      (CoveredFrom world request_message ⊥)
      (IsSettled world request_message)
      []
      (handle_incoming world request_message [])
handle_incoming_safe_example = handle_incoming_safe world (λ A n p m h e. refl) request_message []

abbrev analysis_request : AnalysisRequest
analysis_request = record {
  user_id = pos 1;
  document_id = some (pos 7);
  correlation_id = none;
  analysis_mode = none;
  batch_id = none;
  source_document_ids = none;
}

-- The provider is down.
analysis_raises :
    (analyze world analysis_request false (call world (open_session analysis) []).1).0
    ≡ err (raised llm_client_error (codes "chat completion failed: down") none)
unfolding analyze get_by_id call create_job update_status lower chat chat_once exception_text
analysis_raises = refl

failed_analysis_not_stored_example :
    Adds CommitsNothing []
      (session_scope world analysis (analyze world analysis_request false) []).1
failed_analysis_not_stored_example =
    failed_analysis_not_stored world (λ A n p m h e. refl) analysis_request []
      (raised llm_client_error (codes "chat completion failed: down") none) analysis_raises
