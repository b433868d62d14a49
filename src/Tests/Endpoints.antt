-- ===== src/Tests/Endpoints.antt =====
-- The endpoints where a post is stored, and where the bucket of a user is empty.
use ject6_4th_ai_analyzer.Base.{◌≡◌, refl, ◌⊎◌, false, none, some, [], codes}
use ject6_4th_ai_analyzer.Base.Int.{pos}
use ject6_4th_ai_analyzer.Domain.Enums.{my_blog}
use ject6_4th_ai_analyzer.Domain.Json.{end}
use ject6_4th_ai_analyzer.Domain.Schemas.{ChunkRequest, AnalysisRequest, ChatRequest}
use ject6_4th_ai_analyzer.Core.Effects.{Env, Log, Command, Reply, Result, ok, eval_token_bucket}
use ject6_4th_ai_analyzer.Service.DocumentService.{ingest_and_chunk}
use ject6_4th_ai_analyzer.Api.Endpoints.{failed, post_analysis, send_message}
use ject6_4th_ai_analyzer.Api.Endpoints.Answers.{HasAnswered, HasFailed, endpoint_answers}
use ject6_4th_ai_analyzer.Api.Endpoints.Limited.{
  SessionsWork, too_many, refused_log, limited_requests,
}
use ject6_4th_ai_analyzer.Tests.World.{world, answers}

abbrev new_post : ChunkRequest
new_post = record {
  user_id = pos 1;
  source_type = my_blog;
  title = codes "title";
  content = codes "some text";
  url = none;
  external_id = none;
  metadata = end;
  content_hash = none;
  crawled_at = none;
  ingestion_status = codes "completed";
}

endpoint_answers_example :
    HasAnswered world 201 (ingest_and_chunk world new_post) []
    ⊎ HasFailed world 201 (ingest_and_chunk world new_post) []
endpoint_answers_example = endpoint_answers world 201 (ingest_and_chunk world new_post) []

-- The bucket of every user is empty.
abbrev denying_answers : Log → (c : Command) → Result (Reply c)
denying_answers h (eval_token_bucket _ _ _ _) =
    ok (record { allowed = false; remaining = 0; retry_after_ms = 1500 })
denying_answers h c = answers none h c

abbrev denying_world : Env
denying_world = record world { answer = denying_answers }

sessions_work : SessionsWork denying_world
sessions_work = record { opens = λ l. refl; rolls_back = λ l. refl; closes = λ l. refl }

abbrev asked_analysis : AnalysisRequest
asked_analysis = record {
  user_id = pos 1;
  document_id = some (pos 7);
  correlation_id = none;
  analysis_mode = none;
  batch_id = none;
  source_document_ids = none;
}

abbrev asked_chat : ChatRequest
asked_chat = record {
  user_id = pos 2;
  session_id = codes "s";
  document_id = pos 7;
  message = codes "hi";
}

limited_requests_example :
    (post_analysis denying_world (record asked_analysis { document_id = some (pos 7) }) [] ≡ (
      ok (failed (too_many denying_world [] 5000 1500 0 (codes "analysis"))),
      refused_log denying_world [] 5000 1500 0
          (codes "analysis")
          (pos 1)
          denying_world.settings.analysis_rate,
    ))
    × (send_message denying_world asked_chat [] ≡ (
      ok (failed (too_many denying_world [] 5000 1500 0 (codes "chat"))),
      refused_log denying_world [] 5000 1500 0
          (codes "chat")
          (pos 2)
          denying_world.settings.chat_rate,
    ))
limited_requests_example =
    limited_requests denying_world [] 5000 1500 0 sessions_work refl asked_analysis (pos 7)
      asked_chat refl refl
