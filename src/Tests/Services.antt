-- ===== src/Tests/Services.antt =====
-- The services that ask the database, the cache and the providers.
use ject6_4th_ai_analyzer.Base.{
  ℕ, ◌+◌, ◌≤◌, ◌≡◌, refl, false, Option, none, some, List, [], ◌∷◌, map, length, Text, codes, ◌==◌,
  text_eq, lower, ◌<◌,
}
use ject6_4th_ai_analyzer.Base.Int.{pos, ◌+ℤ◌}
use ject6_4th_ai_analyzer.Domain.Schemas.{ChatMessage, ChatRequest, ChatResponse}
use ject6_4th_ai_analyzer.Core.Consume.{enforce_rate_limit}
use ject6_4th_ai_analyzer.Core.Effects.{
  Env, Event, ok, call, Log, Command, Reply, Result, get, incrby,
}
use ject6_4th_ai_analyzer.Client.Llm.{
  ResponseFormat, count_tokens, provider, embed, embed_once, chat, chat_once,
}
use ject6_4th_ai_analyzer.Client.Llm.Demo.{demo_analysis_result}
use ject6_4th_ai_analyzer.Client.Llm.Retries.{never_retries}
use ject6_4th_ai_analyzer.Core.Parsing.{int_or_zero, non_empty}
use ject6_4th_ai_analyzer.Repository.Documents.{get_by_id}
use ject6_4th_ai_analyzer.Repository.AnalysisJobs.{get_latest_by_document}
use ject6_4th_ai_analyzer.Repository.Conversations.{
  get_token_usage, get_messages, append_message, add_token_usage,
}
use ject6_4th_ai_analyzer.Repository.EmbeddingCache.{cache_key}
use ject6_4th_ai_analyzer.Service.DocumentService.{embed_with_cache}
use ject6_4th_ai_analyzer.Service.DocumentService.Merge.{Matches}
use ject6_4th_ai_analyzer.Service.DocumentService.Cached.{Embeds, embed_with_cache_correct}
use ject6_4th_ai_analyzer.Service.ConversationService.{verify_context, chat_with}
use ject6_4th_ai_analyzer.Service.ConversationService.Limits.{HasRoom, chat_with_limits}
use ject6_4th_ai_analyzer.Repository.Conversations.Counter.{
  shown, counter_at, count_of, session_total,
}
use ject6_4th_ai_analyzer.Service.ConversationService.Account.{Charged, chat_with_account}
use ject6_4th_ai_analyzer.Tests.World.{world, embedding_of, answers}

never_retries_example :
    ((texts : List Text)
      → (embed world texts [] ≡ embed_once world texts [])
        × (length (embed world texts []).1 ≤ length {A = Event} [] + 1))
    × ((ms : List ChatMessage) (t n : ℕ) (f : Option ResponseFormat)
        → (chat world ms t n f [] ≡ chat_once world ms t n f [])
          × (length (chat world ms t n f []).1 ≤ length {A = Event} [] + 1))
never_retries_example = never_retries world (λ A n p m h e. refl) []

all_missed :
    (ts : List Text)
    → Matches embedding_of some
        (map (λ (_ : Text). none) (map (cache_key world world.settings.embedding_model) ts))
        ts
all_missed [] = tt
all_missed (t ∷ ts) = all_missed ts

is_openai : (provider world.settings == codes "demo") ≡ false
unfolding provider lower
is_openai = refl

world-Embeds : Embeds world embedding_of
world-Embeds = record {
  not_demo = is_openai;
  provided = λ h ts d. refl;
  found = λ h ts. (
    map (λ _. none) (map (cache_key world world.settings.embedding_model) ts),
    refl,
    all_missed ts,
  );
  written = λ h ws ttl. refl;
}

embed_with_cache_correct_example :
    (embed_with_cache world (codes "abc" ∷ codes "def" ∷ []) []).0
    ≡ ok (codes "ab" ∷ codes "de" ∷ [])
embed_with_cache_correct_example =
    embed_with_cache_correct world embedding_of (λ A n p m h e. refl) world-Embeds
      (codes "abc" ∷ codes "def" ∷ []) []

abbrev question : ChatRequest
question = record {
  user_id = pos 1;
  session_id = codes "s";
  document_id = pos 7;
  message = codes "why?";
}

-- A provider that answers.
abbrev demo_world : Env
demo_world = record world { settings = record world.settings { llm_provider = codes "demo" } }

abbrev answer : ChatResponse
answer = record {
  session_id = codes "s";
  reply = codes "{}";
  tokens_used = pos 6;
  tokens_remaining = pos 7994;
}

answered : (chat_with demo_world question []).0 ≡ ok answer
unfolding chat_with enforce_rate_limit call get_by_id get_token_usage int_or_zero non_empty ◌+ℤ◌
    count_tokens get_messages get_latest_by_document embed embed_once lower chat chat_once
    append_message add_token_usage demo_analysis_result
answered = refl

chat_with_limits_example :
    HasRoom demo_world question
      (verify_context demo_world question
        (enforce_rate_limit demo_world (codes "chat") (pos 1) demo_world.settings.chat_rate []).1).1
chat_with_limits_example = chat_with_limits demo_world question [] answer answered

-- The same over a Redis that keeps its counters.
abbrev counting : Log → (c : Command) → Result (Reply c)
counting h (get k) = ok (shown (counter_at k h))
counting h (incrby k n) = ok (pos (count_of (counter_at k h) + n))
counting h c = answers none h c

abbrev counting_world : Env
counting_world = record demo_world { answer = counting }

answered_counting : (chat_with counting_world question []).0 ≡ ok answer
unfolding chat_with enforce_rate_limit call get_by_id get_token_usage int_or_zero non_empty ◌+ℤ◌
    count_tokens get_messages get_latest_by_document embed embed_once lower chat chat_once
    append_message add_token_usage demo_analysis_result
answered_counting = refl

chat_with_account_example :
    (session_total (codes "s") [] + count_tokens counting_world question.message < 8000)
    × Charged counting_world question
        (session_total (codes "s") [])
        (session_total (codes "s") (chat_with counting_world question []).1)
        answer
chat_with_account_example =
    chat_with_account counting_world question [] answer (λ A n p m h e. refl)
      (record { at_get = λ h. refl; at_incrby = λ h n. refl }) answered_counting
