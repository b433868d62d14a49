-- ===== src/Service/ConversationService.antt =====
-- app/service/conversation_service.py: a conversation about an analysed post, within a budget of
-- tokens and turns.
pub mod Limits
pub mod Quiet
pub mod Account
use ject6_4th_ai_analyzer.Base.{
  ℕ, ◌+◌, ◌*◌, ◌/◌, max, ◌&&◌, Option, none, some, List, [], ◌∷◌, ◌++◌, map, Text, codes, join,
  take, is_empty, length, leb, if◌then◌else◌,
}
use ject6_4th_ai_analyzer.Base.Int.{ℤ, pos, ◌+ℤ◌, leb_ℤ, eqb_ℤ, sub_ℕ, pos_part, neg_part}
use ject6_4th_ai_analyzer.Base.Decimal.{show}
use ject6_4th_ai_analyzer.Domain.Enums.{system, user, assistant, is_completed}
use ject6_4th_ai_analyzer.Domain.Json.{
  Json, Items, Fields, string, array, object, nil, cons, end, field, get_field,
}
use ject6_4th_ai_analyzer.Domain.Schemas.{ChatMessage, ChatRequest, ChatResponse}
use ject6_4th_ai_analyzer.Domain.Models.{AnalysisJob}
use ject6_4th_ai_analyzer.Core.Exceptions.{
  raised, not_found, token_limit_exceeded, builtin, type_error,
}
use ject6_4th_ai_analyzer.Core.Consume.{enforce_rate_limit}
use ject6_4th_ai_analyzer.Core.Effects.{
  Env, Exec, ContextChunk, Result, ok, err, call, my_blog_context, job_posting_context, pure, raise,
  lift, or_raise, try_except, ◌>>=◌, ◌>>◌,
}
use ject6_4th_ai_analyzer.Client.Llm.{count_tokens, embed, chat}
use ject6_4th_ai_analyzer.Repository.Documents.{get_by_id}
use ject6_4th_ai_analyzer.Repository.AnalysisJobs.{get_latest_by_document}
use ject6_4th_ai_analyzer.Repository.Conversations.{
  get_messages, append_message, get_token_usage, add_token_usage, clear,
}
use ject6_4th_ai_analyzer.Service.ConversationPrompt.{
  chat_system_prompt, retrieval_section, budgeted_text, join_json, get_or,
}

-- 0.7, the pattern of its bits
abbrev temperature_chat : ℕ
temperature_chat = 0x3fe6666666666666

module _ (env : Env) where
  -- `str`, which leaves a string alone
  unfoldable pub json_text : Json → Text
  json_text (string t) = t
  json_text v = env.str_of v

  unfoldable pub format_analysis : Fields → Result Text
  unfolding join_json json_text
  format_analysis result =
      elim (join_json (codes ", ") (get_or (codes "key_topics") (array nil) result)) [
        | err e ↦ err e
        | ok topics ↦
            elim (join_json (codes "; ") (get_or (codes "suggestions") (array nil) result)) [
              | err e ↦ err e
              | ok suggestions ↦ ok (
                  join (codes "\n") (
                    (codes "- 요약: " ++ json_text (get_or (codes "summary") (string []) result))
                    ∷ (codes "- 주요 토픽: " ++ topics)
                    ∷ (codes "- 톤: " ++ json_text (get_or (codes "tone") (string []) result))
                    ∷ (codes "- 타겟 독자: "
                        ++ json_text (get_or (codes "target_audience") (string []) result))
                    ∷ (codes "- 개선 제안: " ++ suggestions)
                    ∷ []))
            ]
      ]

  unfoldable pub analysis_text : Option AnalysisJob → Result Text
  unfolding format_analysis
  analysis_text none = ok (codes "분석이 아직 완료되지 않았습니다.")
  analysis_text (some job) =
      if is_completed job.status
      then format_analysis job.result
      else ok (codes "분석이 아직 완료되지 않았습니다.")

  -- The sections of the context; whatever is raised, the text is then empty. The shares 0.40 and
  -- 0.35 of the budget are the fractions that they are written as.
  unfoldable pub build_retrieval_section : ℤ → ℤ → Text → Exec Text
  unfolding budgeted_text retrieval_section
  build_retrieval_section document_id user_id user_query =
      try_except
        (do
          query_emb_list ← embed env (user_query ∷ [])
          elim query_emb_list [
            | [] ↦ pure []
            | query_emb ∷ _ ↦ do
              blog_chunks ← call env (my_blog_context user_id query_emb document_id 3)
              job_chunks ← call env (job_posting_context query_emb 3)
              pure (
                  if is_empty blog_chunks && is_empty job_chunks
                  then []
                  else retrieval_section
                      (budgeted_text (codes "관련 글 없음")
                        (env.settings.max_conversation_tokens * 40 * 4 / 100) blog_chunks)
                      (budgeted_text (codes "관련 공고 없음")
                        (env.settings.max_conversation_tokens * 35 * 4 / 100) job_chunks))
          ])
        (λ _. pure [])

  unfoldable pub build_system_prompt : ℤ → ℤ → Text → Exec (Text × ℕ)
  unfolding analysis_text build_retrieval_section chat_system_prompt
  build_system_prompt document_id user_id user_query = do
    found ← get_by_id env document_id
    document ←
        or_raise found (raised not_found (codes "document not found: " ++ show document_id) none)
    job ← get_latest_by_document env document_id
    analysis ← lift (analysis_text job)
    section ← build_retrieval_section document_id user_id user_query
    pure (
      chat_system_prompt document.title analysis section,
      if is_empty section then 0 else count_tokens env section,
    )

  unfoldable pub verify_context : ChatRequest → Exec Unit
  verify_context r = do
    found ← get_by_id env r.document_id
    let refused =
        raise (raised not_found (codes "document not accessible: " ++ show r.document_id) none)
    elim found [
      | none ↦ refused
      | some document ↦ if eqb_ℤ document.user_id r.user_id then pure tt else refused
    ]

  -- `max(0, limit - used)`
  unfoldable pub remaining_tokens : ℕ → ℤ → ℤ
  remaining_tokens limit used =
      let left = sub_ℕ (limit + neg_part used) (pos_part used) in
      if leb_ℤ (pos 0) left then left else pos 0

  -- The part of `chat` after the checks of the limits.
  unfoldable pub answer_message : ChatRequest → List ChatMessage → Exec ChatResponse
  unfolding build_system_prompt remaining_tokens
  answer_message r history = do
    (system_prompt, retrieval_tokens) ← build_system_prompt r.document_id r.user_id r.message
    let user_message : ChatMessage = record { role = user; content = r.message }
    reply_text ←
        chat env
          (record { role = system; content = system_prompt } ∷ (history ++ (user_message ∷ [])))
          temperature_chat 800 none
    append_message env r.session_id user_message
    append_message env r.session_id (record { role = assistant; content = reply_text })
    let consumed = count_tokens env r.message + count_tokens env reply_text + retrieval_tokens
    new_total ← add_token_usage env r.session_id consumed
    pure (record {
      session_id = r.session_id;
      reply = reply_text;
      tokens_used = new_total;
      tokens_remaining = remaining_tokens env.settings.max_conversation_tokens new_total;
    })

  -- The checks of the limits.
  unfoldable pub within_limits : ChatRequest → Exec (List ChatMessage)
  within_limits r = do
    used_tokens ← get_token_usage env r.session_id
    (if leb_ℤ (pos env.settings.max_conversation_tokens)
          (used_tokens +ℤ pos (count_tokens env r.message))
        then raise (
            raised token_limit_exceeded
              (codes "session token limit reached ("
                ++ show used_tokens
                ++ codes "/"
                ++ show (pos env.settings.max_conversation_tokens)
                ++ codes ")")
              none)
        else pure tt)
    history ← get_messages env r.session_id
    if leb (env.settings.max_turns_per_session * 2) (length history)
        then raise (raised token_limit_exceeded (codes "max turns per session reached") none)
        else pure history

  unfoldable pub chat_with : ChatRequest → Exec ChatResponse
  unfolding verify_context within_limits answer_message
  chat_with r = do
    enforce_rate_limit env (codes "chat") r.user_id env.settings.chat_rate
    verify_context r
    history ← within_limits r
    answer_message r history

  unfoldable pub reset_session : Text → Exec Unit
  reset_session session_id = clear env session_id
