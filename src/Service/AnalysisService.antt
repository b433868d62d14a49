-- ===== src/Service/AnalysisService.antt =====
-- app/service/analysis_service.py: an analysis job, from its row to its result.
pub mod Bare
pub mod Settled
use ject6_4th_ai_analyzer.Base.{
  ℕ, Bool, ◌&&◌, ◌||◌, Option, none, some, List, [], ◌∷◌, ◌++◌, map, Text, codes, join, lower, take,
  is_empty, ◌==◌, text_eq, if◌then◌else◌,
}
use ject6_4th_ai_analyzer.Base.Int.{ℤ}
use ject6_4th_ai_analyzer.Base.Decimal.{show}
use ject6_4th_ai_analyzer.Domain.Enums.{
  in_progress, completed, failed, system, user, AnalysisMode, mode_value,
}
use ject6_4th_ai_analyzer.Domain.Json.{Fields, string, array, numbers, set_field}
use ject6_4th_ai_analyzer.Domain.Schemas.{AnalysisRequest}
use ject6_4th_ai_analyzer.Domain.Models.{AnalysisJob, Document}
use ject6_4th_ai_analyzer.Core.Exceptions.{raised, not_found, llm_client_error, exception_text}
use ject6_4th_ai_analyzer.Core.Consume.{enforce_rate_limit}
use ject6_4th_ai_analyzer.Core.Effects.{
  Env, Exec, ContextChunk, call, avg_embedding, my_blog_context, ext_blog_context,
  job_posting_context, refresh_job, pure, raise, or_raise, try_except, ◌>>=◌, ◌>>◌,
}
use ject6_4th_ai_analyzer.Client.Llm.{chat}
use ject6_4th_ai_analyzer.Repository.Documents.{get_by_id}
use ject6_4th_ai_analyzer.Repository.AnalysisJobs.{
  create_job, update_status, get_latest_by_document,
}
use ject6_4th_ai_analyzer.Service.AnalysisPrompts.{post_system_prompt, full_blog_system_prompt}
use ject6_4th_ai_analyzer.Service.AnalysisDemo.{demo_analysis_of}

-- 0.3, the pattern of its bits
abbrev temperature_analysis : ℕ
temperature_analysis = 0x3fd3333333333333

-- `"\n\n".join(f"[{c.title}]\n{c.content_preview}" for c in chunks) or default`
unfoldable pub chunk_text : ContextChunk → Text
chunk_text c = codes "[" ++ c.title ++ codes "]\n" ++ c.content_preview

unfoldable pub chunks_text : Text → List ContextChunk → Text
unfolding chunk_text
chunks_text default chunks =
    let text = join (codes "\n\n") (map chunk_text chunks) in
    if is_empty text then default else text

unfoldable pub rag_context_text : Text → Text → Text → Text
rag_context_text blog_context influencer_context campaign_context =
    codes "=== 참고: 동일 블로거의 이전 글 ===\n"
    ++ blog_context
    ++ codes "\n\n=== 참고: 유사 인플루언서 블로그 글 ===\n"
    ++ influencer_context
    ++ codes "\n\n=== 참고: 유사 공고 ===\n"
    ++ campaign_context
    ++ codes "\n\n"

-- `request.analysis_mode or "POST"`
unfoldable pub mode_or_post : Option AnalysisMode → Text
mode_or_post none = codes "POST"
mode_or_post (some mode) = mode_value mode

unfoldable pub user_content_of : Text → Text → Option Text → Text → Text
user_content_of title content rag_context analysis_mode =
    let max_chars = if analysis_mode == codes "FULL_BLOG" then 20000 else 10000 in
    let user_content = codes "제목: " ++ title ++ codes "\n\n본문:\n" ++ take max_chars content in
    elim rag_context [ none ↦ [] | some context ↦ context ]
    ++ user_content
    ++ codes "\n\n---\n위 내용을 분석 대상으로 삼아, 다른 설명이나 대화 없이 "
    ++ codes "system 메시지의 JSON 스키마와 정확히 일치하는 JSON 객체만 출력하세요."

-- The entries that `analyze` adds to the result.
unfoldable pub result_dict : Fields → Text → AnalysisRequest → Fields
result_dict result analysis_mode r =
    let with_mode = set_field (codes "analysis_mode") (string analysis_mode) result in
    let with_batch : Fields = elim r.batch_id [
      | none ↦ with_mode
      | some batch_id ↦
          if is_empty batch_id
          then with_mode
          else set_field (codes "batch_id") (string batch_id) with_mode
    ] in
    elim r.source_document_ids [
      | none ↦ with_batch
      | some ids ↦
          if is_empty ids
          then with_batch
          else set_field (codes "source_document_ids") (array (numbers ids)) with_batch
    ]

module _ (env : Env) where
  -- The context of a document; whatever is raised, there is then none.
  unfoldable pub build_rag_context : ℤ → ℤ → Exec (Option Text)
  unfolding chunks_text rag_context_text
  build_rag_context document_id user_id =
      try_except
        (do
          avg_emb ← call env (avg_embedding document_id)
          elim avg_emb [
            | none ↦ pure none
            | some embedding ↦ do
              blog_chunks ← call env (my_blog_context user_id embedding document_id 3)
              ext_blog_chunks ← call env (ext_blog_context embedding 3)
              job_chunks ← call env (job_posting_context embedding 3)
              pure (
                  if is_empty blog_chunks && is_empty ext_blog_chunks && is_empty job_chunks
                  then none
                  else some (
                      rag_context_text (chunks_text (codes "관련 블로그 글 없음") blog_chunks)
                        (chunks_text (codes "관련 인플루언서 글 없음") ext_blog_chunks)
                        (chunks_text (codes "관련 공고 없음") job_chunks)))
          ])
        (λ _. pure none)

  unfoldable pub run_llm_analysis : Text → Text → Option Text → Text → Exec Fields
  unfolding user_content_of
  run_llm_analysis title content rag_context analysis_mode = do
    let system_prompt =
        if analysis_mode == codes "FULL_BLOG" then full_blog_system_prompt else post_system_prompt
    raw ←
        chat env
          (record { role = system; content = system_prompt }
            ∷ record {
              role = user;
              content = user_content_of title content rag_context analysis_mode;
            }
            ∷ [])
          temperature_analysis 6000
          (some (record { kind = codes "json_object"; schema = some env.analysis_schema }))
    or_raise (env.analysis_of raw) (
        raised llm_client_error (codes "invalid LLM JSON response: " ++ env.analysis_error raw)
          none)

  unfoldable pub find_result : Document → ℤ → Text → Exec Fields
  unfolding build_rag_context run_llm_analysis demo_analysis_of
  find_result document user_id analysis_mode =
      if env.settings.demo_mode || lower env.settings.llm_provider == codes "demo"
      then pure (demo_analysis_of analysis_mode)
      else do
        rag_context ← build_rag_context document.id user_id
        run_llm_analysis document.title document.content rag_context analysis_mode

  -- The `try` of `analyze`: its two `except` clauses do the same.
  unfoldable pub run_job : ℤ → AnalysisRequest → Document → Text → Exec Unit
  unfolding find_result result_dict
  run_job job_id r document analysis_mode =
      try_except
        (do
          result ← find_result document r.user_id analysis_mode
          update_status env job_id completed (some (result_dict result analysis_mode r)) none)
        (λ exc. update_status env job_id failed none (some (exception_text exc)) >> raise exc)

  unfoldable pub analyze : AnalysisRequest → Bool → Exec AnalysisJob
  unfolding run_job mode_or_post
  analyze r is_limited = elim r.document_id [
    | none ↦ raise (raised not_found (codes "document_id is required for analysis") none)
    | some document_id ↦ do
      (if is_limited
          then enforce_rate_limit env (codes "analysis") r.user_id env.settings.analysis_rate
          else pure tt)
      found ← get_by_id env document_id
      document ←
          or_raise found (raised not_found (codes "document not found: " ++ show document_id) none)
      let analysis_mode = mode_or_post r.analysis_mode
      job_id ← create_job env r.user_id document_id
      update_status env job_id in_progress none none
      run_job job_id r document analysis_mode
      call env (refresh_job job_id)
  ]

  unfoldable pub get_analysis_for_document : ℤ → Exec AnalysisJob
  get_analysis_for_document document_id = do
    job ← get_latest_by_document env document_id
    or_raise job (raised not_found (codes "no analysis for document: " ++ show document_id) none)
