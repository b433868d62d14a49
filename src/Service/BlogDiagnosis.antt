-- ===== src/Service/BlogDiagnosis.antt =====
-- app/service/blog_diagnosis_service.py: the diagnosis of a blog, from its metadata and its analysis.
-- The numbers of the metadata are integers.
pub mod Metrics
pub mod Range
pub mod Stored
pub mod Owner
use ject6_4th_ai_analyzer.Base.{
  ℕ, Bool, true, false, not, Option, none, some, List, [], ◌∷◌, ◌++◌, Text, codes, take, ◌==◌,
  if◌then◌else◌,
}
use ject6_4th_ai_analyzer.Base.Int.{ℤ, pos, int_eq}
use ject6_4th_ai_analyzer.Base.Decimal.{show}
use ject6_4th_ai_analyzer.Domain.Enums.{system, user}
use ject6_4th_ai_analyzer.Domain.Json.{
  Json, Fields, string, array, object, nil, end, field, get_field,
}
use ject6_4th_ai_analyzer.Domain.Schemas.{Embedding}
use ject6_4th_ai_analyzer.Domain.Models.{Document, AnalysisJob, DiagnosisColumns, BlogDiagnosis}
use ject6_4th_ai_analyzer.Core.Exceptions.{
  builtin, other_error, raised, llm_client_error, not_found,
}
use ject6_4th_ai_analyzer.Core.Effects.{
  Env, Exec, Result, ok, err, call, insert_diagnosis, refresh_diagnosis, pure, raise, lift,
  try_except, or_raise, ◌>>=◌,
}
use ject6_4th_ai_analyzer.Client.Llm.{chat, embed}
use ject6_4th_ai_analyzer.Repository.Documents.{get_by_id}
use ject6_4th_ai_analyzer.Repository.AnalysisJobs.{get_latest_by_document}
use ject6_4th_ai_analyzer.Service.ConversationPrompt.{join_json, get_or}
use Metrics.{Aggregated, Ratios, aggregate_metrics, aggregated_fields, demo_diagnosis}

abbrev pub diagnosis_system_prompt : Text
diagnosis_system_prompt =
    codes "당신은 블로그 채널 전문 진단 분석가입니다.\n제공된 블로그 채널 분석 결과와 메타데이터를 바탕으로 "
    ++ codes "아래 JSON 스키마에 정확히 일치하는 6지표 진단 결과를 반환하세요.\n다른 텍스트는 포함하지 마세요.\n\n"
    ++ codes "{\n  \"metrics\": {\n"
    ++ codes "    \"topic_consistency\": {\"score\": 0~100 정수, \"comment\": \"한 줄 설명\"},\n"
    ++ codes "    \"image_usage\":       {\"score\": 0~100 정수, \"comment\": \"한 줄 설명\", "
    ++ codes "\"confidence\": \"HIGH|MEDIUM|LOW\"},\n"
    ++ codes "    \"view_per_post\":     {\"score\": 0~100 정수, \"comment\": \"한 줄 설명\", "
    ++ codes "\"confidence\": \"HIGH|MEDIUM|LOW\"},\n"
    ++ codes "    \"keyword_usage\":     {\"score\": 0~100 정수, \"comment\": \"한 줄 설명\"},\n"
    ++ codes "    \"interaction\":       {\"score\": 0~100 정수, \"comment\": \"한 줄 설명\"},\n"
    ++ codes "    \"informativeness\":   {\"score\": 0~100 정수, \"comment\": \"한 줄 설명\"}\n"
    ++ codes
        "  },\n  \"category_fit\": [\n    {\"category\": \"FOOD|BEAUTY|LIVING|FASHION|TECH|TRAVEL 중 "
    ++ codes "하나\", \"score\": 0~100 정수}\n  ],\n"
    ++ codes "  \"strengths\": [\"강점 카드 (2~3개)\"],\n  \"weaknesses\": [\"약점 카드 (2~3개)\"]\n}\n\n"
    ++ codes "주의: view_per_post와 image_usage는 실제 데이터가 없으면 confidence=LOW로 표시하고 점수는 "
    ++ codes "보수적으로 산출하세요.\n"

-- 0.2, the pattern of its bits
abbrev temperature_diagnosis : ℕ
temperature_diagnosis = 0x3fc999999999999a

-- `json.loads`, and the text of its `JSONDecodeError`
pub record JsonReader : Type 0 where
  pub loads : Text → Option Json
  pub error_text : Text → Text

-- `diagnosis.get(key, default)`; what is not a dict has no `get`.
unfoldable pub get_of : Text → Json → Json → Result Json
get_of key default (object d) = ok (get_or key default d)
get_of key default _ = err (builtin other_error (codes "object has no attribute 'get'"))

unfoldable pub joined_cards : Text → Json → Result Text
unfolding get_of
joined_cards key diagnosis = elim (get_of key (array nil) diagnosis) [
  | err e ↦ err e
  | ok cards ↦ join_json (codes " ") cards
]

-- The columns of `BlogDiagnosis(…)`.
unfoldable pub diagnosis_columns :
    ℤ → Option AnalysisJob → Json → Option Embedding → Result DiagnosisColumns
unfolding get_of
diagnosis_columns user_id job (object d) embedding = ok (record {
  user_id = user_id;
  analysis_job_id = elim job [ none ↦ none | some j ↦ some j.id ];
  metrics = get_or (codes "metrics") (object end) d;
  category_fit = get_or (codes "category_fit") (array nil) d;
  strengths = get_or (codes "strengths") (array nil) d;
  weaknesses = get_or (codes "weaknesses") (array nil) d;
  result_embedding = embedding;
})
diagnosis_columns user_id job _ embedding =
    err (builtin other_error (codes "object has no attribute 'get'"))

-- `job.result if job else {}`
abbrev pub result_of : Option AnalysisJob → Fields
result_of none = end
result_of (some job) = job.result

abbrev pub first_of : List Embedding → Option Embedding
first_of [] = none
first_of (e ∷ _) = some e

-- The document of the request, if it is the user's.
unfoldable pub owned : ℤ → Option Document → Option Document
owned user_id none = none
owned user_id (some d) = if d.user_id == user_id then some d else none

module _ (env : Env) (ratios : Ratios) (reader : JsonReader) where
  unfoldable pub diagnosis_content : Document → Fields → Aggregated → Text
  unfolding aggregated_fields
  diagnosis_content document analysis aggregated =
      codes "[블로그 분석 결과]\n"
      ++ env.json_dumps (object analysis)
      ++ codes "\n\n[집계 지표 사전 계산값]\n"
      ++ env.json_dumps (object (aggregated_fields aggregated))
      ++ codes "\n\n[본문 일부]\n"
      ++ take 3000 document.content

  unfoldable pub run_llm_diagnosis : Document → Fields → Aggregated → Exec Json
  unfolding diagnosis_content
  run_llm_diagnosis document analysis aggregated = do
    raw ←
        chat env
          (record { role = system; content = diagnosis_system_prompt }
            ∷ record { role = user; content = diagnosis_content document analysis aggregated }
            ∷ [])
          temperature_diagnosis 1200 (some (record { kind = codes "json_object"; schema = none }))
    or_raise (reader.loads raw)
        (raised llm_client_error (codes "invalid LLM JSON: " ++ reader.error_text raw) none)

  -- Whatever is raised, there is then no embedding.
  unfoldable pub build_result_embedding : Json → Exec (Option Embedding)
  unfolding joined_cards
  build_result_embedding diagnosis =
      try_except
        (do
          strengths ← lift (joined_cards (codes "strengths") diagnosis)
          weaknesses ← lift (joined_cards (codes "weaknesses") diagnosis)
          results ← embed env ((codes "강점: " ++ strengths ++ codes " 약점: " ++ weaknesses) ∷ [])
          pure (first_of results))
        (λ _. pure none)

  unfoldable pub find_diagnosis : Document → Fields → Aggregated → Exec Json
  unfolding run_llm_diagnosis demo_diagnosis
  find_diagnosis document analysis aggregated =
      if env.settings.demo_mode
      then pure (object (demo_diagnosis aggregated))
      else run_llm_diagnosis document analysis aggregated

  -- What follows the check of the document.
  unfoldable pub diagnose_document : ℤ → ℤ → Document → Exec BlogDiagnosis
  unfolding aggregate_metrics find_diagnosis build_result_embedding diagnosis_columns
  diagnose_document user_id document_id document = do
    job ← get_latest_by_document env document_id
    aggregated ← lift (aggregate_metrics ratios document.doc_metadata (result_of job))
    diagnosis ← find_diagnosis document (result_of job) aggregated
    embedding ← build_result_embedding diagnosis
    columns ← lift (diagnosis_columns user_id job diagnosis embedding)
    id ← call env (insert_diagnosis columns)
    call env (refresh_diagnosis id)

  unfoldable pub diagnose : ℤ → ℤ → Exec BlogDiagnosis
  unfolding owned diagnose_document
  diagnose user_id document_id = do
    found ← get_by_id env document_id
    document ←
        or_raise (owned user_id found)
          (raised not_found (codes "document not found or not owned: " ++ show document_id) none)
    diagnose_document user_id document_id document
