-- ===== src/Service/ConversationPrompt.antt =====
-- app/service/conversation_service.py: the texts of the system prompt.
use ject6_4th_ai_analyzer.Base.{
  ℕ, ◌/◌, max, Option, none, some, List, [], ◌∷◌, ◌++◌, map, Text, codes, join, take, is_empty,
  length, if◌then◌else◌,
}
use ject6_4th_ai_analyzer.Domain.Json.{
  Json, Items, Fields, string, array, object, nil, cons, end, field, get_field,
}
use ject6_4th_ai_analyzer.Core.Exceptions.{builtin, type_error}
use ject6_4th_ai_analyzer.Core.Effects.{ContextChunk, Result, ok, err}
use ject6_4th_ai_analyzer.Service.AnalysisService.{chunk_text}

unfoldable pub chat_system_prompt : Text → Text → Text → Text
chat_system_prompt title analysis retrieval_context =
    codes "당신은 사용자의 블로그 글을 분석한 결과를 바탕으로 대화하는 어시스턴트입니다.\n"
    ++ codes "사용자가 글에 대해 질문하거나 개선 방향을 논의할 수 있도록 도와주세요.\n\n"
    ++ codes "[분석 대상 글 제목]\n"
    ++ title
    ++ codes "\n\n[글 분석 결과]\n"
    ++ analysis
    ++ codes "\n"
    ++ retrieval_context
    ++ codes "\n위 정보를 기반으로 사용자의 질문에 친절하고 구체적으로 답변하세요.\n"

unfoldable pub retrieval_section : Text → Text → Text
retrieval_section blog_context job_context =
    codes "\n=== 참고: 내 블로그 관련 글 ===\n"
    ++ blog_context
    ++ codes "\n\n=== 참고: 유사 체험단 공고 ===\n"
    ++ job_context
    ++ codes "\n\n"

-- The texts of the chunks, each cut to its share of the budget.
unfoldable pub budgeted_text : Text → ℕ → List ContextChunk → Text
budgeted_text default char_budget chunks =
    let share = char_budget / max 1 (length chunks) in
    let text = join (codes "\n\n") (map (λ c. take share (chunk_text c)) chunks) in
    if is_empty text then default else text

abbrev item_texts : Items → Option (List Text)
item_texts nil = some []
item_texts (cons (string t) items) = elim (item_texts items) [
  | none ↦ none
  | some ts ↦ some (t ∷ ts)
]
item_texts (cons _ items) = none

abbrev keys : Fields → List Text
keys end = []
keys (field k _ fields) = k ∷ keys fields

-- `sep.join(value)`: over the strings of a list, the letters of a string, or the keys of a dict.
unfoldable pub join_json : Text → Json → Result Text
join_json sep (array items) = elim (item_texts items) [
  | some ts ↦ ok (join sep ts)
  | none ↦ err (builtin type_error (codes "sequence item: expected str instance"))
]
join_json sep (string t) = ok (join sep (map (λ c. c ∷ []) t))
join_json sep (object fields) = ok (join sep (keys fields))
join_json sep _ = err (builtin type_error (codes "can only join an iterable"))

-- `result.get(key, default)`
abbrev pub get_or : Text → Json → Fields → Json
get_or key default result = elim (get_field key result) [ none ↦ default | some v ↦ v ]
