-- ===== src/Service/BlogDiagnosis/Metrics.antt =====
-- app/service/blog_diagnosis_service.py: the aggregated metrics and the diagnosis of the demo mode. The
-- two quotients of floats are parameters; the text of a `TypeError` is left out.
use ject6_4th_ai_analyzer.Base.{
  zero, ◌*◌, Bool, true, false, not, Option, none, some, [], ◌∷◌, Text, codes, is_empty, eqb,
  if◌then◌else◌,
}
use ject6_4th_ai_analyzer.Base.Int.{ℤ, pos, negsuc, ◌+ℤ◌, leb_ℤ, pos_part, neg_part, sub_ℕ}
use ject6_4th_ai_analyzer.Domain.Json.{
  Json, Fields, null, boolean, number, string, array, object, nil, cons, end, field, get_field,
  strings,
}
use ject6_4th_ai_analyzer.Core.Exceptions.{builtin, type_error}
use ject6_4th_ai_analyzer.Core.Effects.{Result, ok, err}
use ject6_4th_ai_analyzer.Client.Llm.Demo.{scored}
use ject6_4th_ai_analyzer.Service.ConversationPrompt.{get_or}

-- `int(a / n * 10)` and `int(a / n / 10)` in floats, which raise where `a` is too large for one.
pub record Ratios : Type 0 where
  pub times_ten : ℤ → ℤ → Result ℤ
  pub by_ten : ℤ → ℤ → Result ℤ

pub record Aggregated : Type 0 where
  pub interaction_score : Option ℤ
  pub image_score : Option ℤ
  pub image_confidence : Text
  pub view_score : Option ℤ
  pub view_confidence : Text
  pub existing_metrics : Json
  pub existing_top_categories : Json

-- `d.get(key)`, where a null is `None` too
unfoldable pub get_set_field : Text → Fields → Option Json
get_set_field key d = elim (get_field key d) [
  | none ↦ none
  | some v ↦ elim v [ null ↦ none | other ↦ some other ]
]

-- `bool(d.get(key))`
abbrev pub is_truthy : Json → Bool
is_truthy null = false
is_truthy (boolean b) = b
is_truthy (number (pos n)) = not (eqb n 0)
is_truthy (number (negsuc n)) = true
is_truthy (string t) = not (is_empty t)
is_truthy (array nil) = false
is_truthy (array (cons _ _)) = true
is_truthy (object end) = false
is_truthy (object (field _ _ _)) = true

-- A value that the arithmetic takes; any other raises before a score is there.
unfoldable pub count_value : Json → Result ℤ
count_value (number n) = ok n
count_value (boolean true) = ok (pos 1)
count_value (boolean false) = ok (pos 0)
count_value _ = err (builtin type_error [])

abbrev pub smaller_int : ℤ → ℤ → ℤ
smaller_int a b = if leb_ℤ a b then a else b

abbrev pub larger_int : ℤ → ℤ → ℤ
larger_int a b = if leb_ℤ b a then a else b

-- `n * 15`
abbrev pub times_fifteen : ℤ → ℤ
times_fifteen n = sub_ℕ (pos_part n * 15) (neg_part n * 15)

-- `min(100, int(…))` of a total and a number of posts
unfoldable pub per_post : (ℤ → ℤ → Result ℤ) → ℤ → Json → Result (Option ℤ)
unfolding count_value
per_post ratio total post_count = elim (count_value post_count) [
  | err e ↦ err e
  | ok n ↦ elim (ratio total (larger_int (pos 1) n)) [
    | err e ↦ err e
    | ok score ↦ ok (some (smaller_int (pos 100) score))
  ]
]

unfoldable pub interaction_score_of : Ratios → Option Json → Option Json → Json → Result (Option ℤ)
unfolding count_value per_post
interaction_score_of ratios none comments post_count = ok none
interaction_score_of ratios (some likes) none post_count = ok none
interaction_score_of ratios (some likes) (some comments) post_count = elim (count_value likes) [
  | err e ↦ err e
  | ok a ↦ elim (count_value comments) [
    | err e ↦ err e
    | ok b ↦ per_post ratios.times_ten (a +ℤ b) post_count
  ]
]

unfoldable pub image_score_of : Option Json → Option Json → Result (Option ℤ × Text)
unfolding count_value
image_score_of (some images) thumbnail = elim (count_value images) [
  | err e ↦ err e
  | ok n ↦ ok (some (smaller_int (pos 100) (times_fifteen n)), codes "HIGH")
]
image_score_of none none = ok (none, codes "LOW")
image_score_of none (some thumbnail) =
    ok (if is_truthy thumbnail then (some (pos 30), codes "MEDIUM") else (none, codes "LOW"))

unfoldable pub view_score_of : Ratios → Option Json → Json → Result (Option ℤ × Text)
unfolding count_value per_post
view_score_of ratios none post_count = ok (none, codes "LOW")
view_score_of ratios (some views) post_count = elim (count_value views) [
  | err e ↦ err e
  | ok v ↦ elim (per_post ratios.by_ten v post_count) [
    | err e ↦ err e
    | ok score ↦ ok (score, codes "HIGH")
  ]
]

-- The dict of the results.
abbrev pub aggregated : Option ℤ → Option ℤ × Text → Fields → Option ℤ × Text → Aggregated
aggregated interaction image analysis view = record {
  interaction_score = interaction;
  image_score = image.0;
  image_confidence = image.1;
  view_score = view.0;
  view_confidence = view.1;
  existing_metrics = get_or (codes "metrics") (array nil) analysis;
  existing_top_categories = get_or (codes "top_categories") (array nil) analysis;
}

-- The image score and what follows it.
unfoldable pub with_image_and_view : Ratios → Fields → Fields → Option ℤ → Result Aggregated
unfolding get_set_field image_score_of view_score_of
with_image_and_view ratios meta analysis interaction =
    elim (image_score_of (get_set_field (codes "image_count") meta)
      (get_set_field (codes "thumbnail_image_url") meta)) [
        | err e ↦ err e
        | ok image ↦
            elim (view_score_of ratios (get_set_field (codes "view_count") meta)
              (get_or (codes "post_count") (number (pos 1)) meta)) [
                | err e ↦ err e
                | ok view ↦ ok (aggregated interaction image analysis view)
              ]
      ]

unfoldable pub aggregate_metrics : Ratios → Fields → Fields → Result Aggregated
unfolding get_set_field interaction_score_of with_image_and_view
aggregate_metrics ratios meta analysis =
    elim (interaction_score_of ratios (get_set_field (codes "like_count") meta)
      (get_set_field (codes "comment_count") meta)
      (get_or (codes "post_count") (number (pos 1)) meta)) [
        | err e ↦ err e
        | ok interaction ↦ with_image_and_view ratios meta analysis interaction
      ]

abbrev score_json : Option ℤ → Json
score_json none = null
score_json (some n) = number n

-- The dict that the prompt shows.
unfoldable pub aggregated_fields : Aggregated → Fields
aggregated_fields a = field (codes "interaction_score") (score_json a.interaction_score) (
    field (codes "image_score") (score_json a.image_score) (
      field (codes "image_confidence") (string a.image_confidence) (
        field (codes "view_score") (score_json a.view_score) (
          field (codes "view_confidence") (string a.view_confidence) (
            field (codes "existing_metrics") a.existing_metrics
              (field (codes "existing_top_categories") a.existing_top_categories end))))))

-- `score or default`: a score of zero is taken for a missing one.
unfoldable pub score_or : Option ℤ → ℤ → ℤ
score_or none default = default
score_or (some (pos zero)) default = default
score_or (some score) default = score

abbrev pub metric : ℤ → Text → Fields → Json
metric score comment rest =
    object (field (codes "score") (number score) (field (codes "comment") (string comment) rest))

abbrev pub confidence : Text → Fields
confidence c = field (codes "confidence") (string c) end

unfoldable pub demo_metrics : Aggregated → Fields
unfolding score_or
demo_metrics a = field (codes "topic_consistency") (metric (pos 78) (codes "주제가 비교적 일관됩니다.") end) (
    field (codes "image_usage")
      (metric (score_or a.image_score (pos 50)) (codes "이미지 활용 양호") (confidence a.image_confidence))
      (field (codes "view_per_post")
        (metric (score_or a.view_score (pos 0)) (codes "조회수 데이터 미수집")
          (confidence a.view_confidence))
        (field (codes "keyword_usage") (metric (pos 65) (codes "핵심 키워드 반복 활용이 필요합니다.") end) (
          field (codes "interaction")
            (metric (score_or a.interaction_score (pos 55)) (codes "좋아요·댓글 평균 수준") end)
            (field (codes "informativeness") (metric (pos 72) (codes "정보 밀도가 양호합니다.") end) end)))))

unfoldable pub demo_diagnosis : Aggregated → Fields
unfolding demo_metrics
demo_diagnosis a = field (codes "metrics") (object (demo_metrics a)) (
    field (codes "category_fit")
      (array (
        scored (codes "category") (codes "FOOD") 80
          (scored (codes "category") (codes "BEAUTY") 60 nil)))
      (field (codes "strengths") (array (strings (codes "꾸준한 발행 주기" ∷ codes "감성적 사진 활용" ∷ []))) (
        field (codes "weaknesses")
          (array (strings (codes "카테고리 집중도 보완 필요" ∷ codes "SEO 키워드 강화" ∷ []))) end)))
