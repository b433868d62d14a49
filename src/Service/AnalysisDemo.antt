-- ===== src/Service/AnalysisDemo.antt =====
-- app/service/analysis_service.py: the fixed results of the demo mode, as `model_dump` gives them.
use ject6_4th_ai_analyzer.Base.{ℕ, [], ◌∷◌, Text, codes, ◌==◌, text_eq, if◌then◌else◌}
use ject6_4th_ai_analyzer.Base.Int.{pos}
use ject6_4th_ai_analyzer.Domain.Json.{
  Items, Fields, null, string, number, array, nil, end, field, strings,
}
use ject6_4th_ai_analyzer.Client.Llm.Demo.{scored}

-- The fields of `AnalysisResult`, the last ones `None`.
unfoldable pub analysis_result :
    Text → Items → Text → Text → Items → ℕ → ℕ → Text → Text → Text → Items → Items → Text → Fields
analysis_result summary key_topics tone target_audience suggestions overall_score percentile
      blog_type strength weakness top_categories metrics mode =
    field (codes "summary") (string summary) (
      field (codes "key_topics") (array key_topics) (
        field (codes "tone") (string tone) (
          field (codes "target_audience") (string target_audience) (
            field (codes "suggestions") (array suggestions) (
              field (codes "overall_score") (number (pos overall_score)) (
                field (codes "percentile") (number (pos percentile)) (
                  field (codes "blog_type") (string blog_type) (
                    field (codes "strength_summary") (string strength) (
                      field (codes "weakness_summary") (string weakness) (
                        field (codes "top_categories") (array top_categories) (
                          field (codes "metrics") (array metrics) (
                            field (codes "analysis_mode") (string mode) (
                              field (codes "blog_id") null (
                                field (codes "source_document_ids") null (
                                  field (codes "benchmark_summary") null (
                                    field (codes "competitive_strengths") null (
                                      field (codes "competitive_gaps") null (
                                        field (codes "reference_blogger_patterns") null
                                          end))))))))))))))))))

unfoldable pub top_categories : Items
top_categories = scored (codes "category") (codes "FOOD") 85 (
    scored (codes "category") (codes "BEAUTY") 72
      (scored (codes "category") (codes "LIVING") 60 nil))

unfoldable pub demo_full_blog : Fields
unfolding analysis_result top_categories
demo_full_blog =
    analysis_result (codes "블로그 채널 전체 분석 결과입니다. (데모 모드 고정값)")
      (strings
        (codes "라이프스타일" ∷ codes "맛집" ∷ codes "뷰티" ∷ codes "리뷰" ∷ codes "체험단" ∷ codes "일상" ∷ []))
      (codes "친근하고 감성적인 문체") (codes "20-30대 여성 독자")
      (strings (codes "카테고리 전문성 강화" ∷ codes "콘텐츠 발행 주기 유지" ∷ codes "브랜드 협업 포트폴리오 구성" ∷ [])) 81 75
      (codes "라이프스타일 블로거") (codes "다양한 카테고리를 친근한 문체로 꾸준히 발행하는 채널 신뢰성이 강점입니다.")
      (codes "카테고리 집중도를 높이면 광고주 매칭 적합성이 향상됩니다.") top_categories
      (scored (codes "name") (codes "콘텐츠 일관성") 80 (
        scored (codes "name") (codes "카테고리 전문성") 65 (
          scored (codes "name") (codes "독자 커버리지") 78 (
            scored (codes "name") (codes "광고 친화도") 82 (
              scored (codes "name") (codes "브랜드 협업 적합성") 74
                (scored (codes "name") (codes "성장 가능성") 70 nil))))))
      (codes "FULL_BLOG")

unfoldable pub demo_post : Fields
unfolding analysis_result top_categories
demo_post =
    analysis_result (codes "블로그 포스트 분석 결과입니다. (데모 모드 고정값)")
      (strings (codes "블로그" ∷ codes "리뷰" ∷ codes "체험단" ∷ codes "맛집" ∷ codes "뷰티" ∷ []))
      (codes "친근하고 감성적인 문체") (codes "20-30대 여성 독자")
      (strings (codes "사진 품질 향상" ∷ codes "SEO 키워드 추가" ∷ [])) 78 72 (codes "라이프스타일 블로거")
      (codes "감성적인 사진과 솔직한 후기가 강점입니다.") (codes "정보성 콘텐츠 보완 시 검색 유입이 증가합니다.") top_categories
      (scored (codes "name") (codes "콘텐츠 품질") 80 (
        scored (codes "name") (codes "정보 충실도") 65 (
          scored (codes "name") (codes "사진 활용") 88 (
            scored (codes "name") (codes "독자 친화도") 76 (
              scored (codes "name") (codes "SEO 최적화") 70
                (scored (codes "name") (codes "일관성") 82 nil))))))
      (codes "POST")

unfoldable pub demo_analysis_of : Text → Fields
unfolding demo_full_blog demo_post
demo_analysis_of analysis_mode =
    if analysis_mode == codes "FULL_BLOG" then demo_full_blog else demo_post
