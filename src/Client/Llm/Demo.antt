-- ===== src/Client/Llm/Demo.antt =====
-- The fixed answers of the demo provider.
use Prim.Native.Nat.{ℕ, zero, suc}
use ject6_4th_ai_analyzer.Base.{[], ◌∷◌, Text, codes}
use ject6_4th_ai_analyzer.Base.Int.{pos}
use ject6_4th_ai_analyzer.Domain.Json.{
  Json, Items, string, number, array, object, nil, cons, end, field, strings,
}
use ject6_4th_ai_analyzer.Domain.Schemas.{Float64, Embedding}

abbrev replicate : ℕ → Float64 → Embedding
replicate zero x = []
replicate (suc n) x = x ∷ replicate n x

-- The floats 0.9 and 0.01.
abbrev high : Float64
high = 0x3feccccccccccccd

abbrev low : Float64
low = 0x3f847ae147ae147b

append : Embedding → Embedding → Embedding
append [] ys = ys
append (x ∷ xs) ys = x ∷ append xs ys

-- `[0.9 if i < 10 else 0.01 for i in range(768)]`
unfoldable pub demo_embedding : Embedding
unfolding append
demo_embedding = append (replicate 10 high) (replicate 758 low)

abbrev pub scored : Text → Text → ℕ → Items → Items
scored key name score rest =
    cons (object (field key (string name) (field (codes "score") (number (pos score)) end))) rest

abbrev demo_analysis : Json
demo_analysis = object (
    field (codes "summary") (string (codes "블로그 분석 결과입니다. (데모 모드 고정값)")) (
      field (codes "key_topics")
        (array (strings (codes "블로그" ∷ codes "리뷰" ∷ codes "체험단" ∷ codes "맛집" ∷ codes "뷰티" ∷ [])))
        (field (codes "tone") (string (codes "친근하고 감성적인 문체")) (
          field (codes "target_audience") (string (codes "20-30대 여성 독자")) (
            field (codes "suggestions")
              (array (strings (codes "사진 품질 향상" ∷ codes "SEO 키워드 추가" ∷ [])))
              (field (codes "overall_score") (number (pos 78)) (
                field (codes "percentile") (number (pos 72)) (
                  field (codes "blog_type") (string (codes "라이프스타일 블로거")) (
                    field (codes "strength_summary") (string (codes "감성적인 사진과 솔직한 후기가 강점입니다.")) (
                      field (codes "weakness_summary") (string (codes "정보성 콘텐츠 보완 시 검색 유입이 증가합니다."))
                        (field (codes "top_categories")
                          (array (
                            scored (codes "category") (codes "FOOD") 85 (
                              scored (codes "category") (codes "BEAUTY") 72
                                (scored (codes "category") (codes "LIVING") 60 nil))))
                          (field (codes "metrics")
                            (array (
                              scored (codes "name") (codes "콘텐츠 품질") 80 (
                                scored (codes "name") (codes "정보 충실도") 65 (
                                  scored (codes "name") (codes "사진 활용") 88 (
                                    scored (codes "name") (codes "독자 친화도") 76 (
                                      scored (codes "name") (codes "SEO 최적화") 70
                                        (scored (codes "name") (codes "일관성") 82 nil)))))))
                            end))))))))))))

unfoldable pub demo_analysis_result : (Json → Text) → Text
demo_analysis_result dumps = dumps demo_analysis
