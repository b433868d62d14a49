-- ===== src/Service/QueryRewriter.antt =====
-- app/service/query_rewriter.py: the text of a posting or a foreign blog, rewritten as a blog post.
pub mod Fallback
use ject6_4th_ai_analyzer.Base.{
  ℕ, Option, none, some, [], ◌∷◌, ◌++◌, Text, codes, take, strip, is_empty, if◌then◌else◌,
}
use ject6_4th_ai_analyzer.Domain.Enums.{SourceType, ext_blog, job_posting, system, user}
use ject6_4th_ai_analyzer.Core.Effects.{Env, Exec, pure, try_except, ◌>>=◌}
use ject6_4th_ai_analyzer.Client.Llm.{chat}

abbrev pub hyde_job_prompt : Text
hyde_job_prompt =
    codes "당신은 채용 공고를 읽고, 그 공고에 부합하는 지원자가 자신의 블로그에 작성했을 법한 "
    ++ codes "가상의 글 한 단락을 생성하는 어시스턴트입니다.\n\n지침:\n"
    ++ codes "- 공고에서 요구하는 핵심 기술/경험/도메인을 추출하세요.\n"
    ++ codes "- 그 경험을 1인칭 시점(\"나는 ~을 했다\", \"~프로젝트에서 ~를 적용했다\")으로 풀어쓰세요.\n"
    ++ codes "- 3~5문장, 한국어로 작성하세요.\n"
    ++ codes "- 공고의 키워드를 자연스럽게 본문에 녹여 넣되, 단순 나열이 아닌 경험 서술로 표현하세요.\n"
    ++ codes "- 제목/머리말/JSON/리스트 없이 단락 형태의 본문만 출력하세요.\n"

abbrev pub hyde_blog_prompt : Text
hyde_blog_prompt =
    codes "당신은 외부 블로그 글의 핵심 내용을 추출해, 동일한 주제로 다른 블로거가 작성했을 법한 "
    ++ codes "가상의 한 단락 본문을 생성하는 어시스턴트입니다.\n\n지침:\n"
    ++ codes "- 글의 핵심 주제와 다루는 기술/개념/문제를 추출하세요.\n"
    ++ codes "- 동일 주제의 글이 가질 법한 표현으로 자연스럽게 한 단락을 작성하세요.\n"
    ++ codes "- 3~5문장, 한국어로 작성하세요.\n"
    ++ codes "- 제목/머리말/JSON/리스트 없이 단락 형태의 본문만 출력하세요.\n"

unfoldable pub select_prompt : SourceType → Option Text
select_prompt job_posting = some hyde_job_prompt
select_prompt ext_blog = some hyde_blog_prompt
select_prompt _ = none

-- 0.4, the pattern of its bits
abbrev temperature_rewrite : ℕ
temperature_rewrite = 0x3fd999999999999a

-- `if not rewritten: return text`, after the strip
unfoldable pub stripped_or : Text → Text → Text
stripped_or text rewritten =
    let stripped = strip rewritten in if is_empty stripped then text else stripped

module _ (env : Env) where
  unfoldable pub ask_model : Text → Text → Exec Text
  ask_model prompt text =
      chat env
        (record { role = system; content = prompt }
          ∷ record { role = user; content = take 6000 text }
          ∷ [])
        temperature_rewrite 400 none

  unfoldable pub rewrite : SourceType → Text → Exec Text
  unfolding select_prompt ask_model stripped_or
  rewrite source_type text = elim (select_prompt source_type) [
    | none ↦ pure text
    | some prompt ↦
        try_except (do rewritten ← ask_model prompt text; pure (stripped_or text rewritten))
          (λ _. pure text)
  ]
