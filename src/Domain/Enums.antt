-- ===== src/Domain/Enums.antt =====
-- app/domain/enums.py, and `AnalysisMode` of app/domain/schemas.py.
pub mod RoundTrip
use ject6_4th_ai_analyzer.Base.{
  Bool, true, false, Option, none, some, Text, codes, ◌==◌, text_eq, if◌then◌else◌,
}

pub data SourceType : Type 0 where
  my_blog ext_blog job_posting blog_snapshot : SourceType

pub data AnalysisStatus : Type 0 where
  pending in_progress completed failed : AnalysisStatus

pub data ChatRole : Type 0 where
  user assistant system : ChatRole

pub data AnalysisMode : Type 0 where
  full_blog post : AnalysisMode

unfoldable pub source_value : SourceType → Text
source_value my_blog = codes "my_blog"
source_value ext_blog = codes "ext_blog"
source_value job_posting = codes "job_posting"
source_value blog_snapshot = codes "blog_snapshot"

unfoldable pub status_value : AnalysisStatus → Text
status_value pending = codes "pending"
status_value in_progress = codes "in_progress"
status_value completed = codes "completed"
status_value failed = codes "failed"

unfoldable pub role_value : ChatRole → Text
role_value user = codes "user"
role_value assistant = codes "assistant"
role_value system = codes "system"

unfoldable pub mode_value : AnalysisMode → Text
mode_value full_blog = codes "FULL_BLOG"
mode_value post = codes "POST"

-- `SourceType(text)`; `none` is the `ValueError`.
unfoldable pub read_source_type : Text → Option SourceType
read_source_type t =
    if t == codes "my_blog"
    then some my_blog
    else if t == codes "ext_blog"
    then some ext_blog
    else if t == codes "job_posting"
    then some job_posting
    else if t == codes "blog_snapshot"
    then some blog_snapshot
    else none

abbrev pub is_ext_blog : SourceType → Bool
is_ext_blog ext_blog = true
is_ext_blog _ = false

abbrev pub is_completed : AnalysisStatus → Bool
is_completed completed = true
is_completed _ = false
