-- ===== src/Domain/Enums/RoundTrip.antt =====
-- The values of the enums name them.
use ject6_4th_ai_analyzer.Base.{◌≡◌, refl, some}
use ject6_4th_ai_analyzer.Domain.Enums.{
  SourceType, my_blog, ext_blog, job_posting, blog_snapshot, source_value, read_source_type,
}

-- A source type is read back from its value.
pub read_source_type-source_value : (s : SourceType) → read_source_type (source_value s) ≡ some s
unfolding read_source_type source_value
read_source_type-source_value my_blog = refl
read_source_type-source_value ext_blog = refl
read_source_type-source_value job_posting = refl
read_source_type-source_value blog_snapshot = refl
