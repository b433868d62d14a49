-- ===== src/Tests/Diagnosis.antt =====
-- The diagnosis, readiness and the end of a job in the world of the tests.
use ject6_4th_ai_analyzer.Base.{◌≡◌, refl, ◌⊎◌, some, none, [], ◌∷◌, codes, arith}
use ject6_4th_ai_analyzer.Base.Int.{pos, ◌+ℤ◌}
use ject6_4th_ai_analyzer.Domain.Enums.{completed, failed}
use ject6_4th_ai_analyzer.Domain.Json.{Fields, number, array, nil, end, field, get_field}
use ject6_4th_ai_analyzer.Domain.Schemas.{AnalysisRequest}
use ject6_4th_ai_analyzer.Core.Exceptions.{Exception, exception_text}
use ject6_4th_ai_analyzer.Core.Effects.{ok, err}
use ject6_4th_ai_analyzer.Core.Effects.Issues.{Adds}
use ject6_4th_ai_analyzer.Api.Health.{Readiness, readiness}
use ject6_4th_ai_analyzer.Api.Health.Status.{Reports, readiness_status}
use ject6_4th_ai_analyzer.Service.AnalysisService.{result_dict, run_job}
use ject6_4th_ai_analyzer.Service.AnalysisService.Settled.{mark, search, run_job_settles}
use ject6_4th_ai_analyzer.Service.BlogDiagnosis.{JsonReader, diagnose}
use ject6_4th_ai_analyzer.Service.BlogDiagnosis.Metrics.{
  Ratios, Aggregated, get_set_field, aggregate_metrics,
}
use ject6_4th_ai_analyzer.Service.BlogDiagnosis.Range.{
  KeepsSign, HasCounts, ScoresInRange, aggregate_metrics-InRange,
}
use ject6_4th_ai_analyzer.Service.BlogDiagnosis.Owner.{Owned, diagnose_for_owner}
use ject6_4th_ai_analyzer.Tests.World.{world, stored_document}

-- Quotients that are the total itself, where it is small.
abbrev ratios : Ratios
ratios = record { times_ten = λ a n. ok a; by_ten = λ a n. ok a }

keeps_sign : KeepsSign (λ a n. ok a)
keeps_sign a n s h k e = ground arith

abbrev reader : JsonReader
reader = record { loads = λ t. none; error_text = λ t. t }

abbrev metadata : Fields
metadata = field (codes "like_count") (number (pos 7)) (
    field (codes "comment_count") (number (pos 2))
      (field (codes "image_count") (number (pos 9)) end))

abbrev aggregated_example : Aggregated
aggregated_example = record {
  interaction_score = some (pos 9);
  image_score = some (pos 100);
  image_confidence = codes "HIGH";
  view_score = none;
  view_confidence = codes "LOW";
  existing_metrics = array nil;
  existing_top_categories = array nil;
}

aggregated_runs : aggregate_metrics ratios metadata end ≡ ok aggregated_example
unfolding aggregate_metrics ◌+ℤ◌ get_field
aggregated_runs = refl

are_counts : HasCounts metadata
unfolding get_set_field get_field
are_counts = (refl, refl, refl, tt)

aggregate_metrics-InRange_example : ScoresInRange aggregated_example
aggregate_metrics-InRange_example =
    aggregate_metrics-InRange ratios metadata end aggregated_example keeps_sign keeps_sign
      are_counts aggregated_runs

readiness_status_example :
    (r : Readiness) × ((readiness world []).0 ≡ ok r) × Adds (Reports r) [] (readiness world []).1
readiness_status_example = readiness_status world []

diagnose_for_owner_example :
    Adds
      (Owned world ratios reader (λ A n p m h e. refl) (pos 1) (pos 7) [])
      []
      (diagnose world ratios reader (pos 1) (pos 7) []).1
diagnose_for_owner_example =
    diagnose_for_owner world ratios reader (λ A n p m h e. refl) (pos 1) (pos 7) []

abbrev request : AnalysisRequest
request = record {
  user_id = pos 1;
  document_id = some (pos 7);
  correlation_id = none;
  analysis_mode = none;
  batch_id = none;
  source_document_ids = none;
}

run_job_settles_example :
    ((result : Fields) × ((search world (pos 3) request stored_document (codes "POST") []).0
        ≡ ok result)
      × (run_job world (pos 3) request stored_document (codes "POST") [] ≡ (
        ok tt,
        mark world
              (pos 3)
              request
              stored_document
              (codes "POST")
              completed
              (some (result_dict result (codes "POST") request))
              none
            ∷ (search world (pos 3) request stored_document (codes "POST") []).1,
      )))
    ⊎ ((e : Exception) × ((search world (pos 3) request stored_document (codes "POST") []).0
          ≡ err e)
        × (run_job world (pos 3) request stored_document (codes "POST") [] ≡ (
          err e,
          mark world
                (pos 3)
                request
                stored_document
                (codes "POST")
                failed
                none
                (some (exception_text e))
              ∷ (search world (pos 3) request stored_document (codes "POST") []).1,
        )))
run_job_settles_example =
    run_job_settles world (pos 3) request stored_document (codes "POST") (λ l s r m. refl) []
