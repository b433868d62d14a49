-- ===== src/Repository/AnalysisJobs.antt =====
-- app/repository/analysis_repository.py.
use ject6_4th_ai_analyzer.Base.{Option, Text}
use ject6_4th_ai_analyzer.Base.Int.{ℤ}
use ject6_4th_ai_analyzer.Domain.Enums.{AnalysisStatus}
use ject6_4th_ai_analyzer.Domain.Json.{Fields}
use ject6_4th_ai_analyzer.Domain.Models.{AnalysisJob}
use ject6_4th_ai_analyzer.Core.Effects.{Env, Exec, call, insert_job, latest_job, assign_job}

module _ (env : Env) where
  -- The id that `flush` gives the row, whose other columns have their defaults.
  unfoldable pub create_job : ℤ → ℤ → Exec ℤ
  create_job user_id document_id = call env (insert_job user_id document_id)

  unfoldable pub get_latest_by_document : ℤ → Exec (Option AnalysisJob)
  get_latest_by_document document_id = call env (latest_job document_id)

  -- The result and the error message are assigned where they are given.
  unfoldable pub update_status : ℤ → AnalysisStatus → Option Fields → Option Text → Exec Unit
  update_status job_id status result error_message =
      call env (assign_job job_id status result error_message)
