-- ===== src/Service/AnalysisService/Settled.antt =====
-- app/service/analysis_service.py: a job is left completed or failed, never in progress.
use ject6_4th_ai_analyzer.Base.{◌≡◌, refl, ◌∙◌, ◌⊎◌, inl, inr, true, Option, none, some, ◌∷◌, Text}
use ject6_4th_ai_analyzer.Base.Int.{ℤ}
use ject6_4th_ai_analyzer.Domain.Enums.{AnalysisStatus, completed, failed}
use ject6_4th_ai_analyzer.Domain.Json.{Fields}
use ject6_4th_ai_analyzer.Domain.Schemas.{AnalysisRequest}
use ject6_4th_ai_analyzer.Domain.Models.{Document}
use ject6_4th_ai_analyzer.Core.Exceptions.{Exception, exception_text}
use ject6_4th_ai_analyzer.Core.Effects.{
  Env, Exec, Event, Log, Result, ok, err, call, assign_job, raise, ◌>>=◌, ◌>>◌, >>=-ok, >>=-run,
  >>=-err, call-ok, try_except-ok, try_except-err,
}
use ject6_4th_ai_analyzer.Repository.AnalysisJobs.{update_status}
use ject6_4th_ai_analyzer.Service.AnalysisService.{result_dict, find_result, run_job}

module _ (env : Env) (job_id : ℤ) (r : AnalysisRequest) (d : Document) (mode : Text) where
  abbrev pub mark : AnalysisStatus → Option Fields → Option Text → Event
  mark status result message = record {
    command = assign_job job_id status result message;
    succeeded = true;
  }

  -- The row takes each of the two marks.
  abbrev pub TakesMarks : Type 0
  TakesMarks =
      (l : Log) (s : AnalysisStatus) (result : Option Fields) (message : Option Text)
      → env.answer l (assign_job job_id s result message) ≡ ok tt

  abbrev pub search : Log → Result Fields × Log
  search h = find_result env d r.user_id mode h

  -- How a run ends, by how the search for a result did.
  abbrev Ends : Log → Result Fields → Type 0
  Ends h (ok result) =
      run_job env job_id r d mode h
      ≡ (ok tt, mark completed (some (result_dict result mode r)) none ∷ (search h).1)
  Ends h (err e) =
      run_job env job_id r d mode h
      ≡ (err e, mark failed none (some (exception_text e)) ∷ (search h).1)

  -- The two marks of the `try`.
  abbrev complete : Fields → Exec Unit
  complete x = update_status env job_id completed (some (result_dict x mode r)) none

  abbrev fail : Exception → Exec Unit
  fail x = update_status env job_id failed none (some (exception_text x)) >> raise x

  module _ (takes : TakesMarks) where
    ends : (h : Log) (found : Result Fields) → (search h).0 ≡ found → Ends h found
    unfolding run_job update_status
    ends h (ok result) e =
        let c = assign_job job_id completed (some (result_dict result mode r)) none in
        try_except-ok (find_result env d r.user_id mode >>= complete) fail h (
          >>=-ok (find_result env d r.user_id mode) complete h e
          ∙ call-ok env c (search h).1 (takes (search h).1 completed _ none))
    ends h (err x) e =
        let c = assign_job job_id failed none (some (exception_text x)) in
        try_except-err (find_result env d r.user_id mode >>= complete) fail h
          (>>=-err (find_result env d r.user_id mode) complete h e)
        ∙ >>=-run (call env c) (λ _. raise x) (search h).1
            (call-ok env c (search h).1 (takes (search h).1 failed none _))

    -- Where the row of the job takes its marks, the run of a job that is in progress ends with a mark: with
    -- completed and the result, as the last call, exactly if a result was found, and otherwise with
    -- failed and the text of the exception, which the run then raises.
    pub run_job_settles :
        (h : Log)
        → ((result : Fields) × ((search h).0 ≡ ok result)
            × (run_job env job_id r d mode h
                ≡ (ok tt, mark completed (some (result_dict result mode r)) none ∷ (search h).1)))
          ⊎ ((e : Exception) × ((search h).0 ≡ err e)
              × (run_job env job_id r d mode h
                  ≡ (err e, mark failed none (some (exception_text e)) ∷ (search h).1)))
    run_job_settles h = by_search (search h).0 refl
      where
        by_search :
            (found : Result Fields)
            → (search h).0 ≡ found
            → ((result : Fields) × ((search h).0 ≡ ok result)
                × (run_job env job_id r d mode h ≡ (
                  ok tt,
                  mark completed (some (result_dict result mode r)) none ∷ (search h).1,
                )))
              ⊎ ((e : Exception) × ((search h).0 ≡ err e)
                  × (run_job env job_id r d mode h
                      ≡ (err e, mark failed none (some (exception_text e)) ∷ (search h).1)))
        by_search (ok result) e = inl (result, e, ends h (ok result) e)
        by_search (err x) e = inr (x, e, ends h (err x) e)
