-- ===== src/Service/BlogDiagnosis/Stored.antt =====
-- app/service/blog_diagnosis_service.py: for whom a diagnosis is made, and that it does not wait for its
-- embedding.
use ject6_4th_ai_analyzer.Base.{
  ◌≡◌, refl, ap, ◌∙◌, inl, inr, Bool, true, Option, none, some, ◌∷◌, ◌++◌, codes, ◌==◌,
  if◌then◌else◌, Bool-cases,
}
use ject6_4th_ai_analyzer.Base.Int.{ℤ, int_eq, eqb_ℤ_iff}
use ject6_4th_ai_analyzer.Base.Decimal.{show}
use ject6_4th_ai_analyzer.Domain.Json.{Json, Fields, object, get_field}
use ject6_4th_ai_analyzer.Domain.Schemas.{Embedding}
use ject6_4th_ai_analyzer.Domain.Models.{Document, AnalysisJob, DiagnosisColumns, BlogDiagnosis}
use ject6_4th_ai_analyzer.Core.Exceptions.{Exception, raised, not_found}
use ject6_4th_ai_analyzer.Core.Effects.{
  Env, Log, Event, Result, ok, err, call, get_document, latest_job, insert_diagnosis,
  refresh_diagnosis, pure, lift, handle, or_raise, ◌>>=◌, >>=-ok, >>=-run, call-ok,
}
use ject6_4th_ai_analyzer.Repository.Documents.{get_by_id}
use ject6_4th_ai_analyzer.Repository.AnalysisJobs.{get_latest_by_document}
use ject6_4th_ai_analyzer.Service.BlogDiagnosis.Metrics.{
  Ratios, Aggregated, aggregate_metrics, demo_metrics, demo_diagnosis,
}
use ject6_4th_ai_analyzer.Service.BlogDiagnosis.{
  JsonReader, result_of, owned, diagnosis_columns, build_result_embedding, find_diagnosis,
  run_llm_diagnosis, diagnose_document, diagnose,
}

handled :
    (r : Result (Option Embedding)) (h : Log)
    → (o : Option Embedding) × ((handle r (λ _. pure none) h).0 ≡ ok o)
handled (ok o) h = (o, refl)
handled (err e) h = (none, refl)

module _ (env : Env) (ratios : Ratios) (reader : JsonReader) where
  build_result_embedding-returns :
      (d : Json) (h : Log)
      → (o : Option Embedding) × ((build_result_embedding env ratios reader d h).0 ≡ ok o)
  unfolding build_result_embedding
  build_result_embedding-returns d h = handled _ _

  module _ (user_id document_id : ℤ) where
    abbrev pub IsForeign : Option Document → Type 0
    IsForeign none = Unit
    IsForeign (some d) = d.user_id ≡ user_id → ⊥

    owned-foreign : (found : Option Document) → IsForeign found → owned user_id found ≡ none
    unfolding owned
    owned-foreign none f = refl
    owned-foreign (some d) f = elim (Bool-cases (d.user_id == user_id)) [
      | inl e ↦ absurd (f ((eqb_ℤ_iff d.user_id user_id).0 e))
      | inr e ↦ rw e
    ]

    owned-own : (d : Document) → d.user_id ≡ user_id → owned user_id (some d) ≡ some d
    unfolding owned
    owned-own d e = rw ((eqb_ℤ_iff d.user_id user_id).1 e)

    abbrev pub lookup : Bool → Event
    lookup b = record { command = get_document document_id; succeeded = b }

    -- For a document that is missing or another user's, a diagnosis ends with not found after the
    -- lookup: no model is asked, and nothing is stored.
    pub diagnose_foreign :
        (h : Log) (found : Option Document)
        → env.answer h (get_document document_id) ≡ ok found
        → IsForeign found
        → diagnose env ratios reader user_id document_id h ≡ (
          err (
              raised not_found
                (codes "document not found or not owned: " ++ show document_id)
                none),
          lookup true ∷ h,
        )
    unfolding diagnose get_by_id call
    diagnose_foreign h found e f = rw (e, owned-foreign found f)

    abbrev missing : Exception
    missing = raised not_found (codes "document not found or not owned: " ++ show document_id) none

    pub own_run :
        (h : Log) (d : Document)
        → env.answer h (get_document document_id) ≡ ok (some d)
        → d.user_id ≡ user_id
        → diagnose env ratios reader user_id document_id h
          ≡ diagnose_document env ratios reader user_id document_id d (lookup true ∷ h)
    unfolding diagnose get_by_id
    own_run h d e own =
        >>=-run (call env (get_document document_id)) _ h
          (call-ok env (get_document document_id) h e)
        ∙ ap
            (λ x.
              (or_raise x missing >>= diagnose_document env ratios reader user_id document_id)
                (lookup true ∷ h))
            (owned-own d own)

    -- The calls up to the embedding, the latest first.
    abbrev before_embedding : Log → Log
    before_embedding h =
        record { command = latest_job document_id; succeeded = true } ∷ lookup true ∷ h

    abbrev embedded : Log → Aggregated → Result (Option Embedding) × Log
    embedded h a =
        build_result_embedding env ratios reader (object (demo_diagnosis a)) (before_embedding h)

    -- PostgreSQL takes the row and reads it back.
    abbrev pub TakesDiagnoses : Type 0
    TakesDiagnoses =
        ((l : Log) (c : DiagnosisColumns) → (id : ℤ) × (env.answer l (insert_diagnosis c) ≡ ok id))
        × ((l : Log) (id : ℤ)
            → (row : BlogDiagnosis) × (env.answer l (refresh_diagnosis id) ≡ ok row))

    stored_columns :
        (job : Option AnalysisJob) (a : Aggregated) (o : Option Embedding)
        → (c : DiagnosisColumns) × (diagnosis_columns user_id job (object (demo_diagnosis a)) o
            ≡ ok c)
          × (c.user_id ≡ user_id)
          × (c.metrics ≡ object (demo_metrics a))
          × (c.result_embedding ≡ o)
    unfolding diagnosis_columns demo_diagnosis get_field
    stored_columns job a o = (_, refl, refl, refl, refl)

    find_demo :
        (d : Document) (analysis : Fields) (a : Aggregated) (l : Log)
        → env.settings.demo_mode ≡ true
        → find_diagnosis env ratios reader d analysis a l ≡ (ok (object (demo_diagnosis a)), l)
    unfolding find_diagnosis
    find_demo d analysis a l demo =
        ap
          (λ b.
            (if b
                then pure (object (demo_diagnosis a))
                else run_llm_diagnosis env ratios reader d analysis a)
              l)
          demo

    -- The run from the check of the document on, with its parts as they return.
    document_run :
        (h : Log) (d : Document) (job : Option AnalysisJob) (a : Aggregated)
        → env.settings.demo_mode ≡ true
        → env.answer (lookup true ∷ h) (latest_job document_id) ≡ ok job
        → aggregate_metrics ratios d.doc_metadata (result_of job) ≡ ok a
        → (o : Option Embedding) → (embedded h a).0 ≡ ok o
        → (c : DiagnosisColumns)
        → diagnosis_columns user_id job (object (demo_diagnosis a)) o ≡ ok c
        → (id : ℤ) → env.answer (embedded h a).1 (insert_diagnosis c) ≡ ok id
        → (row : BlogDiagnosis)
        → env.answer
            (record { command = insert_diagnosis c; succeeded = true } ∷ (embedded h a).1)
            (refresh_diagnosis id)
          ≡ ok row
        → diagnose_document env ratios reader user_id document_id d (lookup true ∷ h) ≡ (
          ok row,
          record { command = refresh_diagnosis id; succeeded = true }
              ∷ record { command = insert_diagnosis c; succeeded = true }
              ∷ (embedded h a).1,
        )
    unfolding diagnose_document get_latest_by_document
    document_run h d job a demo e' e'' o p c q id r row t =
        >>=-run (call env (latest_job document_id)) _ _
          (call-ok env (latest_job document_id) (lookup true ∷ h) e')
        ∙ >>=-ok (lift (aggregate_metrics ratios d.doc_metadata (result_of job))) _ _ e''
        ∙ >>=-run (find_diagnosis env ratios reader d (result_of job) a) _ _
            (find_demo d (result_of job) a (before_embedding h) demo)
        ∙ >>=-ok (build_result_embedding env ratios reader (object (demo_diagnosis a))) _ _ p
        ∙ >>=-ok (lift (diagnosis_columns user_id job (object (demo_diagnosis a)) o))
            (λ x. call env (insert_diagnosis x) >>= λ y. call env (refresh_diagnosis y))
            (embedded h a).1 q
        ∙ >>=-run (call env (insert_diagnosis c)) (λ y. call env (refresh_diagnosis y))
            (embedded h a).1 (call-ok env (insert_diagnosis c) (embedded h a).1 r)
        ∙ call-ok env (refresh_diagnosis id) _ t

    -- In the demo mode, the diagnosis of a user's own document, of which the metadata can be added up,
    -- is stored and returned, with the metrics of the demo and for the user that asked, whether or not
    -- there is an embedding for it: what raises on the way to the embedding is not raised here.
    pub demo_diagnosis_stored :
        (h : Log) (d : Document) (job : Option AnalysisJob) (a : Aggregated)
        → env.settings.demo_mode ≡ true
        → env.answer h (get_document document_id) ≡ ok (some d)
        → d.user_id ≡ user_id
        → env.answer (lookup true ∷ h) (latest_job document_id) ≡ ok job
        → aggregate_metrics ratios d.doc_metadata (result_of job) ≡ ok a
        → TakesDiagnoses
        → (row : BlogDiagnosis) × (c : DiagnosisColumns) × (id : ℤ) × (l : Log) × (diagnose env
              ratios reader user_id document_id h
            ≡ (
              ok row,
              record { command = refresh_diagnosis id; succeeded = true }
                  ∷ record { command = insert_diagnosis c; succeeded = true }
                  ∷ l,
            ))
          × (c.user_id ≡ user_id)
          × (c.metrics ≡ object (demo_metrics a))
    demo_diagnosis_stored h d job a demo e own e' e'' takes =
        let before =
          record { command = latest_job document_id; succeeded = true } ∷ lookup true ∷ h in
        let j = object (demo_diagnosis a) in
        let built = build_result_embedding env ratios reader j before in
        let (o, p) = build_result_embedding-returns j before in
        let (c, q, u, m, _) = stored_columns job a o in
        let (id, r) = takes.0 built.1 c in
        let (row, t) =
          takes.1 (record { command = insert_diagnosis c; succeeded = true } ∷ built.1) id in
        (
          row,
          c,
          id,
          built.1,
          own_run h d e own ∙ document_run h d job a demo e' e'' o p c q id r row t,
          u,
          m,
        )
