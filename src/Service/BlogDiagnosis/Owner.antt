-- ===== src/Service/BlogDiagnosis/Owner.antt =====
-- app/service/blog_diagnosis_service.py: for whom a diagnosis is stored.
use ject6_4th_ai_analyzer.Base.{
  ◌≡◌, refl, sym, ap, ◌∙◌, inl, inr, Bool, true, false, Option, none, some, List, [], ◌∷◌, ◌++◌,
  append_assoc, All-append, codes, ◌==◌, arith, Bool-cases,
}
use ject6_4th_ai_analyzer.Base.Int.{ℤ, int_eq, eqb_ℤ_iff}
use ject6_4th_ai_analyzer.Domain.Json.{Json, null, boolean, number, string, array, object}
use ject6_4th_ai_analyzer.Domain.Schemas.{Embedding}
use ject6_4th_ai_analyzer.Domain.Models.{Document, AnalysisJob, DiagnosisColumns}
use ject6_4th_ai_analyzer.Core.Exceptions.{Exception}
use ject6_4th_ai_analyzer.Core.Effects.{
  Env, Log, Event, Command, Result, ok, err, call, get_document, latest_job, insert_diagnosis,
  refresh_diagnosis,
}
use ject6_4th_ai_analyzer.Core.Effects.Issues.{
  Adds, IsTrace, Traces, Only, Only-IsTrace, Has, Traces-pure, Traces-or_raise, Traces-lift,
  Traces-if, Traces-try, Traces-bind, Traces-after, Traces-call,
}
use ject6_4th_ai_analyzer.Client.Llm.Asks.{AllowsProviders, Traces-embed, Traces-chat}
use ject6_4th_ai_analyzer.Client.Llm.Retries.{StopsUnlessRetried}
use ject6_4th_ai_analyzer.Repository.Documents.{get_by_id}
use ject6_4th_ai_analyzer.Repository.AnalysisJobs.{get_latest_by_document}
use ject6_4th_ai_analyzer.Service.BlogDiagnosis.Metrics.{Ratios, Aggregated}
use ject6_4th_ai_analyzer.Service.BlogDiagnosis.Stored.{
  lookup, IsForeign, diagnose_foreign, own_run,
}
use ject6_4th_ai_analyzer.Service.BlogDiagnosis.{
  JsonReader, result_of, diagnosis_columns, build_result_embedding, find_diagnosis,
  run_llm_diagnosis, diagnose_document, diagnose, joined_cards, first_of,
}

-- A diagnosis that is stored is stored for this user.
abbrev pub IsFor : ℤ → Command → Type 0
IsFor user_id (insert_diagnosis c) = c.user_id ≡ user_id
IsFor user_id _ = Unit

abbrev pub IsDiagnosis : Event → Type 0
IsDiagnosis e = elim e.command [ insert_diagnosis _ ↦ Unit | _ ↦ ⊥ ]

diagnosis_columns-user :
    (user_id : ℤ) (job : Option AnalysisJob) (d : Json) (o : Option Embedding)
    (c : DiagnosisColumns)
    → diagnosis_columns user_id job d o ≡ ok c
    → c.user_id ≡ user_id
unfolding diagnosis_columns
diagnosis_columns-user u job (object d) o c e = ground arith
diagnosis_columns-user u job null o c e = ground arith
diagnosis_columns-user u job (boolean _) o c e = ground arith
diagnosis_columns-user u job (number _) o c e = ground arith
diagnosis_columns-user u job (string _) o c e = ground arith
diagnosis_columns-user u job (array _) o c e = ground arith

module _ (env : Env) (ratios : Ratios) (reader : JsonReader) (stops : StopsUnlessRetried env)
    (user_id document_id : ℤ) where
  abbrev only : IsTrace (Only (IsFor user_id))
  only = Only-IsTrace (IsFor user_id)

  providers_allowed : AllowsProviders (Only (IsFor user_id))
  providers_allowed = record {
    embeddings = λ model texts d b. (tt, tt);
    chats = λ model ms t n kind b. (tt, tt);
    native_chats = λ url model ms t n schema b. (tt, tt);
  }

  Only-find_diagnosis :
      (d : Document) (f : _) (a : Aggregated)
      → Traces (Only (IsFor user_id)) (find_diagnosis env ratios reader d f a)
  unfolding find_diagnosis run_llm_diagnosis
  Only-find_diagnosis d f a = Traces-if only env.settings.demo_mode _ _ (Traces-pure only _) (
      Traces-bind only _ _ (Traces-chat only providers_allowed env stops _ _ _ _)
        λ raw. Traces-or_raise only (reader.loads raw) _)

  Only-build_result_embedding :
      (d : Json) → Traces (Only (IsFor user_id)) (build_result_embedding env ratios reader d)
  unfolding build_result_embedding
  Only-build_result_embedding d =
      Traces-try only _ _
        (Traces-after only (joined_cards (codes "strengths") d) _ λ strengths _.
          Traces-after only (joined_cards (codes "weaknesses") d) _ λ weaknesses _.
            Traces-bind only _ _
              (Traces-embed only providers_allowed env stops
                ((codes "강점: " ++ strengths ++ codes " 약점: " ++ weaknesses) ∷ []))
              λ results. Traces-pure only (first_of results))
        λ _. Traces-pure only none

  Only-diagnose_document :
      (d : Document)
      → Traces (Only (IsFor user_id)) (diagnose_document env ratios reader user_id document_id d)
  unfolding diagnose_document get_latest_by_document
  Only-diagnose_document d =
      Traces-bind only _ _ (Traces-call only env (latest_job document_id) (λ _. (tt, tt))) λ job.
        Traces-bind only _ _ (Traces-lift only _) λ a.
          Traces-bind only _ _ (Only-find_diagnosis d (result_of job) a) λ diagnosis.
            Traces-bind only _ _ (Only-build_result_embedding diagnosis) λ o.
              Traces-after only (diagnosis_columns user_id job diagnosis o) _ λ c e.
                Traces-bind only _ _
                  (Traces-call only env (insert_diagnosis c)
                    (λ _. (diagnosis_columns-user user_id job diagnosis o c e, tt)))
                  λ id. Traces-call only env (refresh_diagnosis id) (λ _. (tt, tt))

  -- A diagnosis among these calls is the user's, for a document of the user.
  abbrev pub Owned : Log → List Event → Type 0
  Owned h es =
      (Has IsDiagnosis es
        → (d : Document) × (env.answer h (get_document document_id) ≡ ok (some d))
          × (d.user_id ≡ user_id))
      × Only (IsFor user_id) es

  abbrev look : Bool → Event
  look = lookup env ratios reader user_id document_id

  just_lookup : (h : Log) (b : Bool) → Owned h (look b ∷ [])
  just_lookup h b = (λ k. elim k [ inl x ↦ absurd x | inr y ↦ absurd y ], (tt, tt))

  lookup_raises :
      (h : Log) (e : Exception)
      → env.answer h (get_document document_id) ≡ err e
      → (diagnose env ratios reader user_id document_id h).1 ≡ look false ∷ h
  unfolding diagnose get_by_id call
  lookup_raises h e r = rw r

  -- Every diagnosis that a run stores is stored for the user of the request, and there is one only
  -- where the lookup of the document found one that is this user's; so whatever the model answers, in
  -- the demo mode or not, and wherever the run ends.
  pub diagnose_for_owner :
      (h : Log) → Adds (Owned h) h (diagnose env ratios reader user_id document_id h).1
  diagnose_for_owner h = after_lookup (env.answer h (get_document document_id)) refl
    where
      foreign :
          (found : Option Document)
          → env.answer h (get_document document_id) ≡ ok found
          → IsForeign env ratios reader user_id document_id found
          → Adds (Owned h) h (diagnose env ratios reader user_id document_id h).1
      foreign found e f = (
        look true ∷ [],
        ap (λ x. x.1) (diagnose_foreign env ratios reader user_id document_id h found e f),
        just_lookup h true,
      )

      after_lookup :
          (r : Result (Option Document))
          → env.answer h (get_document document_id) ≡ r
          → Adds (Owned h) h (diagnose env ratios reader user_id document_id h).1
      after_lookup (err e) r = (look false ∷ [], lookup_raises h e r, just_lookup h false)
      after_lookup (ok none) r = foreign none r tt
      after_lookup (ok (some d)) r = elim (Bool-cases (d.user_id == user_id)) [
        | inl e ↦
            let own = (eqb_ℤ_iff d.user_id user_id).0 e in
            let (es, p, o) = (Only-diagnose_document d).at (look true ∷ h) in
            (
              es ++ (look true ∷ []),
              ap (λ x. x.1) (own_run env ratios reader user_id document_id h d r own)
                  ∙ p
                  ∙ sym (append_assoc es (look true ∷ []) h),
              (λ _. (d, r, own), All-append _ es (look true ∷ []) o (tt, tt)),
            )
        | inr e ↦
            foreign (some d) r (λ own. let t = (eqb_ℤ_iff d.user_id user_id).1 own in ground arith)
      ]
