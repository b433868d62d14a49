-- ===== src/Worker/Handover.antt =====
-- app/worker/ingest_worker.py and app/worker/analysis_worker.py: the analysis message that the one
-- publishes and the other takes, over json and pydantic that read a message back.
use ject6_4th_ai_analyzer.Base.{
  ◌≡◌, refl, ap, ◌∙◌, ◌⊎◌, inl, inr, false, Bool-cases, ◌==◌, list_beq_iff, Option, none, some,
  List, [], ◌∷◌, Text, codes, text_eq,
}
use ject6_4th_ai_analyzer.Base.Int.{ℤ}
use ject6_4th_ai_analyzer.Base.Dict.{Dict}
use ject6_4th_ai_analyzer.Domain.Enums.{AnalysisMode, full_blog, post, mode_value}
use ject6_4th_ai_analyzer.Domain.Json.{
  Json, Fields, number, string, array, object, field, end, numbers, set_field, get_field,
}
use ject6_4th_ai_analyzer.Domain.Schemas.{AnalysisRequest}
use ject6_4th_ai_analyzer.Core.Parsing.{non_empty}
use ject6_4th_ai_analyzer.Core.Effects.{Env, Header, Log, call, publish, reject}
use ject6_4th_ai_analyzer.Worker.IngestMessage.{put_set}
use ject6_4th_ai_analyzer.Worker.FullBlogBatch.{put_ids, analysis_payload, publish_analysis}
use ject6_4th_ai_analyzer.Worker.AnalysisWorker.{
  IncomingMessage, run_analysis, handle_valid, handle_incoming,
}

-- What stands under the name of a field that may be missing.
abbrev pub optional : {A : Type 0} → (A → Json) → Option A → Option Json
optional json_of none = none
optional json_of (some a) = some (json_of a)

abbrev pub ids_json : List ℤ → Json
ids_json ids = array (numbers ids)

abbrev pub mode_json : AnalysisMode → Json
mode_json mode = string (mode_value mode)

-- An object has the fields of a request, each as the JSON of its type, and none for those not given.
pub record Declares (d : Fields) (r : AnalysisRequest) : Type 0 where
  pub at_user : get_field (codes "user_id") d ≡ some (number r.user_id)
  pub at_document : get_field (codes "document_id") d ≡ optional number r.document_id
  pub at_correlation : get_field (codes "correlation_id") d ≡ optional string r.correlation_id
  pub at_mode : get_field (codes "analysis_mode") d ≡ optional mode_json r.analysis_mode
  pub at_batch : get_field (codes "batch_id") d ≡ optional string r.batch_id
  pub at_ids : get_field (codes "source_document_ids") d ≡ optional ids_json r.source_document_ids

-- A text that is no mode.
abbrev pub IsNoMode : Text → Type 0
IsNoMode t = (mode : AnalysisMode) → t ≡ mode_value mode → ⊥

-- `model_validate(json.loads(json.dumps(d)))` is the request that the object declares, and refuses a
-- mode that is none of the enum.
pub record ReadsBack (env : Env) (d : Fields) : Type 0 where
  pub accepts :
      (r : AnalysisRequest) → Declares d r → env.read_request (env.json_dumps (object d)) ≡ some r
  pub refuses :
      (t : Text)
      → get_field (codes "analysis_mode") d ≡ some (string t)
      → IsNoMode t
      → env.read_request (env.json_dumps (object d)) ≡ none

-- An empty list of ids is not sent.
abbrev pub ids_sent : Option (List ℤ) → Option (List ℤ)
ids_sent none = none
ids_sent (some []) = none
ids_sent (some (i ∷ ids)) = some (i ∷ ids)

-- The request that a message stands for.
abbrev pub request_sent :
    ℤ → ℤ → Option Text → AnalysisMode → Option Text → Option (List ℤ) → AnalysisRequest
request_sent user_id document_id correlation_id mode batch_id source_document_ids = record {
  user_id = user_id;
  document_id = some document_id;
  correlation_id = non_empty correlation_id;
  analysis_mode = some mode;
  batch_id = non_empty batch_id;
  source_document_ids = ids_sent source_document_ids;
}

abbrev put_all : Option Text → Option Text → Option (List ℤ) → ℤ → ℤ → Text → Fields
put_all c b ids u i t = put_ids ids (
    put_set (codes "batch_id") b (
      put_set (codes "correlation_id") c (
        field (codes "user_id") (number u)
          (field (codes "document_id") (number i) (field (codes "analysis_mode") (string t) end)))))

-- What stands under each name of the message.
fields_sent :
    (c b : Option Text) (ids : Option (List ℤ)) (u i : ℤ) (t : Text)
    → (get_field (codes "user_id") (put_all c b ids u i t) ≡ some (number u))
      × (get_field (codes "document_id") (put_all c b ids u i t) ≡ some (number i))
      × (get_field (codes "correlation_id") (put_all c b ids u i t) ≡ optional string c)
      × (get_field (codes "analysis_mode") (put_all c b ids u i t) ≡ some (string t))
      × (get_field (codes "batch_id") (put_all c b ids u i t) ≡ optional string b)
      × (get_field (codes "source_document_ids") (put_all c b ids u i t)
          ≡ optional ids_json (ids_sent ids))
unfolding put_ids put_set set_field get_field
fields_sent none none none u i t = (refl, refl, refl, refl, refl, refl)
fields_sent none none (some []) u i t = (refl, refl, refl, refl, refl, refl)
fields_sent none none (some (j ∷ js)) u i t = (refl, refl, refl, refl, refl, refl)
fields_sent none (some b) none u i t = (refl, refl, refl, refl, refl, refl)
fields_sent none (some b) (some []) u i t = (refl, refl, refl, refl, refl, refl)
fields_sent none (some b) (some (j ∷ js)) u i t = (refl, refl, refl, refl, refl, refl)
fields_sent (some c) none none u i t = (refl, refl, refl, refl, refl, refl)
fields_sent (some c) none (some []) u i t = (refl, refl, refl, refl, refl, refl)
fields_sent (some c) none (some (j ∷ js)) u i t = (refl, refl, refl, refl, refl, refl)
fields_sent (some c) (some b) none u i t = (refl, refl, refl, refl, refl, refl)
fields_sent (some c) (some b) (some []) u i t = (refl, refl, refl, refl, refl, refl)
fields_sent (some c) (some b) (some (j ∷ js)) u i t = (refl, refl, refl, refl, refl, refl)

Declares-payload :
    (u i : ℤ) (c : Option Text) (mode : AnalysisMode) (t : Text) (b : Option Text)
    → (ids : Option (List ℤ)) → t ≡ mode_value mode
    → Declares (analysis_payload u i c t b ids) (request_sent u i c mode b ids)
unfolding analysis_payload
Declares-payload u i c mode t b ids e =
    let (user, document, correlation, at, batch, sources) =
      fields_sent (non_empty c) (non_empty b) ids u i t in
    record {
      at_user = user;
      at_document = document;
      at_correlation = correlation;
      at_mode = at ∙ ap (λ s. some (string s)) e;
      at_batch = batch;
      at_ids = sources;
    }

no_mode : (t : Text) → (t == codes "FULL_BLOG") ≡ false → (t == codes "POST") ≡ false → IsNoMode t
unfolding mode_value
no_mode t e f full_blog q = let b = (list_beq_iff t (codes "FULL_BLOG")).1 q in cc
no_mode t e f post q = let b = (list_beq_iff t (codes "POST")).1 q in cc

mode_cases : (t : Text) → ((mode : AnalysisMode) × (t ≡ mode_value mode)) ⊎ IsNoMode t
unfolding mode_value
mode_cases t = elim (Bool-cases (t == codes "FULL_BLOG")) [
  | inl e ↦ inl (full_blog, (list_beq_iff t (codes "FULL_BLOG")).0 e)
  | inr e ↦ elim (Bool-cases (t == codes "POST")) [
    | inl f ↦ inl (post, (list_beq_iff t (codes "POST")).0 f)
    | inr f ↦ inr (no_mode t e f)
  ]
]

-- What pydantic makes of the body is handled.
handle_incoming-unread :
    (env : Env) (m : IncomingMessage)
    → env.read_request m.body ≡ none
    → handle_incoming env m ≡ call env (reject false)
unfolding handle_incoming
handle_incoming-unread env m e =
    ap (λ o. elim o [ none ↦ call env (reject false) | some q ↦ handle_valid env m q ]) e

pub handle_incoming-read :
    (env : Env) (m : IncomingMessage) (r : AnalysisRequest)
    → env.read_request m.body ≡ some r
    → handle_incoming env m ≡ handle_valid env m r
unfolding handle_incoming
handle_incoming-read env m r e =
    ap (λ o. elim o [ none ↦ call env (reject false) | some q ↦ handle_valid env m q ]) e

-- An analysis is requested by one message, on the queue of the analysis worker. If its mode is one of
-- the enum, that worker analyses at once what was meant: the user, the document, the mode and those
-- of the correlation id, the batch id and the ids that are not empty. If it is not, the worker rejects
-- the message for good. Json and pydantic read the message back.
pub published_analysis_handled :
    (env : Env) (user_id document_id : ℤ) (c : Option Text) (t : Text) (b : Option Text)
    → (ids : Option (List ℤ)) (headers : Option (Dict Header)) (h : Log)
    → ReadsBack env (analysis_payload user_id document_id c t b ids)
    → (body : Text) × (publish_analysis env user_id document_id c t b ids h
        ≡ call env (publish env.settings.analysis_queue_name body []) h)
      × (((mode : AnalysisMode) × (t ≡ mode_value mode)
            × (handle_incoming env (record { body = body; headers = headers })
                ≡ run_analysis env
                    (record { body = body; headers = headers })
                    (request_sent user_id document_id c mode b ids)))
          ⊎ (IsNoMode t
              × (handle_incoming env (record { body = body; headers = headers })
                  ≡ call env (reject false))))
unfolding publish_analysis handle_valid analysis_payload
published_analysis_handled env u i c t b ids headers h reads =
    let payload = analysis_payload u i c t b ids in
    let m : IncomingMessage = record {
      body = env.json_dumps (object payload);
      headers = headers;
    } in
    (
      m.body,
      refl,
      elim (mode_cases t) [
        | inl (mode, e) ↦ inl (
          mode,
          e,
          handle_incoming-read env m (request_sent u i c mode b ids)
              (reads.accepts _ (Declares-payload u i c mode t b ids e)),
        )
        | inr n ↦ inr (
          n,
          handle_incoming-unread env m
              (reads.refuses t (fields_sent (non_empty c) (non_empty b) ids u i t).3 n),
        )
      ],
    )
