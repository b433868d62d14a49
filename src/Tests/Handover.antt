-- ===== src/Tests/Handover.antt =====
-- The messages and the marks that the ingest worker hands to the analysis worker.
use ject6_4th_ai_analyzer.Base.{
  ◌≡◌, refl, ap, ◌∙◌, ◌⊎◌, false, true, Option, none, some, List, [], ◌∷◌, Text, codes,
  if◌then◌else◌, ◌++◌, All, ℕ, ◌==◌, text_eq, list_beq_iff,
}
use ject6_4th_ai_analyzer.Base.Int.{ℤ, pos}
use ject6_4th_ai_analyzer.Domain.Enums.{AnalysisMode, full_blog, post, mode_value}
use ject6_4th_ai_analyzer.Domain.Json.{
  Json, Items, Fields, number, string, array, cons, numbers, set_field, get_field,
}
use ject6_4th_ai_analyzer.Domain.Schemas.{AnalysisRequest}
use ject6_4th_ai_analyzer.Core.Parsing.{non_empty}
use ject6_4th_ai_analyzer.Core.Effects.{
  Env, Log, Event, set, ack, pure, Command, Reply, Result, ok, get, call, publish, reject,
}
use ject6_4th_ai_analyzer.Worker.IngestMessage.{put_set}
use ject6_4th_ai_analyzer.Worker.FullBlogBatch.{
  put_ids, analysis_payload, publish_analysis, mark_ingest_done,
}
use ject6_4th_ai_analyzer.Worker.AnalysisWorker.{
  IncomingMessage, handle_incoming, run_analysis, retry_or_reject,
}
use ject6_4th_ai_analyzer.Worker.Handover.{
  optional, ids_json, mode_json, IsNoMode, ReadsBack, request_sent, published_analysis_handled,
}
use ject6_4th_ai_analyzer.Worker.Marks.{KeepsValues, writes, asked, mark-handle_incoming}
use ject6_4th_ai_analyzer.Tests.World.{world, answers}

abbrev batch_request : AnalysisRequest
batch_request =
    request_sent (pos 1) (pos 7) (some (codes "c1")) full_blog (some (codes "b1"))
      (some (pos 7 ∷ []))

abbrev reading_world : Env
reading_world = record world { read_request = λ _. some batch_request }

abbrev batch_fields : Fields
batch_fields =
    analysis_payload (pos 1) (pos 7) (some (codes "c1")) (codes "FULL_BLOG") (some (codes "b1"))
      (some (pos 7 ∷ []))

abbrev number_of : Option Json → Option ℤ
number_of (some (number n)) = some n
number_of _ = none

abbrev string_of : Option Json → Option Text
string_of (some (string t)) = some t
string_of _ = none

abbrev items_of : Items → List ℤ
items_of (cons (number n) ns) = n ∷ items_of ns
items_of _ = []

abbrev ids_of : Option Json → Option (List ℤ)
ids_of (some (array ns)) = some (items_of ns)
ids_of _ = none

number_of-optional : (o : Option ℤ) → number_of (optional number o) ≡ o
number_of-optional none = refl
number_of-optional (some n) = refl

string_of-optional : (o : Option Text) → string_of (optional string o) ≡ o
string_of-optional none = refl
string_of-optional (some t) = refl

items_of-numbers : (ns : List ℤ) → items_of (numbers ns) ≡ ns
items_of-numbers [] = refl
items_of-numbers (n ∷ ns) = ap (λ ms. n ∷ ms) (items_of-numbers ns)

ids_of-optional : (o : Option (List ℤ)) → ids_of (optional ids_json o) ≡ o
ids_of-optional none = refl
ids_of-optional (some ns) = ap some (items_of-numbers ns)

mode_of-optional :
    (o : Option AnalysisMode)
    → some (string (codes "FULL_BLOG")) ≡ optional mode_json o
    → some full_blog ≡ o
unfolding mode_value
mode_of-optional none e = cc
mode_of-optional (some full_blog) e = refl
mode_of-optional (some post) e = cc

same_request :
    (r s : AnalysisRequest)
    → r.user_id ≡ s.user_id
    → r.document_id ≡ s.document_id
    → r.correlation_id ≡ s.correlation_id
    → r.analysis_mode ≡ s.analysis_mode
    → r.batch_id ≡ s.batch_id
    → r.source_document_ids ≡ s.source_document_ids
    → r ≡ s
same_request r s a b c d e f = rw (a, b, c, d, e, f)

batch_read : ReadsBack reading_world batch_fields
unfolding analysis_payload put_ids put_set set_field get_field non_empty mode_value
batch_read = record {
  accepts = λ r d. ap some (
      same_request batch_request r (let e = d.at_user in cc)
        (ap number_of d.at_document ∙ number_of-optional _)
        (ap string_of d.at_correlation ∙ string_of-optional _) (mode_of-optional _ d.at_mode)
        (ap string_of d.at_batch ∙ string_of-optional _) (ap ids_of d.at_ids ∙ ids_of-optional _));
  refuses = λ t e n. absurd (n full_blog cc);
}

published_analysis_handled_example :
    (body : Text) × (publish_analysis reading_world
        (pos 1)
        (pos 7)
        (some (codes "c1"))
        (codes "FULL_BLOG")
        (some (codes "b1"))
        (some (pos 7 ∷ []))
        []
      ≡ call reading_world (publish reading_world.settings.analysis_queue_name body []) [])
    × (((mode : AnalysisMode) × (codes "FULL_BLOG" ≡ mode_value mode)
          × (handle_incoming reading_world (record { body = body; headers = none })
              ≡ run_analysis reading_world
                  (record { body = body; headers = none })
                  (request_sent
                    (pos 1)
                    (pos 7)
                    (some (codes "c1"))
                    mode
                    (some (codes "b1"))
                    (some (pos 7 ∷ [])))))
        ⊎ (IsNoMode (codes "FULL_BLOG")
            × (handle_incoming reading_world (record { body = body; headers = none })
                ≡ call reading_world (reject false))))
published_analysis_handled_example =
    published_analysis_handled reading_world (pos 1) (pos 7) (some (codes "c1")) (codes "FULL_BLOG")
      (some (codes "b1")) (some (pos 7 ∷ [])) none [] batch_read

-- What Redis holds at a key: what was set last, unless something else has written since.
abbrev set_by : Text → Command → Option Text
set_by k (set j v ttl) = if j == k then some v else none
set_by k _ = none

abbrev value_at : Text → Log → Option Text
value_at k [] = none
value_at k (e ∷ h) =
    let earlier = value_at k h in if writes k e.command then set_by k e.command else earlier

abbrev keeping_answers : Log → (c : Command) → Result (Reply c)
keeping_answers h (get k) = ok (value_at k h)
keeping_answers h c = answers none h c

abbrev waiting_request : AnalysisRequest
waiting_request = record {
  user_id = pos 1;
  document_id = none;
  correlation_id = some (codes "c1");
  analysis_mode = none;
  batch_id = none;
  source_document_ids = none;
}

abbrev keeping_world : Env
keeping_world = record world { answer = keeping_answers; read_request = λ _. some waiting_request }

value_at-spared :
    (k v : Text) (ttl : ℕ) (later h : Log)
    → All (λ (e : Event). writes k e.command ≡ false) later
    → value_at k (later ++ record { command = set k v ttl; succeeded = true } ∷ h) ≡ some v
value_at-spared k v ttl [] h a = rw ((list_beq_iff k k).1 refl)
value_at-spared k v ttl (e ∷ later) h a = rw (a.0) (value_at-spared k v ttl later h a.1)

values_kept : KeepsValues keeping_world
values_kept later h k v ttl a = ap ok (value_at-spared k v ttl later h a)

abbrev waiting_message : IncomingMessage
waiting_message = record { body = codes "{}"; headers = none }

abbrev marked_log : Log
marked_log =
    record { command = ack; succeeded = true }
    ∷ (mark_ingest_done keeping_world (codes "c1") (pos 7) (pos 1) (codes "POST") []).1

mark-handle_incoming_example :
    (handle_incoming keeping_world waiting_message []
      ≡ retry_or_reject keeping_world waiting_message
          (pure tt)
          (asked keeping_world (codes "c1") []))
    × (handle_incoming keeping_world waiting_message marked_log
        ≡ run_analysis keeping_world waiting_message
            (record waiting_request { document_id = some (pos 7) })
            (asked keeping_world (codes "c1") marked_log))
unfolding non_empty
mark-handle_incoming_example =
    mark-handle_incoming keeping_world waiting_message waiting_request (codes "c1") (pos 7) (pos 1)
      (codes "POST") [] [] (record { command = ack; succeeded = true } ∷ []) values_kept refl refl
      refl refl refl (refl, tt)
