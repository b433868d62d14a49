-- ===== src/Worker/Marks.antt =====
-- app/worker/ingest_worker.py and app/worker/analysis_worker.py: the mark `ingest:done:…`, which the one
-- sets and the other waits for, over a Redis that keeps what is set.
use ject6_4th_ai_analyzer.Base.{
  ◌≡◌, refl, ap, ◌∙◌, sym, ℕ, Bool, true, false, Option, none, some, [], ◌∷◌, ◌++◌, map, Text,
  codes, ◌==◌, text_eq, All, All-append, append_assoc,
}
use ject6_4th_ai_analyzer.Base.Int.{ℤ}
use ject6_4th_ai_analyzer.Base.Decimal.{show, read_int}
use ject6_4th_ai_analyzer.Base.Decimal.RoundTrip.{read_int-show, read_int-nil}
use ject6_4th_ai_analyzer.Domain.Schemas.{AnalysisRequest}
use ject6_4th_ai_analyzer.Core.Parsing.{non_empty, parse_int, int_if_set}
use ject6_4th_ai_analyzer.Core.Effects.{
  Env, Event, try_except, ◌>>=◌, set_nx, incr, incrby, expire, pipeline_set, eval_transition,
  eval_token_bucket, Log, Command, ok, call, call-ok, >>=-run, try_except-ok, lift, pure, get, set,
  delete,
}
use ject6_4th_ai_analyzer.Repository.Conversations.History.{among}
use ject6_4th_ai_analyzer.Worker.FullBlogBatch.{publish_analysis, mark_ingest_done}
use ject6_4th_ai_analyzer.Worker.Handover.{handle_incoming-read}
use ject6_4th_ai_analyzer.Worker.AnalysisWorker.{
  IncomingMessage, resolve_document_id, retry_or_reject, run_analysis, with_document, handle_valid,
  handle_incoming,
}

-- What may change the value at a key, or take it away.
abbrev pub writes : Text → Command → Bool
writes k (set j v ttl) = j == k
writes k (set_nx j v ttl) = j == k
writes k (incr j) = j == k
writes k (incrby j n) = j == k
writes k (expire j ttl) = j == k
writes k (delete js) = among k js
writes k (pipeline_set entries ttl) = among k (map (λ e. e.0) entries)
writes k (eval_transition j a b ttl) = j == k
writes k (eval_token_bucket j r n now) = j == k
writes k _ = false

-- Redis keeps a value that nothing writes after it; no key expires in the meantime.
abbrev pub KeepsValues : Env → Type 0
KeepsValues env =
    (later h : Log) (k v : Text) (ttl : ℕ)
    → All (λ (e : Event). writes k e.command ≡ false) later
    → env.answer (later ++ record { command = set k v ttl; succeeded = true } ∷ h) (get k)
      ≡ ok (some v)

abbrev pub done_key : Text → Text
done_key correlation_id = codes "ingest:done:" ++ correlation_id

int_if_set-read :
    (env : Env) (t : Text) (z : ℤ) → read_int t ≡ some z → int_if_set env (some t) ≡ ok (some z)
unfolding int_if_set parse_int non_empty
int_if_set-read env [] z e = let n = read_int-nil in cc
int_if_set-read env (c ∷ s) z e = rw (int_if_set, parse_int, e)

module _ (env : Env) (correlation_id : Text) (h : Log) where
  -- The log after the worker has asked for the mark, and been answered.
  abbrev pub asked : Log
  asked = record { command = get (done_key correlation_id); succeeded = true } ∷ h

  resolve_document_id-answered :
      (value : Option Text) (found : Option ℤ)
      → env.answer h (get (done_key correlation_id)) ≡ ok value
      → int_if_set env value ≡ ok found
      → resolve_document_id env correlation_id h ≡ (ok found, asked)
  unfolding resolve_document_id
  resolve_document_id-answered value found e q =
      try_except-ok (call env (get (done_key correlation_id)) >>= λ v. lift (int_if_set env v))
        (λ _. pure none) h
        (>>=-run (call env (get (done_key correlation_id))) (λ v. lift (int_if_set env v)) h
            (call-ok env (get (done_key correlation_id)) h e)
          ∙ ap (λ r. (r, asked)) q)

  handle_valid-resolved :
      (m : IncomingMessage) (r : AnalysisRequest) (found : Option ℤ)
      → r.document_id ≡ none
      → non_empty r.correlation_id ≡ some correlation_id
      → resolve_document_id env correlation_id h ≡ (ok found, asked)
      → handle_valid env m r h ≡ with_document env m r found asked
  unfolding handle_valid
  handle_valid-resolved m r found e q f =
      rw (handle_valid, e, q)
        (>>=-run (resolve_document_id env correlation_id) (with_document env m r) h f)

abbrev mark_event : Text → ℤ → Event
mark_event correlation_id document_id = record {
  command = set (done_key correlation_id) (show document_id) 3600;
  succeeded = true;
}

-- The calls of the mark: the message that follows it may be published or not.
mark_ingest_done-run :
    (env : Env) (correlation_id : Text) (document_id user_id : ℤ) (mode : Text) (h : Log)
    → env.answer h (mark_event correlation_id document_id).command ≡ ok tt
    → mark_ingest_done env correlation_id document_id user_id mode h
      ≡ publish_analysis env user_id document_id
          (some correlation_id)
          mode
          none
          none
          (mark_event correlation_id document_id ∷ h)
unfolding mark_ingest_done
mark_ingest_done-run env c i u mode h e =
    >>=-run (try_except (call env (mark_event c i).command) (λ _. pure tt))
      (λ _. publish_analysis env u i (some c) mode none none) h
      (try_except-ok (call env (mark_event c i).command) (λ _. pure tt) h
        (call-ok env (mark_event c i).command h e))

-- The message is one event, which writes no key.
publish_analysis-event :
    (env : Env) (user_id document_id : ℤ) (c : Option Text) (mode : Text) (k : Text) (l : Log)
    → (e : Event) × ((publish_analysis env user_id document_id c mode none none l).1 ≡ e ∷ l)
      × (writes k e.command ≡ false)
unfolding publish_analysis call
publish_analysis-event env u i c mode k l = (_, refl, refl)

marked :
    (env : Env)
    → KeepsValues env
    → (correlation_id : Text) (document_id user_id : ℤ) (mode : Text) (later h : Log)
    → env.answer h (mark_event correlation_id document_id).command ≡ ok tt
    → All (λ e. writes (done_key correlation_id) e.command ≡ false) later
    → env.answer
        (later ++ (mark_ingest_done env correlation_id document_id user_id mode h).1)
        (get (done_key correlation_id))
      ≡ ok (some (show document_id))
marked env keeps c i u mode later h e spares =
    let after = mark_event c i ∷ h in
    let (event, at, plain) = publish_analysis-event env u i (some c) mode (done_key c) after in
    ap (λ r. env.answer (later ++ r.1) (get (done_key c))) (mark_ingest_done-run env c i u mode h e)
    ∙ ap (λ l. env.answer l (get (done_key c)))
        (ap (λ l. later ++ l) at ∙ sym (append_assoc later (event ∷ []) after))
    ∙ keeps (later ++ event ∷ []) h (done_key c) (show i) 3600
        (All-append _ later (event ∷ []) spares (plain, tt))

handle_incoming-resolved :
    (env : Env) (m : IncomingMessage) (r : AnalysisRequest) (correlation_id : Text) (h : Log)
    → (value : Option Text) (found : Option ℤ) → env.read_request m.body ≡ some r
    → r.document_id ≡ none
    → non_empty r.correlation_id ≡ some correlation_id
    → env.answer h (get (done_key correlation_id)) ≡ ok value
    → int_if_set env value ≡ ok found
    → handle_incoming env m h ≡ with_document env m r found (asked env correlation_id h)
handle_incoming-resolved env m r c h value found e q f a b =
    ap (λ t. t h) (handle_incoming-read env m r e)
    ∙ handle_valid-resolved env c h m r found q f
        (resolve_document_id-answered env c h value found a b)

-- A request that names a post by its correlation id alone goes back on the queue, or is rejected once
-- the retries are used up, when it is handled and there is no mark. Once the ingest worker has set the
-- mark of the post, whatever is called after it but for a write of its key, the request is analysed
-- with the document of the mark. Redis keeps what is set, and the key has not expired.
pub mark-handle_incoming :
    (env : Env) (m : IncomingMessage) (r : AnalysisRequest) (correlation_id : Text)
    → (document_id user_id : ℤ) (mode : Text) (before h later : Log) → KeepsValues env
    → env.read_request m.body ≡ some r
    → r.document_id ≡ none
    → non_empty r.correlation_id ≡ some correlation_id
    → env.answer before (get (done_key correlation_id)) ≡ ok none
    → env.answer h (set (done_key correlation_id) (show document_id) 3600) ≡ ok tt
    → All (λ e. writes (done_key correlation_id) e.command ≡ false) later
    → (handle_incoming env m before
        ≡ retry_or_reject env m (pure tt) (asked env correlation_id before))
      × (let l = later ++ (mark_ingest_done env correlation_id document_id user_id mode h).1 in
          handle_incoming env m l
          ≡ run_analysis env m
              (record r { document_id = some document_id })
              (asked env correlation_id l))
unfolding with_document int_if_set non_empty
mark-handle_incoming env m r c i u mode before h later keeps e q f a g spares = (
  handle_incoming-resolved env m r c before none none e q f a refl,
  handle_incoming-resolved env m r c (later ++ (mark_ingest_done env c i u mode h).1)
      (some (show i)) (some i) e q f (marked env keeps c i u mode later h g spares)
      (int_if_set-read env (show i) i (read_int-show i)),
)
