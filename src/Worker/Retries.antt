-- ===== src/Worker/Retries.antt =====
-- app/worker/ingest_worker.py: how often a post is tried again, and the message that stops the worker.
use ject6_4th_ai_analyzer.Base.{
  ℕ, suc, ◌≡◌, refl, sym, ap, ◌∙◌, false, none, some, List, [], ◌∷◌, ◌++◌, Text, codes, arith,
  length, if◌then◌else◌,
}
use ject6_4th_ai_analyzer.Base.Int.{ℤ, pos, negsuc, ◌+ℤ◌, ltb_ℤ}
use ject6_4th_ai_analyzer.Base.Dict.{insert, lookup-insert}
use ject6_4th_ai_analyzer.Base.Decimal.{show, read_int}
use ject6_4th_ai_analyzer.Base.Decimal.RoundTrip.{read_int-show}
use ject6_4th_ai_analyzer.Core.Exceptions.{Exception, exception_text, builtin, value_error}
use ject6_4th_ai_analyzer.Core.Parsing.{parse_int}
use ject6_4th_ai_analyzer.Core.Effects.{Env, Log, err, is_ok, ◌>>◌}
use ject6_4th_ai_analyzer.Repository.CrawlQueue.{CrawlMessage, ack_message, requeue, send_to_dlq}
use ject6_4th_ai_analyzer.Worker.IngestMessage.{get_set, expected_count_of, read_retry_count}
use ject6_4th_ai_analyzer.Worker.IngestWorker.{
  retry_fields, handle_failure, handle_message, handle_all,
}

-- The message as it comes back from the stream, each time under a new id.
abbrev pub redelivered : CrawlMessage → List Text → CrawlMessage
redelivered m [] = m
redelivered m (id ∷ ids) = redelivered (record { id = id; fields = retry_fields m }) ids

read_retry_count-retry_fields :
    (m : CrawlMessage) (id : Text)
    → read_retry_count (record { id = id; fields = retry_fields m }) ≡ read_retry_count m +ℤ pos 1
unfolding retry_fields read_retry_count
read_retry_count-retry_fields m id = rw (
  read_retry_count,
  lookup-insert (codes "retry_count") (codes "retry_count") (show (read_retry_count m +ℤ pos 1))
      m.fields,
  read_int-show (read_retry_count m +ℤ pos 1),
)

next_count : (z : ℤ) (n : ℕ) → (z +ℤ pos 1) +ℤ pos n ≡ z +ℤ pos (suc n)
unfolding ◌+ℤ◌
next_count (pos k) n = ground arith
next_count (negsuc k) n = ground arith

add_zero : (z : ℤ) → z +ℤ pos 0 ≡ z
unfolding ◌+ℤ◌
add_zero (pos k) = ground arith
add_zero (negsuc k) = ground arith

read_retry_count-redelivered :
    (m : CrawlMessage) (ids : List Text)
    → read_retry_count (redelivered m ids) ≡ read_retry_count m +ℤ pos (length ids)
read_retry_count-redelivered m [] = sym (add_zero (read_retry_count m))
read_retry_count-redelivered m (id ∷ ids) =
    read_retry_count-redelivered (record { id = id; fields = retry_fields m }) ids
    ∙ ap (λ z. z +ℤ pos (length ids)) (read_retry_count-retry_fields m id)
    ∙ next_count (read_retry_count m) (length ids)

-- A post that keeps failing is put on the stream again, each time with a count that is one higher,
-- while the first count and the number of failures before this one make less than the maximum; from
-- there on it is put on the dead letter stream. In both cases the message is acknowledged after.
pub retries_bounded :
    (env : Env) (m : CrawlMessage) (ids : List Text) (exc : Exception) (h : Log)
    → let now = redelivered m ids in
      let tried = read_retry_count m +ℤ pos (length ids) in
      handle_failure env now exc h
      ≡ (if ltb_ℤ tried env.settings.crawl_max_retries
            then requeue env (insert (codes "retry_count") (show (tried +ℤ pos 1)) now.fields)
              >> ack_message env now.id
            else send_to_dlq env now (exception_text exc) >> ack_message env now.id)
          h
unfolding handle_failure retry_fields
retries_bounded env m ids exc h = rw (read_retry_count-redelivered m ids)

bad_count :
    (env : Env) (m : CrawlMessage) (text : Text)
    → get_set (codes "expected_count") m.fields ≡ some text
    → read_int text ≡ none
    → expected_count_of env m.fields
      ≡ err
          (builtin value_error (codes "invalid literal for int() with base 10: " ++ env.repr text))
unfolding expected_count_of parse_int
bad_count env m text e bad = rw (expected_count_of, e, parse_int, bad)

-- A message whose `expected_count` is neither missing, empty nor a number stops the worker: handling
-- it raises out of the loop over the messages, without a call, so that it is neither acknowledged nor
-- put on the dead letter stream, and the messages after it are not handled either.
pub poison_message :
    (env : Env) (m : CrawlMessage) (messages : List CrawlMessage) (text : Text) (h : Log)
    → get_set (codes "expected_count") m.fields ≡ some text
    → read_int text ≡ none
    → ((handle_all env (m ∷ messages) h).1 ≡ h)
      × (is_ok (handle_all env (m ∷ messages) h).0 ≡ false)
unfolding handle_all handle_message
poison_message env m messages text h e bad = rw (bad_count env m text e bad) (refl, refl)
