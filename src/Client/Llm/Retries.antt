-- ===== src/Client/Llm/Retries.antt =====
-- What the decorator `retry` adds to `embed` and `chat`.
use ject6_4th_ai_analyzer.Base.{
  ℕ, ◌+◌, ◌≤◌, ◌≡◌, Bool, false, Option, List, Text, text_eq, arith, length,
}
use ject6_4th_ai_analyzer.Domain.Schemas.{ChatMessage}
use ject6_4th_ai_analyzer.Core.Exceptions.{Exception}
use ject6_4th_ai_analyzer.Core.Effects.{Env, Exec, Log, err, call}
use ject6_4th_ai_analyzer.Client.Llm.{
  is_retried, embed_once, embed, chat_once, chat, ResponseFormat,
}

-- tenacity makes no second attempt after a result, nor after an exception that the predicate refuses;
-- with `reraise` the caller then gets what the attempt gave.
abbrev pub StopsUnlessRetried : Env → Type 1
StopsUnlessRetried env =
    (A : Type 0) (n : ℕ) (p : Exception → Bool) (m : Exec A) (h : Log)
    → ((e : Exception) → (m h).0 ≡ err e → p e ≡ false)
    → env.retry A n p m h ≡ m h

module _ (env : Env) where
  embed_once_error :
      (texts : List Text) (h : Log) (e : Exception)
      → (embed_once env texts h).0 ≡ err e
      → is_retried e ≡ false
  unfolding embed_once is_retried call
  embed_once_error texts h e r = ground arith

  length-embed_once :
      (texts : List Text) (h : Log) → length (embed_once env texts h).1 ≤ length h + 1
  unfolding embed_once call
  length-embed_once texts h = ground arith

  chat_once_error :
      (ms : List ChatMessage) (t n : ℕ) (f : Option ResponseFormat) (h : Log) (e : Exception)
      → (chat_once env ms t n f h).0 ≡ err e
      → is_retried e ≡ false
  unfolding chat_once is_retried call
  chat_once_error ms t n f h e r = ground arith

  length-chat_once :
      (ms : List ChatMessage) (t n : ℕ) (f : Option ResponseFormat) (h : Log)
      → length (chat_once env ms t n f h).1 ≤ length h + 1
  unfolding chat_once call
  length-chat_once ms t n f h = ground arith

-- `embed` and `chat` never make the second attempt that their decorator is there for: each run of
-- one is a run of its body, which asks a provider at most once, whatever the provider raises, since
-- the body turns every exception into an `LLMClientError`, on which the decorator does not retry.
pub never_retries :
    (env : Env)
    → StopsUnlessRetried env
    → (h : Log)
    → ((texts : List Text)
        → (embed env texts h ≡ embed_once env texts h)
          × (length (embed env texts h).1 ≤ length h + 1))
      × ((ms : List ChatMessage) (t n : ℕ) (f : Option ResponseFormat)
          → (chat env ms t n f h ≡ chat_once env ms t n f h)
            × (length (chat env ms t n f h).1 ≤ length h + 1))
unfolding embed chat
never_retries env stops h = (
  λ texts.
      let once = stops _ 3 is_retried (embed_once env texts) h (embed_once_error env texts h) in
      (once, rw once (length-embed_once env texts h)),
  λ ms t n f.
      let once = stops _ 3 is_retried (chat_once env ms t n f) h (chat_once_error env ms t n f h) in
      (once, rw once (length-chat_once env ms t n f h)),
)
