-- ===== src/Client/Llm.antt =====
-- app/client/llm_client.py: the choice of provider and model, `embed` and `chat` with the retries
-- around them. Semaphores and spans, which change no result, are left out. A temperature is in tenths.
pub mod Demo
pub mod Retries
pub mod Asks
use ject6_4th_ai_analyzer.Base.{
  ℕ, Bool, true, false, not, ◌&&◌, ◌||◌, Option, none, some, List, [], ◌∷◌, ◌++◌, map, Text, codes,
  ◌==◌, text_eq, is_empty, length, lower, starts_with, strip, splitlines, join, if◌then◌else◌,
}
use ject6_4th_ai_analyzer.Domain.Schemas.{Embedding, ChatMessage}
use ject6_4th_ai_analyzer.Core.Exceptions.{
  Exception, raised, llm_client_error, builtin, openai_rate_limit_error, openai_api_error,
  exception_text,
}
use ject6_4th_ai_analyzer.Core.Effects.{
  Env, Exec, call, create_embeddings, create_chat, ollama_chat, pure, raise, try_except, ◌>>=◌,
}
use ject6_4th_ai_analyzer.Core.Settings.{Settings}
use Demo.{demo_embedding, demo_analysis_result}

pub record ResponseFormat : Type 0 where
  pub kind : Text
  pub schema : Option Text

unfoldable pub provider : Settings → Text
provider s = lower s.llm_provider

unfoldable pub chat_model : Settings → Text
unfolding provider
chat_model s =
    if provider s == codes "ollama"
    then s.ollama_chat_model
    else if provider s == codes "gemini"
    then s.gemini_chat_model
    else s.llm_model

unfoldable pub selected_embedding_model : Settings → Text
unfolding provider
selected_embedding_model s =
    if provider s == codes "ollama"
    then s.ollama_embedding_model
    else if provider s == codes "gemini"
    then s.gemini_embedding_model
    else s.embedding_model

unfoldable pub supports_dimensions : Settings → Bool
unfolding provider selected_embedding_model
supports_dimensions s =
    if provider s == codes "openai"
    then starts_with (codes "text-embedding-3") (selected_embedding_model s)
    else if provider s == codes "gemini"
    then starts_with (codes "gemini-embedding") (selected_embedding_model s)
    else false

-- `retry_if_exception_type((RateLimitError, APIError))`, the classes of the `openai` package
unfoldable pub is_retried : Exception → Bool
is_retried (builtin openai_rate_limit_error _) = true
is_retried (builtin openai_api_error _) = true
is_retried _ = false

-- The lines that do not begin with a fence.
unfoldable pub unfenced_lines : List Text → List Text
unfenced_lines [] = []
unfenced_lines (line ∷ lines) =
    let rest = unfenced_lines lines in
    if starts_with (codes "```") (strip line) then rest else line ∷ rest

unfoldable pub clean_content : Text → Text → Text
unfolding unfenced_lines
clean_content p content =
    if p == codes "ollama" && starts_with (codes "```") content
    then join (codes "\n") (unfenced_lines (splitlines (strip content)))
    else content

-- `response_format and response_format.get("type") == "json_object"`
abbrev pub wants_json : Option ResponseFormat → Bool
wants_json none = false
wants_json (some f) = f.kind == codes "json_object"

abbrev pub schema_of : Option ResponseFormat → Option Text
schema_of none = none
schema_of (some f) = f.schema

abbrev pub kind_of : Option ResponseFormat → Option Text
kind_of none = none
kind_of (some f) = some f.kind

-- `content or ""`
abbrev pub or_empty : Option Text → Text
or_empty none = []
or_empty (some t) = t

abbrev pub llm_failure : Text → Exception → Exception
llm_failure prefix exc = raised llm_client_error (prefix ++ exception_text exc) none

module _ (env : Env) where
  unfoldable pub count_tokens : Text → ℕ
  count_tokens text = length (env.encoder.encode text)

  -- The body of `embed`, under the decorator.
  unfoldable pub embed_once : List Text → Exec (List Embedding)
  unfolding provider
  embed_once texts =
      if is_empty texts
      then pure []
      else if provider env.settings == codes "demo"
      then pure (map (λ _. demo_embedding) texts)
      else try_except
          (call env (
            create_embeddings (selected_embedding_model env.settings) texts
              (if supports_dimensions env.settings then some env.settings.embedding_dim else none)))
          (λ exc. raise (llm_failure (codes "embedding failed: ") exc))

  unfoldable pub embed : List Text → Exec (List Embedding)
  unfolding is_retried
  embed texts = env.retry (List Embedding) 3 is_retried (embed_once texts)

  unfoldable pub chat_ollama_native_json : List ChatMessage → ℕ → ℕ → Option Text → Exec Text
  chat_ollama_native_json messages temperature max_tokens schema =
      try_except
        (do
          content ← call env (
              ollama_chat (env.settings.ollama_base_url ++ codes "/api/chat")
                (chat_model env.settings) messages temperature max_tokens schema)
          pure (or_empty content))
        (λ exc. raise (llm_failure (codes "chat completion failed: ") exc))

  unfoldable pub chat_once : List ChatMessage → ℕ → ℕ → Option ResponseFormat → Exec Text
  unfolding provider chat_ollama_native_json clean_content
  chat_once messages temperature max_tokens response_format =
      let p = provider env.settings in
      if p == codes "demo"
      then pure (demo_analysis_result env.json_dumps)
      else if p == codes "ollama" && wants_json response_format
      then chat_ollama_native_json messages temperature max_tokens (schema_of response_format)
      else try_except
          (do
            content ← call env (
                create_chat (chat_model env.settings) messages temperature max_tokens (
                  if p == codes "openai" || p == codes "gemini"
                  then kind_of response_format
                  else none))
            pure (clean_content p (or_empty content)))
          (λ exc. raise (llm_failure (codes "chat completion failed: ") exc))

  unfoldable pub chat : List ChatMessage → ℕ → ℕ → Option ResponseFormat → Exec Text
  unfolding is_retried
  chat messages temperature max_tokens response_format =
      env.retry Text 3 is_retried (chat_once messages temperature max_tokens response_format)
