-- ===== src/Client/Llm/Asks.antt =====
-- app/client/llm_client.py: the calls that `embed` and `chat` make, for any property of runs of calls
-- that those calls have.
use ject6_4th_ai_analyzer.Base.{
  ℕ, Bool, ◌&&◌, Option, List, [], ◌∷◌, Text, codes, ◌==◌, text_eq, is_empty,
}
use ject6_4th_ai_analyzer.Domain.Schemas.{ChatMessage}
use ject6_4th_ai_analyzer.Core.Effects.{Env, Event, create_embeddings, create_chat, ollama_chat}
use ject6_4th_ai_analyzer.Core.Effects.Issues.{
  IsTrace, Traces, Traces-pure, Traces-raise, Traces-if, Traces-try, Traces-bind, Traces-call,
}
use ject6_4th_ai_analyzer.Client.Llm.{
  ResponseFormat, provider, wants_json, embed_once, embed, chat, chat_once, chat_ollama_native_json,
}
use ject6_4th_ai_analyzer.Client.Llm.Retries.{StopsUnlessRetried, never_retries}

-- The property holds of each request to a provider, whether it returns or raises.
pub record AllowsProviders (P : List Event → Type 0) : Type 0 where
  pub embeddings :
      (model : Text) (texts : List Text) (d : Option ℕ) (b : Bool)
      → P (record { command = create_embeddings model texts d; succeeded = b } ∷ [])
  pub chats :
      (model : Text) (ms : List ChatMessage) (t n : ℕ) (kind : Option Text) (b : Bool)
      → P (record { command = create_chat model ms t n kind; succeeded = b } ∷ [])
  pub native_chats :
      (url model : Text) (ms : List ChatMessage) (t n : ℕ) (schema : Option Text) (b : Bool)
      → P (record { command = ollama_chat url model ms t n schema; succeeded = b } ∷ [])

module _ {P : List Event → Type 0} (trace : IsTrace P) (allows : AllowsProviders P)
    (env : Env) where
  Traces-embed_once : (texts : List Text) → Traces P (embed_once env texts)
  unfolding embed_once
  Traces-embed_once texts = Traces-if trace (is_empty texts) _ _ (Traces-pure trace _) (
      Traces-if trace (provider env.settings == codes "demo") _ _ (Traces-pure trace _) (
        Traces-try trace _ _
          (Traces-call trace env (create_embeddings _ texts _) (allows.embeddings _ texts _))
          λ exc. Traces-raise trace _))

  Traces-chat_once :
      (ms : List ChatMessage) (t n : ℕ) (f : Option ResponseFormat)
      → Traces P (chat_once env ms t n f)
  unfolding chat_once chat_ollama_native_json
  Traces-chat_once ms t n f =
      Traces-if trace (provider env.settings == codes "demo") _ _ (Traces-pure trace _) (
        Traces-if trace ((provider env.settings == codes "ollama") && wants_json f) _ _
          (Traces-try trace _ _
            (Traces-bind trace _ _
              (Traces-call trace env (ollama_chat _ _ ms t n _) (allows.native_chats _ _ ms t n _))
              λ content. Traces-pure trace _)
            λ exc. Traces-raise trace _)
          (Traces-try trace _ _
            (Traces-bind trace _ _
              (Traces-call trace env (create_chat _ ms t n _) (allows.chats _ ms t n _))
              λ content. Traces-pure trace _)
            λ exc. Traces-raise trace _))

  module _ (stops : StopsUnlessRetried env) where
    pub Traces-embed : (texts : List Text) → Traces P (embed env texts)
    Traces-embed texts = record {
      at = λ h. rw (((never_retries env stops h).0 texts).0) ((Traces-embed_once texts).at h);
    }

    pub Traces-chat :
        (ms : List ChatMessage) (t n : ℕ) (f : Option ResponseFormat) → Traces P (chat env ms t n f)
    Traces-chat ms t n f = record {
      at = λ h. rw (((never_retries env stops h).1 ms t n f).0) ((Traces-chat_once ms t n f).at h);
    }
