-- ===== src/Repository/Conversations.antt =====
-- app/repository/conversation_repository.py: the history and the token count of a session, in Redis.
pub mod History
pub mod Counter
use ject6_4th_ai_analyzer.Base.{ℕ, none, some, List, [], ◌∷◌, ◌++◌, Text, codes}
use ject6_4th_ai_analyzer.Base.Int.{ℤ}
use ject6_4th_ai_analyzer.Domain.Schemas.{ChatMessage}
use ject6_4th_ai_analyzer.Core.Exceptions.{builtin, value_error}
use ject6_4th_ai_analyzer.Core.Parsing.{int_or_zero}
use ject6_4th_ai_analyzer.Core.Effects.{
  Env, Exec, Result, ok, err, call, lrange, rpush, expire, get, incrby, delete, pure, lift, ◌>>=◌,
  ◌>>◌,
}

abbrev pub session_key : Text → Text
session_key session_id = codes "chat:session:" ++ session_id

abbrev pub token_key : Text → Text
token_key session_id = codes "chat:tokens:" ++ session_id

module _ (env : Env) where
  -- `[ChatMessage.model_validate(json.loads(raw)) for raw in raw_list]`; the text of pydantic's exception is
  -- not kept.
  unfoldable pub load_messages : List Text → Result (List ChatMessage)
  load_messages [] = ok []
  load_messages (raw ∷ raw_list) = elim (env.message_loads raw) [
    | none ↦ err (builtin value_error (codes "not a chat message"))
    | some message ↦ elim (load_messages raw_list) [
      | ok messages ↦ ok (message ∷ messages)
      | err e ↦ err e
    ]
  ]

  unfoldable pub get_messages : Text → Exec (List ChatMessage)
  unfolding load_messages
  get_messages session_id = do
    raw_list ← call env (lrange (session_key session_id))
    lift (load_messages raw_list)

  unfoldable pub append_message : Text → ChatMessage → Exec Unit
  append_message session_id message =
      call env (rpush (session_key session_id) (env.message_dumps message))
      >> call env (expire (session_key session_id) env.settings.conversation_ttl_seconds)

  unfoldable pub get_token_usage : Text → Exec ℤ
  get_token_usage session_id = do
    value ← call env (get (token_key session_id))
    lift (int_or_zero env value)

  unfoldable pub add_token_usage : Text → ℕ → Exec ℤ
  add_token_usage session_id tokens = do
    new_total ← call env (incrby (token_key session_id) tokens)
    call env (expire (token_key session_id) env.settings.conversation_ttl_seconds)
    pure new_total

  unfoldable pub clear : Text → Exec Unit
  clear session_id = call env (delete (session_key session_id ∷ token_key session_id ∷ []))
