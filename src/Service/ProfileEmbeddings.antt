-- ===== src/Service/ProfileEmbeddings.antt =====
-- app/service/profile_embedding_service.py: the embedding of a profile, stored once for each text.
pub mod Once
use ject6_4th_ai_analyzer.Base.{
  Option, none, some, List, [], ◌∷◌, ◌++◌, Text, codes, strip, length, ltb, if◌then◌else◌,
}
use ject6_4th_ai_analyzer.Base.Int.{ℤ}
use ject6_4th_ai_analyzer.Domain.Schemas.{Embedding}
use ject6_4th_ai_analyzer.Domain.Models.{ProfileEmbedding}
use ject6_4th_ai_analyzer.Core.Exceptions.{
  raised, validation_error, llm_client_error, exception_text,
}
use ject6_4th_ai_analyzer.Core.Effects.{
  Env, Exec, call, select_profile, insert_profile, refresh_profile, pure, raise, try_except, ◌>>=◌,
}
use ject6_4th_ai_analyzer.Client.Llm.{embed}

-- `if not embeddings or not embeddings[0]: raise`, and otherwise `embeddings[0]`
unfoldable pub first_embedding : List Embedding → Exec Embedding
first_embedding ((x ∷ xs) ∷ _) = pure (x ∷ xs)
first_embedding _ = raise (raised llm_client_error (codes "LLM returned empty embedding") none)

module _ (env : Env) where
  -- `add`, `flush` and `refresh`
  unfoldable pub store_embedding : ℤ → Text → Embedding → Exec ProfileEmbedding
  store_embedding user_id profile_hash embedding = do
    id ← call env (
        insert_profile
          (record { user_id = user_id; embedding = embedding; profile_hash = some profile_hash }))
    call env (refresh_profile id)

  unfoldable pub request_embedding : Text → Exec (List Embedding)
  request_embedding stripped = try_except (embed env (stripped ∷ [])) (λ exc.
      raise (raised llm_client_error (codes "embedding failed: " ++ exception_text exc) none))

  -- `if existing is not None: return existing`, and what follows it
  unfoldable pub found_or_embedded : ℤ → Text → Option ProfileEmbedding → Exec ProfileEmbedding
  unfolding first_embedding store_embedding request_embedding
  found_or_embedded user_id stripped (some existing) = pure existing
  found_or_embedded user_id stripped none = do
    embeddings ← request_embedding stripped
    embedding ← first_embedding embeddings
    store_embedding user_id (env.sha256 stripped) embedding

  unfoldable pub embed_and_store : ℤ → Text → Exec ProfileEmbedding
  unfolding found_or_embedded
  embed_and_store user_id profile_text =
      let stripped = strip profile_text in
      if ltb (length stripped) 20
      then raise (
          raised validation_error
            (codes "profile_text must be at least 20 characters after stripping") none)
      else do
        existing ← call env (select_profile user_id (env.sha256 stripped))
        found_or_embedded user_id stripped existing
