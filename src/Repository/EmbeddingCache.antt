-- ===== src/Repository/EmbeddingCache.antt =====
-- app/repository/embedding_cache.py: embeddings under the hash of their text.
use ject6_4th_ai_analyzer.Base.{
  ℕ, ◌+◌, Option, none, some, List, [], ◌∷◌, ◌++◌, map, Text, codes, is_empty, length, eqb,
  if◌then◌else◌,
}
use ject6_4th_ai_analyzer.Domain.Schemas.{Embedding}
use ject6_4th_ai_analyzer.Core.Exceptions.{Exception, builtin, value_error, json_decode_error}
use ject6_4th_ai_analyzer.Core.Effects.{
  Env, Exec, call, mget, pipeline_set, pure, raise, lift, Result, ok, err, ◌>>=◌,
}

-- 30 days
abbrev pub default_ttl_seconds : ℕ
default_ttl_seconds = 2592000

abbrev pub not_json : Exception
not_json = builtin json_decode_error (codes "not a list of floats")

module _ (env : Env) (model : Text) where
  unfoldable pub cache_key : Text → Text
  cache_key text = codes "embed:" ++ model ++ codes ":" ++ env.sha256 text

  -- The loop over the replies: the embeddings found, and the positions missed.
  unfoldable pub sort_replies : ℕ → List (Option Text) → Result (List (Option Embedding) × List ℕ)
  sort_replies i [] = ok ([], [])
  sort_replies i (none ∷ raw) = elim (sort_replies (i + 1) raw) [
    | ok (embeddings, misses) ↦ ok (none ∷ embeddings, i ∷ misses)
    | err e ↦ err e
  ]
  sort_replies i (some value ∷ raw) = elim (env.embedding_loads value) [
    | none ↦ err not_json
    | some emb ↦ elim (sort_replies (i + 1) raw) [
      | ok (embeddings, misses) ↦ ok (some emb ∷ embeddings, misses)
      | err e ↦ err e
    ]
  ]

  unfoldable pub get_many : List Text → Exec (List (Option Embedding) × List ℕ)
  unfolding cache_key sort_replies
  get_many texts =
      if is_empty texts
      then pure ([], [])
      else do raw ← call env (mget (map cache_key texts)); lift (sort_replies 0 raw)

  -- The writes of the pipeline, `zip(texts, embeddings)`.
  unfoldable pub cache_writes : List Text → List Embedding → List (Text × Text)
  cache_writes [] embeddings = []
  cache_writes (text ∷ texts) [] = []
  cache_writes (text ∷ texts) (emb ∷ embeddings) =
      (cache_key text, env.embedding_dumps emb) ∷ cache_writes texts embeddings

  unfoldable pub set_many : List Text → List Embedding → Exec Unit
  unfolding cache_key cache_writes
  set_many texts embeddings =
      if is_empty texts
      then pure tt
      else if eqb (length texts) (length embeddings)
      then call env (pipeline_set (cache_writes texts embeddings) default_ttl_seconds)
      else raise (builtin value_error (codes "texts and embeddings differ in length"))
