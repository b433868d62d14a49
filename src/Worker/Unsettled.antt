-- ===== src/Worker/Unsettled.antt =====
-- The parts of the program that leave the messages of the queues alone: none of their calls
-- acknowledges a message or rejects one.
use ject6_4th_ai_analyzer.Base.{
  ℕ, Option, none, List, [], ◌∷◌, Text, text_eq, is_empty, length, eqb,
}
use ject6_4th_ai_analyzer.Base.Int.{ℤ}
use ject6_4th_ai_analyzer.Domain.Schemas.{Embedding, ChunkRequest}
use ject6_4th_ai_analyzer.Domain.Models.{Document}
use ject6_4th_ai_analyzer.Core.Effects.{
  Env, Exec, Command, Scope, call, open_session, commit, rollback, close, xack, ack, reject,
  pipeline_set, select_document,
}
use ject6_4th_ai_analyzer.Core.Effects.Issues.{
  IsTrace, Traces, Only, Only-IsTrace, Traces-pure, Traces-raise, Traces-lift, Traces-if,
  Traces-option, Traces-try, Traces-bind, Traces-finally, Traces-call,
}
use ject6_4th_ai_analyzer.Core.Session.{session_scope}
use ject6_4th_ai_analyzer.Client.Llm.{embed}
use ject6_4th_ai_analyzer.Client.Llm.Asks.{AllowsProviders, Traces-embed}
use ject6_4th_ai_analyzer.Client.Llm.Retries.{StopsUnlessRetried}
use ject6_4th_ai_analyzer.Repository.EmbeddingCache.{get_many, set_many}
use ject6_4th_ai_analyzer.Repository.Documents.{
  create, get_by_id, find_by_external_id, add_chunks, delete_chunks_by_document,
}
use ject6_4th_ai_analyzer.Service.Chunker.{TextChunk, init_chunker}
use ject6_4th_ai_analyzer.Service.DocumentService.{
  next_miss, fill_misses, embed_with_cache, find_existing, upsert_document, store_chunks,
  ingest_and_chunk, init_service,
}
use ject6_4th_ai_analyzer.Service.BlogSnapshot.{
  find_existing_snapshot, collect_posts, store_snapshot, create_snapshot,
}

-- The message is taken off its queue for good.
abbrev pub Settles : Command → Type 0
Settles (xack _ _ _) = Unit
Settles ack = Unit
Settles (reject _) = Unit
Settles _ = ⊥

abbrev pub Spares : Command → Type 0
Spares c = Settles c → ⊥

abbrev pub Unsettled : {A : Type 0} → Exec A → Type 0
Unsettled m = Traces (Only Spares) m

abbrev pub spares : IsTrace (Only Spares)
spares = Only-IsTrace Spares

providers_spared : AllowsProviders (Only Spares)
providers_spared = record {
  embeddings = λ model texts d b. (λ x. x, tt);
  chats = λ model ms t n kind b. (λ x. x, tt);
  native_chats = λ url model ms t n schema b. (λ x. x, tt);
}

module _ (env : Env) where
  pub Unsettled-call : (c : Command) → Spares c → Unsettled (call env c)
  Unsettled-call c p = Traces-call spares env c (λ _. (p, tt))

  pub Unsettled-session_scope :
      {A : Type 0} (scope : Scope) (body : Exec A)
      → Unsettled body
      → Unsettled (session_scope env scope body)
  unfolding session_scope
  Unsettled-session_scope scope body k =
      Traces-bind spares _ _ (Unsettled-call (open_session scope) (λ x. x)) λ _.
        Traces-finally spares _ _
          (Traces-try spares _ _
            (Traces-bind spares _ _ k λ a.
              Traces-bind spares _ _ (Unsettled-call (commit scope) (λ x. x))
                λ _. Traces-pure spares a)
            λ exc.
              Traces-bind spares _ _ (Unsettled-call (rollback scope) (λ x. x))
                λ _. Traces-raise spares exc)
          (Unsettled-call (close scope) (λ x. x))

  Unsettled-set_many :
      (model : Text) (texts : List Text) (embs : List Embedding)
      → Unsettled (set_many env model texts embs)
  unfolding set_many
  Unsettled-set_many model texts embs =
      Traces-if spares (is_empty texts) _ _ (Traces-pure spares tt) (
        Traces-if spares (eqb (length texts) (length embs)) _ _
          (Unsettled-call (pipeline_set _ _) (λ x. x)) (Traces-raise spares _))

  Unsettled-get_many : (model : Text) (texts : List Text) → Unsettled (get_many env model texts)
  unfolding get_many
  Unsettled-get_many model texts =
      Traces-if spares (is_empty texts) _ _ (Traces-pure spares _)
        (Traces-bind spares _ _ (Unsettled-call _ (λ x. x)) λ raw. Traces-lift spares _)

  pub Unsettled-init_service : Unsettled (init_service env)
  unfolding init_service
  Unsettled-init_service =
      Traces-option spares
        (init_chunker env.settings.chunk_size_tokens env.settings.chunk_overlap_tokens env.encoder)
        _ _ (Traces-raise spares _) λ _. Traces-pure spares tt

  module _ (stops : StopsUnlessRetried env) where
    pub Unsettled-embed : (texts : List Text) → Unsettled (embed env texts)
    Unsettled-embed = Traces-embed spares providers_spared env stops

    Unsettled-fill_misses :
        (texts : List Text) (found : List (Option Embedding) × List ℕ)
        → Unsettled (fill_misses env texts found)
    unfolding fill_misses
    Unsettled-fill_misses texts (cached, []) = Traces-pure spares _
    Unsettled-fill_misses texts (cached, i ∷ is) = Traces-bind spares _ _ (Unsettled-embed _) λ new.
        Traces-bind spares _ _ (Unsettled-set_many _ _ new) λ _.
          Traces-bind spares _ _ (Traces-lift spares (next_miss (i ∷ is) new))
            λ _. Traces-lift spares _

    Unsettled-embed_with_cache : (texts : List Text) → Unsettled (embed_with_cache env texts)
    unfolding embed_with_cache
    Unsettled-embed_with_cache texts =
        Traces-bind spares _ _ (Unsettled-get_many _ texts) (Unsettled-fill_misses texts)

    Unsettled-store_chunks :
        (document_id : ℤ) (chunks : List TextChunk)
        → Unsettled (store_chunks env document_id chunks)
    unfolding store_chunks add_chunks
    Unsettled-store_chunks document_id chunks =
        Traces-if spares (is_empty chunks) _ _ (Traces-pure spares _) (
          Traces-bind spares _ _ (Unsettled-embed_with_cache _) λ embeddings.
            Traces-bind spares _ _ (Traces-lift spares _) λ entities.
              Traces-bind spares _ _ (Unsettled-call _ (λ x. x)) λ _. Traces-pure spares _)

    Unsettled-find_existing : (r : ChunkRequest) → Unsettled (find_existing env r)
    unfolding find_existing find_by_external_id
    Unsettled-find_existing r =
        Traces-option spares r.external_id _ _ (Traces-pure spares none) λ id.
          Traces-if spares (is_empty id) _ _ (Traces-pure spares none)
            (Unsettled-call (select_document _ _ _) (λ x. x))

    Unsettled-upsert_document : (r : ChunkRequest) → Unsettled (upsert_document env r)
    unfolding upsert_document create delete_chunks_by_document
    Unsettled-upsert_document r = Traces-bind spares _ _ (Unsettled-find_existing r) λ existing.
        Traces-option spares existing _ _
          (Traces-bind spares _ _ (Unsettled-call _ (λ x. x)) λ id. Traces-pure spares _)
          λ doc.
            Traces-bind spares _ _ (Unsettled-call _ (λ x. x))
              λ _. Traces-bind spares _ _ (Unsettled-call _ (λ x. x)) λ _. Traces-pure spares _

    pub Unsettled-ingest_and_chunk : (r : ChunkRequest) → Unsettled (ingest_and_chunk env r)
    unfolding ingest_and_chunk
    Unsettled-ingest_and_chunk r =
        Traces-option spares
          (init_chunker env.settings.chunk_size_tokens env.settings.chunk_overlap_tokens
            env.encoder)
          _ _ (Traces-raise spares _)
          λ chunker.
            Traces-bind spares _ _ (Unsettled-upsert_document r)
              λ document. Unsettled-store_chunks _ _

    Unsettled-collect_posts : (ids : List ℤ) → Unsettled (collect_posts env ids)
    unfolding collect_posts get_by_id
    Unsettled-collect_posts [] = Traces-pure spares _
    Unsettled-collect_posts (id ∷ ids) =
        Traces-bind spares _ _ (Unsettled-call _ (λ x. x))
          λ doc. Traces-bind spares _ _ (Unsettled-collect_posts ids) λ posts. Traces-pure spares _

    Unsettled-store_snapshot :
        (user_id : ℤ) (blog_id : Option ℤ) (batch_id : Text) (ids : List ℤ)
        (correlation_id : Option Text) (posts : List Document)
        → Unsettled (store_snapshot env user_id blog_id batch_id ids correlation_id posts)
    unfolding store_snapshot
    Unsettled-store_snapshot user_id blog_id batch_id ids correlation_id [] = Traces-raise spares _
    Unsettled-store_snapshot user_id blog_id batch_id ids correlation_id (post ∷ posts) =
        Traces-bind spares _ _ (Unsettled-ingest_and_chunk _) λ response. Traces-pure spares _

    pub Unsettled-create_snapshot :
        (user_id : ℤ) (blog_id : Option ℤ) (batch_id : Text) (ids : List ℤ)
        (correlation_id : Option Text)
        → Unsettled (create_snapshot env user_id blog_id batch_id ids correlation_id)
    unfolding create_snapshot find_existing_snapshot find_by_external_id
    Unsettled-create_snapshot user_id blog_id batch_id ids correlation_id =
        Traces-bind spares _ _
          (Traces-bind spares _ _ (Unsettled-call _ (λ x. x)) λ _. Traces-pure spares _)
          λ existing.
            Traces-option spares existing _ _
              (Traces-bind spares _ _ (Unsettled-collect_posts ids)
                λ posts. Unsettled-store_snapshot user_id blog_id batch_id ids correlation_id posts)
              λ id. Traces-pure spares _
