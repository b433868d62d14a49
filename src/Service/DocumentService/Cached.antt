-- ===== src/Service/DocumentService/Cached.antt =====
-- `_embed_with_cache` as a whole.
use ject6_4th_ai_analyzer.Base.{
  ℕ, suc, ◌≡◌, refl, ap, ◌∙◌, sym, false, Option, List, [], ◌∷◌, map, Text, codes, ◌==◌, text_eq,
  length, length-map, eqb_iff,
}
use ject6_4th_ai_analyzer.Domain.Schemas.{Embedding}
use ject6_4th_ai_analyzer.Core.Effects.{
  Env, Log, ok, call, mget, pipeline_set, create_embeddings, lift, ◌>>=◌, >>=-ok,
}
use ject6_4th_ai_analyzer.Client.Llm.{provider, selected_embedding_model, embed, embed_once}
use ject6_4th_ai_analyzer.Client.Llm.Retries.{StopsUnlessRetried, never_retries}
use ject6_4th_ai_analyzer.Repository.EmbeddingCache.{cache_key, get_many, set_many}
use ject6_4th_ai_analyzer.Service.DocumentService.{
  texts_at, next_miss, merge, fill_misses, embed_with_cache,
}
use ject6_4th_ai_analyzer.Service.DocumentService.Merge.{
  Matches, known, missing, positions, sort_replies-known, texts_at-missing, fill-known, merge-fill,
  present-known, length-missing, next_miss_total,
}

-- A world where `f` is the embedding of each text: the provider gives it, the cache holds nothing
-- else, and its writes succeed.
pub record Embeds (env : Env) (f : Text → Embedding) : Type 0 where
  pub not_demo : (provider env.settings == codes "demo") ≡ false
  pub provided :
      (h : Log) (ts : List Text) (d : Option ℕ)
      → env.answer h (create_embeddings (selected_embedding_model env.settings) ts d)
        ≡ ok (map f ts)
  pub found :
      (h : Log) (ts : List Text)
      → (raw : List (Option Text)) × (env.answer h
            (mget (map (cache_key env env.settings.embedding_model) ts))
          ≡ ok raw)
        × Matches f env.embedding_loads raw ts
  pub written :
      (h : Log) (ws : List (Text × Text)) (ttl : ℕ) → env.answer h (pipeline_set ws ttl) ≡ ok tt

module _ (env : Env) (f : Text → Embedding) (stops : StopsUnlessRetried env)
    (w : Embeds env f) where
  embed-map : (ts : List Text) (h : Log) → (embed env ts h).0 ≡ ok (map f ts)
  embed-map [] h = rw (((never_retries env stops h).0 []).0) (unfold embed_once in refl)
  embed-map (t ∷ ts) h =
      rw (((never_retries env stops h).0 (t ∷ ts)).0)
        (unfold embed_once call in rw w.not_demo (rw (w.provided h (t ∷ ts) _)))

  set_many_ok :
      (model : Text) (ts : List Text) (h : Log) → (set_many env model ts (map f ts) h).0 ≡ ok tt
  unfolding set_many call
  set_many_ok model [] h = refl
  set_many_ok model (t ∷ ts) h =
      rw ((eqb_iff _ _).1 (ap suc (sym (length-map ts f)))) (w.written h _ _)

  put_together :
      (raw : List (Option Text)) (ts : List Text) (i : ℕ) (is : List ℕ) (h : Log)
      → Matches f env.embedding_loads raw ts
      → positions 0 (known f raw ts) ≡ i ∷ is
      → ((lift (next_miss (i ∷ is) (map f (missing f raw ts))) >>= λ (next, is', es').
            lift (merge 0 (known f raw ts) next is' es'))
          h).0
        ≡ ok (map f ts)
  put_together raw ts i is h m e =
      let new = map f (missing f raw ts) in
      let same : length new ≡ length (positions 0 (known f raw ts)) =
        length-map (missing f raw ts) f ∙ length-missing f 0 raw ts in
      let (next, is', es', q) = next_miss_total (positions 0 (known f raw ts)) new same in
      rw (rw e at q) (
        merge-fill 0 (known f raw ts) new next is' es' same q
        ∙ ap ok (fill-known f env.embedding_loads raw ts m))

  merged :
      (raw : List (Option Text)) (ts : List Text) (i : ℕ) (is : List ℕ) (h : Log)
      → Matches f env.embedding_loads raw ts
      → positions 0 (known f raw ts) ≡ i ∷ is
      → (fill_misses env ts (known f raw ts, i ∷ is) h).0 ≡ ok (map f ts)
  unfolding fill_misses
  merged raw ts i is h m e =
      let tx : texts_at ts (i ∷ is) ≡ missing f raw ts =
        rw (← e) (texts_at-missing f [] 0 raw ts refl) in
      rw tx (
        ap (λ r. r.0) (>>=-ok (embed env (missing f raw ts)) _ h (embed-map (missing f raw ts) h))
        ∙ ap (λ r. r.0)
            (>>=-ok (set_many env env.settings.embedding_model (missing f raw ts) _) _ _
              (set_many_ok env.settings.embedding_model (missing f raw ts) _))
        ∙ put_together raw ts i is _ m e)

  filled :
      (raw : List (Option Text)) (ts : List Text) (is : List ℕ) (h : Log)
      → Matches f env.embedding_loads raw ts
      → positions 0 (known f raw ts) ≡ is
      → (fill_misses env ts (known f raw ts, is) h).0 ≡ ok (map f ts)
  filled raw ts [] h m e =
      unfold fill_misses in ap ok (present-known f env.embedding_loads 0 raw ts m e)
  filled raw ts (i ∷ is) h m e = merged raw ts i is h m e

  get_many-known :
      (ts : List Text) (h : Log)
      → (raw : List (Option Text)) × Matches f env.embedding_loads raw ts
        × ((get_many env env.settings.embedding_model ts h).0
            ≡ ok (known f raw ts, positions 0 (known f raw ts)))
  unfolding get_many
  get_many-known [] h = ([], tt, refl)
  get_many-known (t ∷ ts) h =
      let (raw, answered, m) = w.found h (t ∷ ts) in
      (
        raw,
        m,
        unfold call in
            rw answered (sort_replies-known f env env.settings.embedding_model 0 raw (t ∷ ts) m),
      )

-- Where the provider gives each text the embedding `f` of it, the cache holds nothing else, and its
-- writes succeed, `_embed_with_cache` returns, and gives each text its embedding, in the order of the
-- texts, whichever of them the cache holds. The provider is not the demo one, and `tenacity` is assumed
-- to make no second attempt after a result or an exception that its predicate refuses.
pub embed_with_cache_correct :
    (env : Env) (f : Text → Embedding)
    → StopsUnlessRetried env
    → Embeds env f
    → (ts : List Text) (h : Log) → (embed_with_cache env ts h).0 ≡ ok (map f ts)
unfolding embed_with_cache
embed_with_cache_correct env f stops w ts h =
    let (raw, m, got) = get_many-known env f stops w ts h in
    ap (λ r. r.0) (>>=-ok (get_many env env.settings.embedding_model ts) _ h got)
    ∙ filled env f stops w raw ts _ _ m refl
