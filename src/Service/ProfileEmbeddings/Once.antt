-- ===== src/Service/ProfileEmbeddings/Once.antt =====
-- app/service/profile_embedding_service.py: what a second request for the same profile does.
use ject6_4th_ai_analyzer.Base.{
  Bool, refl, ◌&&◌, ◌||◌, ◌⊎◌, ◌≡◌, sym, ap, subst, append_assoc, ◌∙◌, inl, inr, true, false,
  Option, none, some, List, [], ◌∷◌, ◌++◌, Text, strip, length, ltb, arith, Bool-cases,
}
use ject6_4th_ai_analyzer.Base.Int.{ℤ}
use ject6_4th_ai_analyzer.Domain.Schemas.{Embedding}
use ject6_4th_ai_analyzer.Domain.Models.{ProfileEmbedding}
use ject6_4th_ai_analyzer.Core.Exceptions.{Exception}
use ject6_4th_ai_analyzer.Core.Effects.{
  Env, Exec, Event, Log, Command, Result, ok, err, commit, rollback, close, request, call,
  select_profile, insert_profile, refresh_profile, is_ok, ◌>>=◌, >>=-ok, >>=-inv,
}
use ject6_4th_ai_analyzer.Service.ProfileEmbeddings.{
  first_embedding, store_embedding, request_embedding, found_or_embedded, embed_and_store,
}

-- The commands that end a transaction of a request, and the one that keeps what it did.
abbrev pub ends : Command → Bool
ends (rollback request) = true
ends (close request) = true
ends _ = false

abbrev pub commits : Command → Bool
commits (commit request) = true
commits _ = false

-- Of events, the latest first: a transaction has been committed.
abbrev pub is_committed : List Event → Bool
is_committed [] = false
is_committed (e ∷ es) = (e.succeeded && commits e.command) || is_committed es

-- No transaction ends before one has been committed: what was done before these events is not undone.
abbrev pub IsKept : List Event → Type 0
IsKept [] = Unit
IsKept (e ∷ es) = (ends e.command ≡ true → is_committed es ≡ true) × IsKept es

-- The lookup of a profile finds a row, unless it fails.
abbrev pub Finds : Env → ℤ → Text → Log → Type 0
Finds env u hash h =
    ((row : ProfileEmbedding) × (env.answer h (select_profile u hash) ≡ ok (some row)))
    ⊎ ((x : Exception) × (env.answer h (select_profile u hash) ≡ err x))

-- PostgreSQL keeps the rows: one that was found or inserted is found, unless its transaction ended without
-- a commit. The sessions of a log do not overlap, so that the first to end is the one of the row.
pub record KeepsProfiles (env : Env) : Type 0 where
  pub found_again :
      (h : Log) (u : ℤ) (hash : Text) (row : ProfileEmbedding)
      → env.answer h (select_profile u hash) ≡ ok (some row)
      → (es : List Event) → IsKept es
      → Finds env u hash (es ++ h)
  pub found_inserted :
      (h : Log) (u : ℤ) (hash : Text) (embedding : Embedding) (id : ℤ)
      → env.answer h
          (insert_profile (record { user_id = u; embedding = embedding; profile_hash = some hash }))
        ≡ ok id
      → (es : List Event) → IsKept es
      → Finds env u hash (
          es
          ++ record {
            command =
                insert_profile
                  (record { user_id = u; embedding = embedding; profile_hash = some hash });
            succeeded = true;
          }
            ∷ h)

is_committed-snoc :
    (es : List Event) (e : Event) → is_committed es ≡ true → is_committed (es ++ e ∷ []) ≡ true
is_committed-snoc [] e h = cc
is_committed-snoc (x ∷ es) e h = ground (arith, is_committed-snoc es e)

IsKept-snoc :
    (es : List Event) (e : Event) → ends e.command ≡ false → IsKept es → IsKept (es ++ e ∷ [])
IsKept-snoc [] e n k = (λ t. cc, tt)
IsKept-snoc (x ∷ es) e n (k, ks) = (λ t. is_committed-snoc es e (k t), IsKept-snoc es e n ks)

module _ (env : Env) (user_id : ℤ) (hash : Text) where
  -- The row is found at every log from here on.
  abbrev IsStoredAt : Log → Type 0
  IsStoredAt h = (es : List Event) → IsKept es → Finds env user_id hash (es ++ h)

  -- A run that returns leaves the row behind.
  abbrev Stores : Exec ProfileEmbedding → Type 0
  Stores m = (h : Log) (row : ProfileEmbedding) → (m h).0 ≡ ok row → IsStoredAt (m h).1

  Stores-bind :
      {A : Type 0} (m : Exec A) (f : A → Exec ProfileEmbedding)
      → ((a : A) → Stores (f a))
      → Stores (m >>= f)
  Stores-bind m f kf h row r =
      let (a, p, q) = >>=-inv m f h r in
      subst (λ (t : Result ProfileEmbedding × Log). IsStoredAt t.1) (sym (>>=-ok m f h p))
        (kf a (m h).1 row q)

  IsStoredAt-later :
      (e : Event) (h : Log) → ends e.command ≡ false → IsStoredAt h → IsStoredAt (e ∷ h)
  IsStoredAt-later e h n s es k =
      subst (Finds env user_id hash) (append_assoc es (e ∷ []) h)
        (s (es ++ e ∷ []) (IsKept-snoc es e n k))

  module _ (keeps : KeepsProfiles env) where
    store_embedding-Stores : (e : Embedding) → Stores (store_embedding env user_id hash e)
    unfolding store_embedding call
    store_embedding-Stores e h row r =
        let c =
          insert_profile (record { user_id = user_id; embedding = e; profile_hash = some hash }) in
        let refreshed = λ (id : ℤ). call env (refresh_profile id) in
        let (id, p, q) = >>=-inv (call env c) refreshed h r in
        let stored : IsStoredAt (record { command = c; succeeded = is_ok (env.answer h c) } ∷ h) =
          subst (λ (x : Result ℤ). IsStoredAt (record { command = c; succeeded = is_ok x } ∷ h))
            (sym p) (keeps.found_inserted h user_id hash e id p) in
        subst (λ (t : Result ProfileEmbedding × Log). IsStoredAt t.1)
          (sym (>>=-ok (call env c) refreshed h p)) (IsStoredAt-later _ _ refl stored)

module _ (env : Env) (keeps : KeepsProfiles env) (user_id : ℤ) where
  -- After the lookup.
  found_or_embedded-stores :
      (stripped : Text) (h : Log) (found : Option ProfileEmbedding) (e : Event)
      → ends e.command ≡ false
      → env.answer h (select_profile user_id (env.sha256 stripped)) ≡ ok found
      → (row : ProfileEmbedding) → (found_or_embedded env user_id stripped found (e ∷ h)).0 ≡ ok row
      → IsStoredAt env user_id
          (env.sha256 stripped)
          (found_or_embedded env user_id stripped found (e ∷ h)).1
  unfolding found_or_embedded
  found_or_embedded-stores stripped h none e n p row r =
      let hash = env.sha256 stripped in
      Stores-bind env user_id hash (request_embedding env stripped) _
        (λ embeddings.
          Stores-bind env user_id hash (first_embedding embeddings) _
            (store_embedding-Stores env user_id hash keeps))
        (e ∷ h) row r
  found_or_embedded-stores stripped h (some found) e n p row r =
      IsStoredAt-later env user_id (env.sha256 stripped) e h n
        (keeps.found_again h user_id (env.sha256 stripped) found p)

  abbrev look_up : Text → Exec (Option ProfileEmbedding)
  look_up stripped = call env (select_profile user_id (env.sha256 stripped))

  looked_up-Stores :
      (stripped : Text)
      → Stores env user_id
          (env.sha256 stripped)
          (look_up stripped >>= found_or_embedded env user_id stripped)
  unfolding call
  looked_up-Stores stripped h row r =
      let f = found_or_embedded env user_id stripped in
      let (found, p, q) = >>=-inv (look_up stripped) f h r in
      subst
        (λ (t : Result ProfileEmbedding × Log). IsStoredAt env user_id (env.sha256 stripped) t.1)
        (sym (>>=-ok (look_up stripped) f h p))
        (found_or_embedded-stores stripped h found _ refl p row q)

  short_raises :
      (t : Text) (h : Log) (row : ProfileEmbedding)
      → ltb (length (strip t)) 20 ≡ true
      → (embed_and_store env user_id t h).0 ≡ ok row
      → ⊥
  unfolding embed_and_store
  short_raises t h row e r = ground arith

  embed_and_store-long :
      (t : Text) (h : Log)
      → ltb (length (strip t)) 20 ≡ false
      → embed_and_store env user_id t h
        ≡ (look_up (strip t) >>= found_or_embedded env user_id (strip t)) h
  unfolding embed_and_store
  embed_and_store-long t h e = rw e

  -- A request that only looks the profile up, and returns the row or what the lookup raises.
  abbrev pub LooksUp : Text → Log → Type 0
  LooksUp t l =
      let c = select_profile user_id (env.sha256 (strip t)) in
      ((row : ProfileEmbedding) × (embed_and_store env user_id t l
          ≡ (ok row, record { command = c; succeeded = true } ∷ l)))
      ⊎ ((x : Exception) × (embed_and_store env user_id t l
            ≡ (err x, record { command = c; succeeded = false } ∷ l)))

  found-hit :
      (t : Text) (l : Log)
      → ltb (length (strip t)) 20 ≡ false
      → Finds env user_id (env.sha256 (strip t)) l
      → LooksUp t l
  unfolding found_or_embedded call
  found-hit t l e (inl (row, p)) = inl (row, embed_and_store-long t l e ∙ rw p)
  found-hit t l e (inr (x, p)) = inr (x, embed_and_store-long t l e ∙ rw p)

  is_found :
      (t : Text) (h : Log) (row : ProfileEmbedding)
      → ltb (length (strip t)) 20 ≡ false
      → (embed_and_store env user_id t h).0 ≡ ok row
      → IsStoredAt env user_id (env.sha256 (strip t)) (embed_and_store env user_id t h).1
  is_found t h row e r =
      subst
        (λ (x : Result ProfileEmbedding × Log). IsStoredAt env user_id (env.sha256 (strip t)) x.1)
        (sym (embed_and_store-long t h e))
        (looked_up-Stores (strip t) h row (ap (λ x. x.0) (sym (embed_and_store-long t h e)) ∙ r))

  -- A profile whose embedding has been returned is not embedded again, once it is committed: any later
  -- request for a text that is the same once stripped makes one call, the lookup, and returns the row
  -- that it finds, or raises what the lookup raises. Whatever has happened in between, no transaction of a
  -- request has ended before one was committed, and PostgreSQL keeps the rows that are committed.
  pub embed_and_store_once :
      (t t' : Text) (h : Log) (row : ProfileEmbedding)
      → strip t ≡ strip t'
      → (embed_and_store env user_id t h).0 ≡ ok row
      → (es : List Event) → IsKept es
      → LooksUp t' (es ++ (embed_and_store env user_id t h).1)
  embed_and_store_once t t' h row same r es k = elim (Bool-cases (ltb (length (strip t)) 20)) [
    | inl e ↦ absurd (short_raises t h row e r)
    | inr e ↦
        found-hit t' (es ++ (embed_and_store env user_id t h).1)
          (ap (λ s. ltb (length s) 20) (sym same) ∙ e)
          (subst (λ s. Finds env user_id (env.sha256 s) (es ++ (embed_and_store env user_id t h).1))
            same (is_found t h row e r es k))
  ]
