-- ===== src/Tests/Profiles.antt =====
-- Profiles in a database that keeps its rows.
use ject6_4th_ai_analyzer.Base.{
  inl, ◌≡◌, refl, sym, ap, ◌∙◌, Bool, true, false, ◌&&◌, ◌||◌, Option, some, none, List, [], ◌∷◌,
  ◌++◌, Text, codes, ◌==◌, text_eq, list_beq_iff, strip, is_space, lower, starts_with,
  if◌then◌else◌, arith,
}
use ject6_4th_ai_analyzer.Base.Int.{ℤ, pos, int_eq, eqb_ℤ_iff}
use ject6_4th_ai_analyzer.Domain.Schemas.{Embedding}
use ject6_4th_ai_analyzer.Domain.Models.{ProfileEmbedding}
use ject6_4th_ai_analyzer.Core.Effects.{
  Env, Event, Log, Command, Reply, Result, ok, select_profile, insert_profile, call, commit, close,
  request,
}
use ject6_4th_ai_analyzer.Client.Llm.{
  provider, selected_embedding_model, supports_dimensions, embed_once, embed,
}
use ject6_4th_ai_analyzer.Service.ProfileEmbeddings.{
  first_embedding, store_embedding, request_embedding, found_or_embedded, embed_and_store,
}
use ject6_4th_ai_analyzer.Service.ProfileEmbeddings.Once.{
  KeepsProfiles, LooksUp, embed_and_store_once,
}
use ject6_4th_ai_analyzer.Tests.World.{world, answers, stored_profile}

abbrev has_hash : Option Text → Text → Bool
has_hash none hash = false
has_hash (some t) hash = t == hash

abbrev inserts : Command → ℤ → Text → Bool
inserts (insert_profile c) u hash = (c.user_id == u) && has_hash c.profile_hash hash
inserts _ u hash = false

abbrev is_stored : Log → ℤ → Text → Bool
is_stored [] u hash = false
is_stored (e ∷ h) u hash = inserts e.command u hash || is_stored h u hash

abbrev found : Bool → Option ProfileEmbedding
found b = if b then some (stored_profile (pos 5)) else none

abbrev kept_answers : Log → (c : Command) → Result (Reply c)
kept_answers h (select_profile u hash) = ok (found (is_stored h u hash))
kept_answers h c = answers none h c

abbrev keeping_world : Env
keeping_world = record world { answer = kept_answers }

stays :
    (es : List Event) (h : Log) (u : ℤ) (hash : Text)
    → is_stored h u hash ≡ true
    → is_stored (es ++ h) u hash ≡ true
stays [] h u hash e = e
stays (x ∷ es) h u hash e = let k = stays es h u hash e in ground arith

inserted :
    (h : Log) (u : ℤ) (hash : Text) (embedding : Embedding)
    → is_stored
        (record {
          command =
              insert_profile
                (record { user_id = u; embedding = embedding; profile_hash = some hash });
          succeeded = true;
        }
          ∷ h)
        u
        hash
      ≡ true
inserted h u hash embedding = rw ((eqb_ℤ_iff u u).1 refl, (list_beq_iff hash hash).1 refl)

found-inv : (b : Bool) (row : ProfileEmbedding) → ok (found b) ≡ ok (some row) → b ≡ true
found-inv true row e = refl
found-inv false row e = ground arith

keeps : KeepsProfiles keeping_world
keeps = record {
  found_again = λ h u hash row e es k.
      let stored = found-inv (is_stored h u hash) row e in
      inl (row, ap (λ b. ok (found b)) (stays es h u hash stored ∙ sym stored) ∙ e);
  found_inserted = λ h u hash embedding id e es k. inl (
    stored_profile (pos 5),
    ap (λ b. ok (found b)) (stays es _ u hash (inserted h u hash embedding)),
  );
}

abbrev profile : Text
profile = codes "I write about food and travel"

is_embedded : (embed_and_store keeping_world (pos 1) profile []).0 ≡ ok (stored_profile (pos 5))
unfolding embed_and_store found_or_embedded request_embedding store_embedding first_embedding call
    embed embed_once provider selected_embedding_model supports_dimensions lower strip starts_with
    is_space
is_embedded = refl

same_text : strip profile ≡ strip (codes "  I write about food and travel\n")
unfolding strip is_space
same_text = refl

-- The first request is committed and closed.
abbrev between : List Event
between =
    record { command = close request; succeeded = true }
    ∷ record { command = commit request; succeeded = true }
    ∷ []

embed_and_store_once_example :
    LooksUp keeping_world keeps
      (pos 1)
      (codes "  I write about food and travel\n")
      (between ++ (embed_and_store keeping_world (pos 1) profile []).1)
embed_and_store_once_example =
    embed_and_store_once keeping_world keeps (pos 1) profile
      (codes "  I write about food and travel\n") [] (stored_profile (pos 5)) same_text is_embedded
      between ((λ t. refl), ((λ t. cc), tt))
