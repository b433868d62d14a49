-- ===== src/Service/QueryRewriter/Fallback.antt =====
-- app/service/query_rewriter.py: a search can always go on.
use ject6_4th_ai_analyzer.Base.{
  ◌≡◌, refl, ◌⊎◌, inl, inr, false, some, [], Text, strip, is_empty, arith, Bool-cases,
}
use ject6_4th_ai_analyzer.Domain.Enums.{SourceType, my_blog, ext_blog, job_posting, blog_snapshot}
use ject6_4th_ai_analyzer.Core.Effects.{Env, Log, Result, ok, err, pure, continue, handle}
use ject6_4th_ai_analyzer.Service.QueryRewriter.{
  hyde_job_prompt, hyde_blog_prompt, select_prompt, ask_model, stripped_or, rewrite,
}

-- The query that a search goes on with.
abbrev pub IsQueryOf : Text → Result Text → Text → Type 0
IsQueryOf text answer t = (t ≡ text) ⊎ ((a : Text) × (answer ≡ ok a) × (t ≡ strip a) × (t ≡ [] → ⊥))

nonempty : (t : Text) → is_empty t ≡ false → t ≡ [] → ⊥
nonempty t h e = ground arith

stripped_or-IsQueryOf : (text a : Text) → IsQueryOf text (ok a) (stripped_or text a)
unfolding stripped_or
stripped_or-IsQueryOf text a = elim (Bool-cases (is_empty (strip a))) [
  | inl e ↦ inl (rw e)
  | inr e ↦ inr (a, refl, rw e, λ s. nonempty (strip a) e (rw e at s))
]

answered :
    (text : Text) (r : Result Text) (h : Log)
    → (t : Text) × (handle
          (continue r (λ a. pure (stripped_or text a)) h).0
          (λ _. pure text)
          (continue r (λ a. pure (stripped_or text a)) h).1
        ≡ (ok t, h))
      × IsQueryOf text r t
answered text (ok a) h = (stripped_or text a, refl, stripped_or-IsQueryOf text a)
answered text (err e) h = (text, refl, inl refl)

-- Rewriting never raises, whatever the provider does. For a posting and a foreign blog there is a
-- prompt, and the query is the text itself, or what the model answered to that prompt, stripped and
-- not empty; the only calls are those of the model. Any other text stays as it is without a call.
pub rewrite_falls_back :
    (env : Env) (s : SourceType) (text : Text) (h : Log)
    → (((s ≡ my_blog) ⊎ (s ≡ blog_snapshot)) × (rewrite env s text h ≡ (ok text, h)))
      ⊎ (((s ≡ job_posting) ⊎ (s ≡ ext_blog))
          × ((prompt : Text) × (select_prompt s ≡ some prompt)
              × (t : Text) × (rewrite env s text h ≡ (ok t, (ask_model env prompt text h).1))
              × IsQueryOf text (ask_model env prompt text h).0 t))
unfolding rewrite
rewrite_falls_back env my_blog text h = inl (inl refl, refl)
rewrite_falls_back env blog_snapshot text h = inl (inr refl, refl)
rewrite_falls_back env job_posting text h =
    let asked = ask_model env hyde_job_prompt text h in
    let (t, e, q) = answered text asked.0 asked.1 in
    inr (inl refl, (hyde_job_prompt, refl, t, e, q))
rewrite_falls_back env ext_blog text h =
    let asked = ask_model env hyde_blog_prompt text h in
    let (t, e, q) = answered text asked.0 asked.1 in
    inr (inr refl, (hyde_blog_prompt, refl, t, e, q))
