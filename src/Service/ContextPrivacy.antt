-- ===== src/Service/ContextPrivacy.antt =====
-- app/service/analysis_service.py and app/service/conversation_service.py: the context of a prompt, over a
-- database that answers the queries of context from its tables.
use ject6_4th_ai_analyzer.Base.{
  ℕ, ◌*◌, ◌/◌, ◌≡◌, refl, sym, ap, ◌∙◌, ◌&&◌, Option, none, some, List, [], ◌∷◌, Text, codes,
  is_empty, if◌then◌else◌,
}
use ject6_4th_ai_analyzer.Base.Int.{ℤ}
use ject6_4th_ai_analyzer.Domain.Schemas.{Embedding}
use ject6_4th_ai_analyzer.Core.Effects.{
  Env, Log, Result, ok, err, ContextChunk, call, avg_embedding, my_blog_context, ext_blog_context,
  job_posting_context,
}
use ject6_4th_ai_analyzer.Client.Llm.{embed}
use ject6_4th_ai_analyzer.Repository.ContextRetrieval.{
  Pgvector, Tables, find_my_blog_context, find_ext_blog_context, find_job_posting_context,
}
use ject6_4th_ai_analyzer.Repository.ContextRetrieval.Private.{open_tables, queries_open}
use ject6_4th_ai_analyzer.Service.AnalysisService.{chunks_text, rag_context_text, build_rag_context}
use ject6_4th_ai_analyzer.Service.ConversationPrompt.{retrieval_section, budgeted_text}
use ject6_4th_ai_analyzer.Service.ConversationService.{build_retrieval_section}

-- The database answers the queries of context from these tables.
pub record AnswersFrom (env : Env) (pg : Pgvector) (db : Tables) : Type 0 where
  pub at_own :
      (h : Log) (u : ℤ) (e : Embedding) (x : ℤ) (k : ℕ)
      → env.answer h (my_blog_context u e x k) ≡ ok (find_my_blog_context pg db u e x k)
  pub at_ext :
      (h : Log) (e : Embedding) (k : ℕ)
      → env.answer h (ext_blog_context e k) ≡ ok (find_ext_blog_context pg db e k)
  pub at_jobs :
      (h : Log) (e : Embedding) (k : ℕ)
      → env.answer h (job_posting_context e k) ≡ ok (find_job_posting_context pg db e k)

-- The context of an analysis from the average vector and the chunks found.
abbrev rag_of : List ContextChunk → List ContextChunk → List ContextChunk → Option Text
rag_of own ext jobs =
    if is_empty own && is_empty ext && is_empty jobs
    then none
    else some (
        rag_context_text (chunks_text (codes "관련 블로그 글 없음") own)
          (chunks_text (codes "관련 인플루언서 글 없음") ext) (chunks_text (codes "관련 공고 없음") jobs))

abbrev rag_context : Pgvector → Tables → ℤ → ℤ → Result (Option Embedding) → Result (Option Text)
rag_context pg db u d (err e) = ok none
rag_context pg db u d (ok none) = ok none
rag_context pg db u d (ok (some e)) = ok (
    rag_of (find_my_blog_context pg db u e d 3) (find_ext_blog_context pg db e 3)
      (find_job_posting_context pg db e 3))

module _ (env : Env) (pg : Pgvector) (db : Tables) (a : AnswersFrom env pg db) (d u : ℤ)
    (h : Log) where
  build_rag_context-answer :
      (r : Result (Option Embedding))
      → env.answer h (avg_embedding d) ≡ r
      → (build_rag_context env d u h).0 ≡ rag_context pg db u d r
  unfolding build_rag_context call
  build_rag_context-answer (err e) q = rw q
  build_rag_context-answer (ok none) q = rw q
  build_rag_context-answer (ok (some e)) q = rw (q, a.at_own, a.at_ext, a.at_jobs)

-- The same tables for the user give the same context.
rag_context-open :
    (pg : Pgvector) (db : Tables) (u d : ℤ) (r : Result (Option Embedding))
    → rag_context pg (open_tables u db) u d r ≡ rag_context pg db u d r
rag_context-open pg db u d (err e) = refl
rag_context-open pg db u d (ok none) = refl
rag_context-open pg db u d (ok (some e)) =
    let (own, ext, jobs) = queries_open pg db e 3 u d in rw (own, ext, jobs)

-- The context of an answer, with the budget of the session.
abbrev section_of : ℕ → List ContextChunk → List ContextChunk → Text
section_of budget own jobs =
    if is_empty own && is_empty jobs
    then []
    else retrieval_section (budgeted_text (codes "관련 글 없음") (budget * 40 * 4 / 100) own)
        (budgeted_text (codes "관련 공고 없음") (budget * 35 * 4 / 100) jobs)

abbrev retrieval : Pgvector → Tables → ℕ → ℤ → ℤ → Result (List Embedding) → Result Text
retrieval pg db budget u d (err e) = ok []
retrieval pg db budget u d (ok []) = ok []
retrieval pg db budget u d (ok (e ∷ es)) =
    ok (section_of budget (find_my_blog_context pg db u e d 3) (find_job_posting_context pg db e 3))

retrieval-open :
    (pg : Pgvector) (db : Tables) (budget : ℕ) (u d : ℤ) (r : Result (List Embedding))
    → retrieval pg (open_tables u db) budget u d r ≡ retrieval pg db budget u d r
retrieval-open pg db budget u d (err e) = refl
retrieval-open pg db budget u d (ok []) = refl
retrieval-open pg db budget u d (ok (e ∷ es)) =
    let (own, ext, jobs) = queries_open pg db e 3 u d in rw (own, jobs)

module _ (env : Env) (pg : Pgvector) (db : Tables) (a : AnswersFrom env pg db) (d u : ℤ)
    (query : Text) (h : Log) where
  build_retrieval_section-answer :
      (r : Result (List Embedding))
      → (embed env (query ∷ []) h).0 ≡ r
      → (build_retrieval_section env d u query h).0
        ≡ retrieval pg db env.settings.max_conversation_tokens u d r
  unfolding build_retrieval_section call
  build_retrieval_section-answer (err e) q = rw q
  build_retrieval_section-answer (ok []) q = rw q
  build_retrieval_section-answer (ok (e ∷ es)) q = rw (q, a.at_own, a.at_jobs)

-- What other users keep in their own blogs does not reach a prompt by the retrieval, while external blogs
-- and job postings are read whoever stored them. Between two databases that agree on the user's documents,
-- on the external blogs and the job postings of all users, and on the chunks of all these, whatever blog
-- posts and snapshots of other users they hold, the context of an analysis and that of a conversation are the same, where the average vector
-- of the document, the embedding of the question and the budget are. The databases answer the queries of
-- context from their tables.
pub context_private :
    (env other : Env) (pg : Pgvector) (db changed : Tables) (d u : ℤ) (query : Text) (h l : Log)
    → AnswersFrom env pg db
    → AnswersFrom other pg changed
    → open_tables u db ≡ open_tables u changed
    → env.answer h (avg_embedding d) ≡ other.answer l (avg_embedding d)
    → (embed env (query ∷ []) h).0 ≡ (embed other (query ∷ []) l).0
    → env.settings.max_conversation_tokens ≡ other.settings.max_conversation_tokens
    → ((build_rag_context env d u h).0 ≡ (build_rag_context other d u l).0)
      × ((build_retrieval_section env d u query h).0
          ≡ (build_retrieval_section other d u query l).0)
context_private env other pg db changed d u query h l a b same avg emb limit = (
  build_rag_context-answer env pg db a d u h _ refl
      ∙ sym (rag_context-open pg db u d _)
      ∙ ap (λ t. rag_context pg t u d (env.answer h (avg_embedding d))) same
      ∙ rag_context-open pg changed u d _
      ∙ ap (rag_context pg changed u d) avg
      ∙ sym (build_rag_context-answer other pg changed b d u l _ refl),
  build_retrieval_section-answer env pg db a d u query h _ refl
      ∙ sym (retrieval-open pg db _ u d _)
      ∙ ap
          (λ t.
            retrieval pg t env.settings.max_conversation_tokens u d (embed env (query ∷ []) h).0)
          same
      ∙ retrieval-open pg changed _ u d _
      ∙ ap (λ n. retrieval pg changed n u d (embed env (query ∷ []) h).0) limit
      ∙ ap (retrieval pg changed other.settings.max_conversation_tokens u d) emb
      ∙ sym (build_retrieval_section-answer other pg changed b d u query l _ refl),
)
