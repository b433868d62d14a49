-- ===== src/Tests/Privacy.antt =====
-- The context of a user, before and after a stranger's post.
use ject6_4th_ai_analyzer.Base.{◌-◌, ◌≡◌, refl, none, some, [], ◌∷◌, codes, length}
use ject6_4th_ai_analyzer.Base.Int.{pos}
use ject6_4th_ai_analyzer.Base.Sorting.{sort_by, distinct_on}
use ject6_4th_ai_analyzer.Core.Effects.{
  Env, Log, Command, Reply, Result, ok, call, avg_embedding, my_blog_context, ext_blog_context,
  job_posting_context,
}
use ject6_4th_ai_analyzer.Domain.Models.{Document, DocumentChunk}
use ject6_4th_ai_analyzer.Domain.Enums.{source_value}
use ject6_4th_ai_analyzer.Client.Llm.{embed, embed_once}
use ject6_4th_ai_analyzer.Repository.ContextRetrieval.{
  Pgvector, Tables, find_my_blog_context, find_ext_blog_context, find_job_posting_context,
  best_chunk_per_doc,
}
use ject6_4th_ai_analyzer.Service.AnalysisService.{build_rag_context}
use ject6_4th_ai_analyzer.Service.ConversationService.{build_retrieval_section}
use ject6_4th_ai_analyzer.Service.ContextPrivacy.{AnswersFrom, context_private}
use ject6_4th_ai_analyzer.Tests.World.{world, answers, stored_document}

abbrev pg : Pgvector
pg = record { distance = λ a b. length a; one_minus = λ d. 100 - d; rank = λ d. d }

abbrev chunk_of : Document → DocumentChunk
chunk_of d = record {
  document_id = d.id;
  chunk_index = 0;
  content = d.content;
  token_count = 2;
  embedding = 1 ∷ [];
}

abbrev strangers_post : Document
strangers_post = record {
  id = pos 9;
  columns = record stored_document.columns { user_id = pos 2; content = codes "secret" };
}

abbrev own_tables : Tables
own_tables = record {
  documents = stored_document ∷ [];
  document_chunks = chunk_of stored_document ∷ [];
}

abbrev all_tables : Tables
all_tables = record {
  documents = strangers_post ∷ stored_document ∷ [];
  document_chunks = chunk_of stored_document ∷ chunk_of strangers_post ∷ [];
}

abbrev retrieving : Tables → Log → (c : Command) → Result (Reply c)
retrieving db h (my_blog_context u e x k) = ok (find_my_blog_context pg db u e x k)
retrieving db h (ext_blog_context e k) = ok (find_ext_blog_context pg db e k)
retrieving db h (job_posting_context e k) = ok (find_job_posting_context pg db e k)
retrieving db h (avg_embedding _) = ok (some (1 ∷ []))
retrieving db h c = answers none h c

abbrev retrieving_world : Tables → Env
retrieving_world db = record world { answer = retrieving db }

answers_from : (db : Tables) → AnswersFrom (retrieving_world db) pg db
answers_from db = record {
  at_own = λ h u e x k. refl;
  at_ext = λ h e k. refl;
  at_jobs = λ h e k. refl;
}

context_private_example :
    ((build_rag_context (retrieving_world own_tables) (pos 8) (pos 1) []).0
      ≡ (build_rag_context (retrieving_world all_tables) (pos 8) (pos 1) []).0)
    × ((build_retrieval_section (retrieving_world own_tables) (pos 8) (pos 1) (codes "hi") []).0
        ≡ (build_retrieval_section (retrieving_world all_tables) (pos 8) (pos 1) (codes "hi") []).0)
unfolding embed embed_once source_value find_my_blog_context find_ext_blog_context
    find_job_posting_context best_chunk_per_doc sort_by distinct_on call
context_private_example =
    context_private (retrieving_world own_tables) (retrieving_world all_tables) pg own_tables
      all_tables (pos 8) (pos 1) (codes "hi") [] [] (answers_from own_tables)
      (answers_from all_tables) refl refl refl refl
