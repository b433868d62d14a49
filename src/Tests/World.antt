-- ===== src/Tests/World.antt =====
-- A world for the tests: a database that is empty, a provider that answers, queues that take messages.
use ject6_4th_ai_analyzer.Base.{ℕ, true, false, Option, none, some, [], ◌∷◌, map, take, Text, codes}
use ject6_4th_ai_analyzer.Base.Int.{ℤ, pos}
use ject6_4th_ai_analyzer.Domain.Enums.{my_blog, pending, assistant}
use ject6_4th_ai_analyzer.Domain.Json.{null, end}
use ject6_4th_ai_analyzer.Domain.Schemas.{Embedding}
use ject6_4th_ai_analyzer.Domain.Models.{Document, AnalysisJob, BlogDiagnosis, ProfileEmbedding}
use ject6_4th_ai_analyzer.Client.Tokenizer.{Encoder}
use ject6_4th_ai_analyzer.Core.Settings.{default_settings}
use ject6_4th_ai_analyzer.Core.Exceptions.{builtin, openai_api_error}
use ject6_4th_ai_analyzer.Core.Effects.{
  Env, Log, Command, Reply, Result, ok, err, time, stop_requested, get, set_nx, incr, incrby,
  smembers, lrange, mget, eval_transition, eval_token_bucket, xreadgroup, xautoclaim, xadd,
  get_document, select_document, insert_document, insert_job, latest_job, refresh_job,
  avg_embedding, my_blog_context, ext_blog_context, job_posting_context, create_embeddings,
  create_chat, ollama_chat, insert_diagnosis, refresh_diagnosis, select_profile, insert_profile,
  refresh_profile,
}

-- A token for each code point.
abbrev pub code_points : Encoder
code_points = record { Token = ℕ; encode = λ t. t; decode = λ ts. ts }

abbrev pub embedding_of : Text → Embedding
embedding_of t = take 2 t

abbrev pub stored_document : Document
stored_document = record {
  id = pos 7;
  columns = record {
    user_id = pos 1;
    source_type = my_blog;
    external_id = some (codes "post-1");
    url = none;
    title = codes "old";
    content = codes "old text";
    doc_metadata = end;
    content_hash = none;
    crawled_at = none;
    ingestion_status = codes "completed";
  };
}

abbrev pub pending_job : AnalysisJob
pending_job = record {
  id = pos 3;
  user_id = pos 1;
  document_id = pos 7;
  status = pending;
  result = end;
  error_message = none;
}

abbrev pub stored_diagnosis : ℤ → BlogDiagnosis
stored_diagnosis id = record {
  id = id;
  columns = record {
    user_id = pos 1;
    analysis_job_id = none;
    metrics = null;
    category_fit = null;
    strengths = null;
    weaknesses = null;
    result_embedding = none;
  };
}

abbrev pub stored_profile : ℤ → ProfileEmbedding
stored_profile id = record {
  id = id;
  columns = record { user_id = pos 1; embedding = 1 ∷ []; profile_hash = none };
}

-- What is answered, with what a lookup by external id finds.
abbrev pub answers : Option Document → Log → (c : Command) → Result (Reply c)
answers found h time = ok 5000
answers found h stop_requested = ok true
answers found h (get _) = ok none
answers found h (set_nx _ _ _) = ok true
answers found h (incr _) = ok (pos 1)
answers found h (incrby _ n) = ok (pos n)
answers found h (smembers _) = ok []
answers found h (lrange _) = ok []
answers found h (mget ks) = ok (map (λ _. none) ks)
answers found h (eval_transition _ _ _ _) = ok false
answers found h (eval_token_bucket _ _ _ _) =
    ok (record { allowed = true; remaining = 0; retry_after_ms = 0 })
answers found h (xreadgroup _ _ _ _ _) = ok []
answers found h (xautoclaim _ _ _ _ _) = ok none
answers found h (xadd _ _) = ok []
answers found h (get_document _) = ok (some stored_document)
answers found h (select_document _ _ _) = ok found
answers found h (insert_document _) = ok (pos 7)
answers found h (insert_job _ _) = ok (pos 3)
answers found h (latest_job _) = ok none
answers found h (refresh_job _) = ok pending_job
answers found h (avg_embedding _) = ok none
answers found h (my_blog_context _ _ _ _) = ok []
answers found h (ext_blog_context _ _) = ok []
answers found h (job_posting_context _ _) = ok []
answers found h (insert_diagnosis _) = ok (pos 4)
answers found h (refresh_diagnosis id) = ok (stored_diagnosis id)
answers found h (select_profile _ _) = ok none
answers found h (insert_profile _) = ok (pos 5)
answers found h (refresh_profile id) = ok (stored_profile id)
answers found h (create_embeddings _ ts _) = ok (map embedding_of ts)
answers found h (create_chat _ _ _ _ _) = err (builtin openai_api_error (codes "down"))
answers found h (ollama_chat _ _ _ _ _ _) = ok none
answers found h _ = ok tt

abbrev pub world_with : Option Document → Env
world_with found = record {
  answer = answers found;
  settings = default_settings;
  encoder = code_points;
  sha256 = λ t. t;
  embedding_dumps = λ e. e;
  embedding_loads = some;
  json_dumps = λ _. codes "{}";
  min_length_text = codes "too short";
  repr = λ t. t;
  analysis_schema = codes "{}";
  analysis_of = λ _. none;
  analysis_error = λ t. t;
  read_request = λ _. some (record {
    user_id = pos 1;
    document_id = some (pos 7);
    correlation_id = none;
    analysis_mode = none;
    batch_id = none;
    source_document_ids = none;
  });
  str_of = λ _. codes "None";
  message_dumps = λ m. m.content;
  message_loads = λ t. some (record { role = assistant; content = t });
  host_name = codes "host";
  process_id = pos 1;
  retry = λ A n p m. m;
}

abbrev pub world : Env
world = world_with none
