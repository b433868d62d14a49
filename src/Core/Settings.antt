-- ===== src/Core/Settings.antt =====
-- app/core/config.py: the settings that the modelled code reads, and their defaults.
-- A float setting is a fraction.
use ject6_4th_ai_analyzer.Base.{ℕ, Bool, false, Text, codes}
use ject6_4th_ai_analyzer.Base.Int.{ℤ, pos}
use ject6_4th_ai_analyzer.Core.RateLimiter.{Rate}

pub record Settings : Type 0 where
  pub conversation_ttl_seconds : ℕ
  pub analysis_queue_name : Text
  pub worker_max_retries : ℤ
  pub llm_provider : Text
  pub llm_model : Text
  pub embedding_model : Text
  pub embedding_dim : ℕ
  pub ollama_base_url : Text
  pub ollama_chat_model : Text
  pub ollama_embedding_model : Text
  pub gemini_chat_model : Text
  pub gemini_embedding_model : Text
  pub demo_mode : Bool
  pub chunk_size_tokens : ℕ
  pub chunk_overlap_tokens : ℕ
  pub crawl_stream_name : Text
  pub crawl_consumer_group : Text
  pub crawl_dlq_stream_name : Text
  pub crawl_worker_name : Text
  pub crawl_batch_size : ℕ
  pub crawl_block_ms : ℕ
  pub crawl_pending_idle_ms : ℕ
  pub crawl_max_retries : ℤ
  pub max_conversation_tokens : ℕ
  pub max_turns_per_session : ℕ
  pub chat_rate : Rate
  pub analysis_rate : Rate

abbrev pub default_settings : Settings
default_settings = record {
  conversation_ttl_seconds = 3600;
  analysis_queue_name = codes "blog.analysis";
  worker_max_retries = pos 3;
  llm_provider = codes "openai";
  llm_model = codes "gpt-4o-mini";
  embedding_model = codes "text-embedding-3-small";
  embedding_dim = 768;
  ollama_base_url = codes "http://localhost:11434";
  ollama_chat_model = codes "qwen2.5:7b";
  ollama_embedding_model = codes "nomic-embed-text";
  gemini_chat_model = codes "gemini-2.0-flash";
  gemini_embedding_model = codes "gemini-embedding-001";
  demo_mode = false;
  chunk_size_tokens = 800;
  chunk_overlap_tokens = 100;
  crawl_stream_name = codes "crawl:ingest";
  crawl_consumer_group = codes "ingest-workers";
  crawl_dlq_stream_name = codes "crawl:ingest:dlq";
  crawl_worker_name = codes "worker-1";
  crawl_batch_size = 10;
  crawl_block_ms = 5000;
  crawl_pending_idle_ms = 60000;
  crawl_max_retries = pos 3;
  max_conversation_tokens = 8000;
  max_turns_per_session = 30;
  chat_rate = record { capacity = 30; refill_num = 1; refill_den = 5 };
  analysis_rate = record { capacity = 10; refill_num = 1; refill_den = 20 };
}
