-- ===== src/Repository.antt =====
-- app/repository: the stores behind the services.
pub mod EmbeddingCache
pub mod Documents
pub mod CrawlQueue
pub mod AnalysisJobs
pub mod Conversations
pub mod ContextRetrieval
