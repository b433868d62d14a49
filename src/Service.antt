-- ===== src/Service.antt =====
-- app/service: the services.
pub mod Chunker
pub mod DocumentService
pub mod BlogSnapshot
pub mod AnalysisPrompts
pub mod AnalysisDemo
pub mod AnalysisService
pub mod ConversationPrompt
pub mod ConversationService
pub mod QueryRewriter
pub mod ProfileEmbeddings
pub mod BlogDiagnosis
pub mod ContextPrivacy
pub mod HtmlExtractor
