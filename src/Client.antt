-- ===== src/Client.antt =====
-- app/client: the clients of outside services, and the tokenizer.
pub mod Tokenizer
pub mod Llm
