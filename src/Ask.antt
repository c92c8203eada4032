-- ===== src/Ask.antt =====
-- Answering a question: src/ask/.
pub mod Types
pub mod Prompt
pub mod Repository
pub mod Service
pub mod Endpoints
