-- ===== src/Llm.antt =====
-- The language-model side, src/llm/: the types, the configured chain and the router.
pub mod Types
pub mod Chain
pub mod Router
pub mod Provider
