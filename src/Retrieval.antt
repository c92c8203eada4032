-- ===== src/Retrieval.antt =====
-- Retrieval, src/retrieval/: the fusion of the two search arms, and the search service.
pub mod Rrf
pub mod Service
