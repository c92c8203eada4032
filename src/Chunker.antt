-- ===== src/Chunker.antt =====
-- The chunker, src/ingestion/chunker.ts: a document is cut into sections, small sections are
-- merged, and large ones are split at boundaries outside fences and tables.
pub mod Lines
pub mod Trackers
pub mod Split
pub mod Sections
pub mod Merge
pub mod Chunks
