-- ===== src/Ingestion.antt =====
-- The ingestion of sources: src/ingestion/ingestion.repository.ts and the claims of
-- src/ingestion/ingestion.service.ts.
pub mod Tables
pub mod Claims
pub mod Exclusive
pub mod Counts
pub mod Preserved
pub mod HtmlTable
pub mod Cleaner
pub mod Loader
pub mod Fetcher
pub mod Pipeline
pub mod Starts
