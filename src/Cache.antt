-- ===== src/Cache.antt =====
-- The caches: src/common/cache/.
pub mod Keys
pub mod Words
pub mod Client
pub mod Version
