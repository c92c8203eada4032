-- ===== src/Tests.antt =====
-- Runs of the definitions on concrete data, and the theorems at concrete arguments.
mod Chunking
mod Models
mod Answers
mod Throttles
mod Sources
mod Endpoints
mod Caches
mod Pages
mod Runs
mod Settings
mod Logs
