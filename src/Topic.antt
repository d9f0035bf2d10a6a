-- ===== src/Topic.antt =====
-- The clients of topics: the writer's queue and the reader's batches, commits and sessions.
pub mod Writer
pub mod Reader
