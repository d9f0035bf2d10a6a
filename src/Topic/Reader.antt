-- ===== src/Topic/Reader.antt =====
-- internal/topic/topicreaderinternal.
pub mod CommitRange
pub mod CommitRanges
pub mod Batch
pub mod Storage
pub mod Batcher
pub mod Committer
