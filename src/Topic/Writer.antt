-- ===== src/Topic/Writer.antt =====
-- internal/topic/topicwriterinternal.
pub mod Queue
