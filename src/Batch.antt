-- ===== src/Batch.antt =====
-- src/dory/batch: batching of messages by age, number and size.
pub mod Core
pub mod TopicMap
pub mod SingleTopic
pub mod CombinedTopics
pub mod PerTopic
