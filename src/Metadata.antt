-- ===== src/Metadata.antt =====
-- src/dory/metadata.*: what the brokers, topics and partitions of a Kafka cluster are, and how the
-- builder makes it of a response. Of std::sort, where items compare as equal, and of std::shuffle only
-- the order that they chose is given, as an argument.
pub mod Defs
pub mod Builder
pub mod Build
pub mod Ranges
pub mod Sorted
pub mod Topics
pub mod Response
pub mod Order
pub mod Choices
