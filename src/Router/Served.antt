-- ===== src/Router/Served.antt =====
-- The brokers that are in service in metadata that is built of a response: src/dory/metadata.cc,
-- against the routing of src/dory/router_thread.cc.
pub mod Marks
pub mod Labels
pub mod Topics
pub mod Choice
pub mod Routes
