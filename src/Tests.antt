-- ===== src/Tests.antt =====
-- Runs on concrete messages, queues and datagrams.
mod Data
mod Queue
mod Batches
mod Tracker
mod Blobs
mod Datagrams
mod RateLimit
mod Streams
mod Dispatch
mod Requests
mod Routing
mod Anomalies
