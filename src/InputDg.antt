-- ===== src/InputDg.antt =====
-- src/dory/input_dg and the client library's message writers: the datagrams that clients send.
pub mod Field
pub mod Write
pub mod Read
pub mod RoundTrip
pub mod Delivery
pub mod Create
pub mod Inverse
pub mod Accepts
pub mod Handles
pub mod Agent
