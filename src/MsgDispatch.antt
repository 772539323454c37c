-- ===== src/MsgDispatch.antt =====
-- src/dory/msg_dispatch: what becomes of the messages of a produce request when the broker's response
-- comes.
pub mod Ack
pub mod Request
pub mod Processor
pub mod Response
pub mod Connector
pub mod Steps
pub mod Count
pub mod Conserve
pub mod Quiet
pub mod Keeps
pub mod Whole
pub mod Factory
