-- ===== src/Stream.antt =====
-- src/base/buf.h, stream_msg_reader.* and stream_msg_with_size_reader.*: messages read from a stream
-- of bytes whose pieces arrive at any boundaries.
pub mod Buf
pub mod Reader
pub mod WithSize
pub mod Frames
pub mod Splits
pub mod Decode
pub mod Client
pub mod Advance
pub mod Delivery
pub mod Serve
pub mod Connection
pub mod RoundTrip
