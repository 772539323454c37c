-- ===== src/Msg.antt =====
-- src/dory/msg.h: a message. A unique_ptr to a message is the value below, whose `addr` is the
-- address of the object; what the object's fields that change hold is kept by address (the state of
-- each message in MsgStateTracker). The blob of key and value is the byte string it stores.
use dory.Common.{ℕ, Bool, length}
use dory.Common.Int.{ℤ}
use dory.Common.Bytes.{Bytes, bytes_eq}

pub data RoutingType : Type 0 where
  any_partition partition_key : RoutingType

pub data MsgState : Type 0 where
  new batching send_wait ack_wait processed : MsgState

pub record Msg : Type 0 where
  pub addr : ℕ
  pub routing_type : RoutingType
  pub key : ℤ
  pub timestamp : ℤ
  pub topic : Bytes
  pub key_and_value : Bytes
  pub key_size : ℕ

-- `GetKeyAndValue().Size()`
abbrev pub body_size : Msg → ℕ
body_size m = length m.key_and_value

abbrev pub same_topic : Bytes → Msg → Bool
same_topic t m = bytes_eq m.topic t
