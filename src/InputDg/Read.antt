-- ===== src/InputDg/Read.antt =====
-- The server side up to the creation of the message: BuildMsg of
-- src/dory/input_dg/any_partition/v0/v0_input_dg_reader.cc and of the same file under partition_key.
-- `none` is the case in which DiscardMalformedMsg is called.
use dory.Common.{not, ◌==◌, Option, some, length}
use dory.Common.Int.{ℤ, pos, eq_ℤ, ltb_ℤ, leb_ℤ, pos_part}
use dory.Common.Bytes.{Bytes}
use dory.InputDg.Field.{◌>>=◌, ◌>>◌, guard, take_bytes, take_i16, take_i32, take_i64}
use dory.InputDg.Write.{Fields}

-- From the topic's size to the end of the datagram, which has to be the end of the value.
unfoldable pub read_body : Bytes → Option Fields
read_body bytes = do
  (topic_sz, after_topic_sz) ← take_i16 bytes
  guard (not (leb_ℤ topic_sz (pos 0)))
  (topic, after_topic) ← take_bytes (pos_part topic_sz) after_topic_sz
  (ts, after_ts) ← take_i64 after_topic
  (key_sz, after_key_sz) ← take_i32 after_ts
  guard (not (ltb_ℤ key_sz (pos 0)))
  (key, after_key) ← take_bytes (pos_part key_sz) after_key_sz
  (value_sz, value) ← take_i32 after_key
  guard (not (ltb_ℤ value_sz (pos 0)))
  guard (length value == pos_part value_sz)
  some (record { topic = topic; timestamp = ts; key = key; value = value })

unfoldable pub read_any_partition : Bytes → Option Fields
unfolding read_body
read_any_partition bytes = do
  (flags, after_flags) ← take_i16 bytes
  guard (eq_ℤ flags (pos 0))
  read_body after_flags

unfoldable pub read_partition_key : Bytes → Option (ℤ × Fields)
unfolding read_body
read_partition_key bytes = do
  (flags, after_flags) ← take_i16 bytes
  guard (eq_ℤ flags (pos 0))
  (partition_key, after_partition_key) ← take_i32 after_flags
  fields ← read_body after_partition_key
  some (partition_key, fields)
