-- ===== src/InputDg/Write.antt =====
-- The client side: src/dory/input_dg/any_partition/v0/v0_write_msg.c, the same file under
-- partition_key, and the functions of src/dory/client/libdory_client.c that call them. The bytes
-- written to the caller's buffer are the result. A size_t is a number: check_msg_size rules out every
-- sum that would wrap.
use dory.Common.{ℕ, ◌+◌, ◌-◌, ◌^◌, ◌||◌, ◌++◌, length, ltb, if◌then◌else◌}
use dory.Common.Int.{ℤ}
use dory.Common.Word.{to_u32, to_u64}
use dory.Common.Bytes.{Bytes, write_u16, write_u32, write_u64}

pub record Fields : Type 0 where
  pub topic : Bytes
  pub timestamp : ℤ
  pub key : Bytes
  pub value : Bytes

pub data Status : Type 0 where
  fits topic_too_large msg_too_large : Status

abbrev pub int16_max : ℕ
int16_max = 2 ^ 15 - 1

abbrev pub int32_max : ℕ
int32_max = 2 ^ 31 - 1

-- get_msg_overhead of the two formats: the sizes of the fixed fields.
abbrev pub any_partition_overhead : ℕ
any_partition_overhead = 4 + 2 + 2 + 2 + 2 + 8 + 4 + 4

abbrev pub partition_key_overhead : ℕ
partition_key_overhead = 4 + 2 + 2 + 2 + 4 + 2 + 8 + 4 + 4

unfoldable pub check_msg_size : ℕ → ℕ → ℕ → ℕ → Status
check_msg_size overhead topic_size key_size value_size =
    let key_value_space = int32_max - overhead - topic_size in
    if ltb int16_max topic_size
    then topic_too_large
    else if ltb key_value_space key_size || ltb (key_value_space - key_size) value_size
    then msg_too_large
    else fits

unfoldable pub compute_msg_size : ℕ → Fields → ℕ
compute_msg_size overhead f = overhead + length f.topic + length f.key + length f.value

-- The fields that both formats end with.
unfoldable pub write_body : Fields → Bytes
write_body f =
    write_u16 (length f.topic)
    ++ (f.topic
        ++ (write_u64 (to_u64 f.timestamp)
            ++ (write_u32 (length f.key) ++ (f.key ++ (write_u32 (length f.value) ++ f.value)))))

unfoldable pub write_any_partition : Fields → Bytes
unfolding compute_msg_size write_body
write_any_partition f =
    write_u32 (compute_msg_size any_partition_overhead f)
    ++ (write_u16 256 ++ (write_u16 0 ++ (write_u16 0 ++ write_body f)))

unfoldable pub write_partition_key : ℤ → Fields → Bytes
unfolding compute_msg_size write_body
write_partition_key partition_key f =
    write_u32 (compute_msg_size partition_key_overhead f)
    ++ (write_u16 257
        ++ (write_u16 0 ++ (write_u16 0 ++ (write_u32 (to_u32 partition_key) ++ write_body f))))

-- What the library's calls return: the status and, with DORY_OK, the bytes at the front of the buffer.
pub data Written : Type 0 where
  ok : Bytes → Written
  too_large : Status → Written
  buf_too_small : Written

-- dory_write_any_partition_msg; the topic is the C string up to its null byte.
unfoldable pub dory_write_any_partition_msg : ℕ → Fields → Written
unfolding check_msg_size compute_msg_size write_any_partition
dory_write_any_partition_msg out_buf_size f =
    elim (check_msg_size any_partition_overhead (length f.topic) (length f.key) (length f.value)) [
      | fits ↦
          if ltb out_buf_size (compute_msg_size any_partition_overhead f)
          then buf_too_small
          else ok (write_any_partition f)
      | topic_too_large ↦ too_large topic_too_large
      | msg_too_large ↦ too_large msg_too_large
    ]

unfoldable pub dory_write_partition_key_msg : ℕ → ℤ → Fields → Written
unfolding check_msg_size compute_msg_size write_partition_key
dory_write_partition_key_msg out_buf_size partition_key f =
    elim (check_msg_size partition_key_overhead (length f.topic) (length f.key) (length f.value)) [
      | fits ↦
          if ltb out_buf_size (compute_msg_size partition_key_overhead f)
          then buf_too_small
          else ok (write_partition_key partition_key f)
      | topic_too_large ↦ too_large topic_too_large
      | msg_too_large ↦ too_large msg_too_large
    ]
