-- ===== src/InputDg/RoundTrip.antt =====
-- Reading back the datagrams that the client library writes: the readers on the writers' output.
use dory.Common.{
  ℕ, ◌↔◌, ◌+◌, ◌^◌, ◌≤◌, ◌<◌, ◌≡◌, refl, true, false, not, ltb, ◌++◌, some, arith, length,
  length-append, drop, ==_refl,
}
use dory.Common.Int.{ℤ, pos, leb_ℤ, ltb_ℤ}
use dory.Common.Word.{
  of_u16, to_u32, to_u64, IsI32, IsI64, of_u32-to_u32, of_u64-to_u64, to_u32-lt, to_u64-lt,
  of_u16-small, of_u32-small,
}
use dory.Common.Bytes.{
  Bytes, read_u16, read_u16-write_u16, read_u32-write_u32, write_u16, write_u32, write_u64,
}
use dory.InputDg.Field.{
  take_bytes-append, take_i16-write_u16, take_i32-write_u32, take_i64-write_u64,
}
use dory.InputDg.Write.{
  Fields, fits, int16_max, int32_max, any_partition_overhead, partition_key_overhead,
  check_msg_size, compute_msg_size, write_body, write_any_partition, write_partition_key,
}
use dory.InputDg.Read.{read_body, read_any_partition, read_partition_key}
use dory.InputDg.Agent.{Agent, build_any_partition_msg, build_partition_key_msg, build_msg_from_dg}

-- Fields that fit: a topic that is not empty, sizes of the fields' types and a 64-bit timestamp.
abbrev pub IsWritable : Fields → Type 0
IsWritable f =
    (0 < length f.topic)
    × (length f.topic < 2 ^ 15)
    × IsI64 f.timestamp
    × (length f.key < 2 ^ 31)
    × (length f.value < 2 ^ 31)

is_nonnegative : (n : ℕ) → not (ltb_ℤ (pos n) (pos 0)) ≡ true
is_nonnegative n = ground arith

pub read_body-write_body : (f : Fields) → IsWritable f → read_body (write_body f) ≡ some f
unfolding read_body write_body
read_body-write_body f (nonempty, topic_fits, ts_fits, key_fits, value_fits) =
    let has_topic : not (leb_ℤ (pos (length f.topic)) (pos 0)) ≡ true = ground (arith, nonempty) in
    rw
      (
        take_i16-write_u16 (length f.topic) _ topic_fits,
        has_topic,
        take_bytes-append f.topic _ (length f.topic) refl,
        take_i64-write_u64 (to_u64 f.timestamp) _ (to_u64-lt f.timestamp),
        of_u64-to_u64 f.timestamp ts_fits,
        take_i32-write_u32 (length f.key) _ (omega (arith, key_fits)),
        of_u32-small (length f.key) key_fits,
        is_nonnegative (length f.key),
        take_bytes-append f.key _ (length f.key) refl,
        take_i32-write_u32 (length f.value) f.value (omega (arith, value_fits)),
        of_u32-small (length f.value) value_fits,
        is_nonnegative (length f.value),
        ==_refl (length f.value),
      )
      refl

pub read_any-write_any :
    (f : Fields) → IsWritable f → read_any_partition (write_u16 0 ++ write_body f) ≡ some f
unfolding read_any_partition
read_any-write_any f w =
    rw (take_i16-write_u16 0 (write_body f) (omega arith)) (read_body-write_body f w)

pub read_key-write_key :
    (k : ℤ) (f : Fields)
    → IsI32 k
    → IsWritable f
    → read_partition_key (write_u16 0 ++ (write_u32 (to_u32 k) ++ write_body f)) ≡ some (k, f)
unfolding read_partition_key
read_key-write_key k f i w =
    rw
      (
        take_i16-write_u16 0 (write_u32 (to_u32 k) ++ write_body f) (omega arith),
        take_i32-write_u32 (to_u32 k) (write_body f) (to_u32-lt k),
        of_u32-to_u32 k i,
        read_body-write_body f w,
      )
      refl

-- If the overhead and the largest topic fit in an int32_t, the size check accepts exactly the sizes
-- for which the topic's size fits in an int16_t and the whole datagram's size in an int32_t.
pub check_msg_size_lem :
    (overhead topic_size key_size value_size : ℕ)
    → overhead + int16_max ≤ int32_max
    → (check_msg_size overhead topic_size key_size value_size ≡ fits)
      ↔ ((topic_size ≤ int16_max) × (overhead + topic_size + key_size + value_size ≤ int32_max))
unfolding check_msg_size
check_msg_size_lem overhead topic_size key_size value_size h =
    (λ e. ground (arith, e), λ e. ground (arith, e))

pub length-write_body :
    (f : Fields)
    → length (write_body f) ≡ 2 + 8 + 4 + 4 + length f.topic + length f.key + length f.value
unfolding write_body write_u16 write_u32 write_u64
length-write_body f = omega (
  arith,
  length-append f.topic (
      write_u64 (to_u64 f.timestamp)
      ++ (write_u32 (length f.key) ++ (f.key ++ (write_u32 (length f.value) ++ f.value)))),
  length-append f.key (write_u32 (length f.value) ++ f.value),
)

length-write_any :
    (f : Fields) → length (write_any_partition f) ≡ compute_msg_size any_partition_overhead f
unfolding write_any_partition compute_msg_size write_u16 write_u32
length-write_any f = omega (arith, length-write_body f)

length-write_key :
    (k : ℤ) (f : Fields)
    → length (write_partition_key k f) ≡ compute_msg_size partition_key_overhead f
unfolding write_partition_key compute_msg_size write_u16 write_u32
length-write_key k f = omega (arith, length-write_body f)

module _ (n : ℕ) (part : Bytes) (api_key : ℕ) where
  abbrev header : Bytes
  header = write_u32 n ++ (write_u16 api_key ++ (write_u16 0 ++ part))

  length-header : n ≡ 8 + length part → length header ≡ n
  unfolding write_u32 write_u16
  length-header whole = omega arith

  header_api_key : api_key < 2 ^ 15 → of_u16 (read_u16 (drop 4 header)) ≡ pos api_key
  unfolding write_u32
  header_api_key h =
      rw (read_u16-write_u16 api_key (write_u16 0 ++ part) (omega arith)) (of_u16-small api_key h)

  header_api_version : of_u16 (read_u16 (drop 6 header)) ≡ pos 0
  unfolding write_u32 write_u16 read_u16 of_u16
  header_api_version = refl

  header_rest : drop 8 header ≡ part
  unfolding write_u32 write_u16
  header_rest = refl

module _ (a : Agent) (addr : ℕ) (part : Bytes) (n : ℕ) (whole : n ≡ 8 + length part)
    (size_fits : n ≤ int32_max) where
  is_long : ltb n (4 + 2 + 2) ≡ false
  is_long = ground arith

  is_negative : ltb_ℤ (pos n) (pos 0) ≡ false
  is_negative = ground arith

  -- What a header of version 0 leads to, for either API key.
  pub build-any_header :
      build_msg_from_dg a addr (write_u32 n ++ (write_u16 256 ++ (write_u16 0 ++ part)))
      ≡ build_any_partition_msg a addr (pos 0) part
  unfolding build_msg_from_dg
  build-any_header =
      rw
        (
          read_u32-write_u32 n (write_u16 256 ++ (write_u16 0 ++ part)) (omega arith),
          of_u32-small n (omega arith),
          length-header n part 256 whole,
          header_api_key n part 256 (omega arith),
          header_api_version n part 256,
          header_rest n part 256,
          is_long,
          is_negative,
          ==_refl n,
        )
        refl

  pub build-key_header :
      build_msg_from_dg a addr (write_u32 n ++ (write_u16 257 ++ (write_u16 0 ++ part)))
      ≡ build_partition_key_msg a addr (pos 0) part
  unfolding build_msg_from_dg
  build-key_header =
      rw
        (
          read_u32-write_u32 n (write_u16 257 ++ (write_u16 0 ++ part)) (omega arith),
          of_u32-small n (omega arith),
          length-header n part 257 whole,
          header_api_key n part 257 (omega arith),
          header_api_version n part 257,
          header_rest n part 257,
          is_long,
          is_negative,
          ==_refl n,
        )
        refl
