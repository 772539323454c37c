-- ===== src/InputDg/Delivery.antt =====
-- From dory_write_any_partition_msg and dory_write_partition_key_msg, which a client calls, to
-- BuildMsgFromDg, which the server calls with what the client sent.
use dory.Common.{ℕ, ◌+◌, ◌≤◌, ◌<◌, ◌≡◌, refl, ◌++◌, arith, length, ◌∙◌}
use dory.Common.Int.{ℤ, pos}
use dory.Common.Word.{to_u32, IsI32, IsI64}
use dory.Common.Bytes.{Bytes, write_u16, write_u32}
use dory.InputDg.Write.{
  Fields, ok, fits, int32_max, any_partition_overhead, partition_key_overhead, check_msg_size,
  compute_msg_size, write_body, write_any_partition, write_partition_key,
  dory_write_any_partition_msg, dory_write_partition_key_msg,
}
use dory.InputDg.Agent.{
  Agent, create_msg, build_any_partition_msg, build_partition_key_msg, build_msg_from_dg,
}
use dory.InputDg.RoundTrip.{
  IsWritable, read_any-write_any, read_key-write_key, check_msg_size_lem, length-write_body,
  build-any_header, build-key_header,
}
use dory.Msg.{any_partition, partition_key}

build-write_any :
    (a : Agent) (addr : ℕ) (f : Fields)
    → IsWritable f
    → compute_msg_size any_partition_overhead f ≤ int32_max
    → build_msg_from_dg a addr (write_any_partition f) ≡ create_msg a addr any_partition (pos 0) f
unfolding compute_msg_size write_any_partition build_any_partition_msg write_u16
build-write_any a addr f w size_fits =
    build-any_header a addr (write_u16 0 ++ write_body f)
      (compute_msg_size any_partition_overhead f) (whole_body f) size_fits
    ∙ rw (read_any-write_any f w) refl
  where
    whole_body :
        (f : Fields)
        → compute_msg_size any_partition_overhead f ≡ 8 + length (write_u16 0 ++ write_body f)
    whole_body f = omega (arith, length-write_body f)

build-write_key :
    (a : Agent) (addr : ℕ) (k : ℤ) (f : Fields)
    → IsI32 k
    → IsWritable f
    → compute_msg_size partition_key_overhead f ≤ int32_max
    → build_msg_from_dg a addr (write_partition_key k f) ≡ create_msg a addr partition_key k f
unfolding compute_msg_size write_partition_key build_partition_key_msg write_u16 write_u32
build-write_key a addr k f i w size_fits =
    build-key_header a addr (write_u16 0 ++ (write_u32 (to_u32 k) ++ write_body f))
      (compute_msg_size partition_key_overhead f) (whole_body f) size_fits
    ∙ rw (read_key-write_key k f i w) refl
  where
    whole_body :
        (f : Fields)
        → compute_msg_size partition_key_overhead f
          ≡ 8 + length (write_u16 0 ++ (write_u32 (to_u32 k) ++ write_body f))
    whole_body f = omega (arith, length-write_body f)

any_written :
    (n : ℕ) (f : Fields) (dg : Bytes)
    → dory_write_any_partition_msg n f ≡ ok dg
    → (check_msg_size any_partition_overhead (length f.topic) (length f.key) (length f.value)
        ≡ fits)
      × (dg ≡ write_any_partition f)
unfolding dory_write_any_partition_msg
any_written n f dg h = ground (arith, h)

key_written :
    (n : ℕ) (k : ℤ) (f : Fields) (dg : Bytes)
    → dory_write_partition_key_msg n k f ≡ ok dg
    → (check_msg_size partition_key_overhead (length f.topic) (length f.key) (length f.value)
        ≡ fits)
      × (dg ≡ write_partition_key k f)
unfolding dory_write_partition_key_msg
key_written n k f dg h = ground (arith, h)

-- If dory_write_any_partition_msg returns a datagram for fields with a 64-bit timestamp and a topic
-- that is not empty, BuildMsgFromDg on that datagram does what creating an AnyPartition message of
-- exactly those fields does.
pub build-dory_write_any :
    (a : Agent) (addr n : ℕ) (f : Fields) (dg : Bytes)
    → IsI64 f.timestamp
    → 0 < length f.topic
    → dory_write_any_partition_msg n f ≡ ok dg
    → build_msg_from_dg a addr dg ≡ create_msg a addr any_partition (pos 0) f
unfolding compute_msg_size
build-dory_write_any a addr n f dg ts nonempty h =
    let (fit, e) = any_written n f dg h in
    let bounds = (check_msg_size_lem _ _ _ _ (omega arith)).0 fit in
    rw e (
      build-write_any a addr f
        (nonempty, omega (arith, bounds), ts, omega (arith, bounds), omega (arith, bounds))
        (omega (arith, bounds)))

-- If dory_write_partition_key_msg returns a datagram for a 32-bit partition key and fields with a
-- 64-bit timestamp and a topic that is not empty, BuildMsgFromDg on that datagram does what
-- creating a PartitionKey message of exactly that key and those fields does.
pub build-dory_write_key :
    (a : Agent) (addr n : ℕ) (k : ℤ) (f : Fields) (dg : Bytes)
    → IsI32 k
    → IsI64 f.timestamp
    → 0 < length f.topic
    → dory_write_partition_key_msg n k f ≡ ok dg
    → build_msg_from_dg a addr dg ≡ create_msg a addr partition_key k f
unfolding compute_msg_size
build-dory_write_key a addr n k f dg i ts nonempty h =
    let (fit, e) = key_written n k f dg h in
    let bounds = (check_msg_size_lem _ _ _ _ (omega arith)).0 fit in
    rw e (
      build-write_key a addr k f i
        (nonempty, omega (arith, bounds), ts, omega (arith, bounds), omega (arith, bounds))
        (omega (arith, bounds)))
