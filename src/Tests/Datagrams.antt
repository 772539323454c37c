-- ===== src/Tests/Datagrams.antt =====
-- A datagram from src/dory/client to src/dory/input_dg.
use dory.Common.{◌≡◌, refl, [], ◌∷◌, ◌++◌, arith}
use dory.Common.Int.{pos}
use dory.Common.Word.{to_u32, to_u64, of_u16, of_u32, IsI32}
use dory.Common.Bytes.{Bytes, read_u32, write_u16, write_u32, write_u64}
use dory.Capped.Pool.{get_data_size}
use dory.Msg.{any_partition, partition_key}
use dory.InputDg.Write.{
  Fields, ok, check_msg_size, compute_msg_size, write_body, write_any_partition,
  write_partition_key, dory_write_any_partition_msg, dory_write_partition_key_msg,
}
use dory.InputDg.RoundTrip.{IsWritable, read_any-write_any, read_key-write_key}
use dory.InputDg.Agent.{assertion_fails, Agent, create_msg, build_msg_from_dg}
use dory.InputDg.Delivery.{build-dory_write_any, build-dory_write_key}
use dory.InputDg.Accepts.{read_any-accepts, read_key-accepts}
use dory.InputDg.Create.{Creates, create_msg-Creates}
use dory.InputDg.Handles.{IsHeaderOnly, Handles, build_msg_from_dg-Handles}
use dory.Tests.Data.{empty_tracker, topic_a}

abbrev agent : Agent
agent = record {
  pool = record { block_size = 64; block_count = 2; free = 0 ∷ 1 ∷ [] };
  tracker = empty_tracker;
}

abbrev fields : Fields
fields = record { topic = topic_a; timestamp = pos 5; key = 1 ∷ []; value = 2 ∷ 3 ∷ [] }

fields-IsWritable : IsWritable fields
fields-IsWritable = (omega arith, omega arith, (omega arith, omega arith), omega arith, omega arith)

any_written : dory_write_any_partition_msg 64 fields ≡ ok (write_any_partition fields)
unfolding dory_write_any_partition_msg check_msg_size compute_msg_size
any_written = refl

key_written :
    dory_write_partition_key_msg 64 (pos 9) fields ≡ ok (write_partition_key (pos 9) fields)
unfolding dory_write_partition_key_msg check_msg_size compute_msg_size
key_written = refl

build-dory_write_any_example :
    build_msg_from_dg agent 1 (write_any_partition fields)
    ≡ create_msg agent 1 any_partition (pos 0) fields
build-dory_write_any_example =
    build-dory_write_any agent 1 64 fields (write_any_partition fields) (omega arith, omega arith)
      (omega arith) any_written

build-dory_write_key_example :
    build_msg_from_dg agent 1 (write_partition_key (pos 9) fields)
    ≡ create_msg agent 1 partition_key (pos 9) fields
build-dory_write_key_example =
    build-dory_write_key agent 1 64 (pos 9) fields (write_partition_key (pos 9) fields)
      (omega arith, omega arith) (omega arith, omega arith) (omega arith) key_written

abbrev any_bytes : Bytes
any_bytes = write_u16 0 ++ write_body fields

abbrev key_bytes : Bytes
key_bytes = write_u16 0 ++ (write_u32 (to_u32 (pos 9)) ++ write_body fields)

read_any-accepts_example : (any_bytes ≡ write_u16 0 ++ write_body fields) × IsWritable fields
unfolding write_u16 write_u32 write_u64 write_body to_u64
read_any-accepts_example =
    read_any-accepts any_bytes fields (ground arith) (read_any-write_any fields fields-IsWritable)

read_key-accepts_example :
    (key_bytes ≡ write_u16 0 ++ (write_u32 (to_u32 (pos 9)) ++ write_body fields))
    × IsI32 (pos 9)
    × IsWritable fields
unfolding write_u16 write_u32 write_u64 write_body to_u64 to_u32
read_key-accepts_example =
    read_key-accepts key_bytes (pos 9) fields (ground arith)
      (read_key-write_key (pos 9) fields (omega arith, omega arith) fields-IsWritable)

create_msg-Creates_example :
    Creates agent 1 partition_key (pos 9) fields (create_msg agent 1 partition_key (pos 9) fields)
unfolding get_data_size
create_msg-Creates_example = create_msg-Creates agent 1 partition_key (pos 9) fields (omega arith)

-- A header of the right size with nothing behind it.
abbrev header_only : Bytes
header_only = write_u32 8 ++ (write_u16 256 ++ write_u16 0)

header_only-assertion_fails : build_msg_from_dg agent 1 header_only ≡ (agent, assertion_fails)
unfolding build_msg_from_dg write_u16 write_u32 of_u32 read_u32 of_u16
header_only-assertion_fails = refl

build_msg_from_dg-Handles_example :
    Handles (IsHeaderOnly header_only) agent (build_msg_from_dg agent 1 header_only)
unfolding get_data_size
build_msg_from_dg-Handles_example = build_msg_from_dg-Handles agent 1 header_only (omega arith)
