-- ===== src/InputDg/Agent.antt =====
-- src/dory/input_dg/input_dg_util.cc, input_dg_common.cc and the two *_util.cc: a datagram becomes a
-- message or is discarded for a stated reason; src/dory/msg.cc and msg_creator.h for the message made.
-- The anomaly tracker's calls are the reasons; the log and the counters are left out. An assertion on
-- the datagram is a reason too, assertion_fails: what a build without assertions goes on to do there is
-- left out.
use dory.Common.{ℕ, ◌+◌, not, ◌||◌, ◌==◌, [], ◌∷◌, Option, some, none, length, ltb, if◌then◌else◌}
use dory.Common.Int.{ℤ, pos, eq_ℤ, ltb_ℤ, pos_part}
use dory.Common.Word.{of_u16, of_u32}
use dory.Common.Bytes.{Bytes, read_u16, read_u32}
use dory.Common.{drop}
use dory.Capped.Pool.{Pool}
use dory.Capped.Writer.{Writer, Blob, new_writer, write, cancel_blob, draft_blob, contents}
use dory.Msg.{Msg, RoutingType, any_partition, partition_key}
use dory.MsgStateTracker.{MsgStateTracker, msg_enter_new}
use dory.InputDg.Write.{Fields}
use dory.InputDg.Read.{read_any_partition, read_partition_key}

-- A throw of the second Write leaves the first one's data to the writer's destructor, which frees it.
unfoldable pub write_value : Pool → Writer → Bytes → Pool × Option Blob
write_value p w value =
    let (p', written) = write p w value in
    elim written [ none ↦ ((cancel_blob p' w).0, none) | some w' ↦ (p', some (draft_blob p' w').0) ]

unfoldable pub make_key_and_value : Pool → Bytes → Bytes → Pool × Option Blob
unfolding write_value
make_key_and_value p key value =
    let (p', written) = write p new_writer key in
    elim written [ none ↦ (p', none) | some w ↦ write_value p' w value ]

pub record Agent : Type 0 where
  pub pool : Pool
  pub tracker : MsgStateTracker

pub data Built : Type 0 where
  message : Msg → Built
  malformed no_mem assertion_fails : Built
  unsupported_api_key : ℤ → Built
  unsupported_version : ℤ → Built

-- TryCreateAnyPartitionMsg and TryCreatePartitionKeyMsg, with TMsgCreator's call of MsgEnterNew. The
-- new object is at `addr`.
unfoldable pub create_msg : Agent → ℕ → RoutingType → ℤ → Fields → Agent × Built
unfolding make_key_and_value contents
create_msg a addr routing_type k f =
    let (p', made) = make_key_and_value a.pool f.key f.value in
    elim made [
      | none ↦ (record a { pool = p' }, no_mem)
      | some blob ↦ (
        record { pool = p'; tracker = msg_enter_new a.tracker },
        message (record {
          addr = addr;
          routing_type = routing_type;
          key = k;
          timestamp = f.timestamp;
          topic = f.topic;
          key_and_value = contents blob.blocks;
          key_size = length f.key;
        }),
      )
    ]

unfoldable pub build_any_partition_msg : Agent → ℕ → ℤ → Bytes → Agent × Built
unfolding create_msg read_any_partition
build_any_partition_msg a addr api_version [] = (a, assertion_fails)
build_any_partition_msg a addr api_version (b ∷ versioned_part) =
    if eq_ℤ api_version (pos 0)
    then elim (read_any_partition (b ∷ versioned_part)) [
      | none ↦ (a, malformed)
      | some f ↦ create_msg a addr any_partition (pos 0) f
    ]
    else (a, unsupported_version api_version)

unfoldable pub build_partition_key_msg : Agent → ℕ → ℤ → Bytes → Agent × Built
unfolding create_msg read_partition_key
build_partition_key_msg a addr api_version [] = (a, assertion_fails)
build_partition_key_msg a addr api_version (b ∷ versioned_part) =
    if eq_ℤ api_version (pos 0)
    then elim (read_partition_key (b ∷ versioned_part)) [
      | none ↦ (a, malformed)
      | some (k, f) ↦ create_msg a addr partition_key k f
    ]
    else (a, unsupported_version api_version)

unfoldable pub build_msg_from_dg : Agent → ℕ → Bytes → Agent × Built
unfolding build_any_partition_msg build_partition_key_msg
build_msg_from_dg a addr dg =
    let sz = of_u32 (read_u32 dg) in
    let api_key = of_u16 (read_u16 (drop 4 dg)) in
    let api_version = of_u16 (read_u16 (drop 6 dg)) in
    let versioned_part = drop 8 dg in
    if ltb (length dg) (4 + 2 + 2)
    then (a, malformed)
    else if ltb_ℤ sz (pos 0) || not (pos_part sz == length dg)
    then (a, malformed)
    else if eq_ℤ api_key (pos 256)
    then build_any_partition_msg a addr api_version versioned_part
    else if eq_ℤ api_key (pos 257)
    then build_partition_key_msg a addr api_version versioned_part
    else (a, unsupported_api_key api_key)
