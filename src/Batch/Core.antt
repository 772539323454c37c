-- ===== src/Batch/Core.antt =====
-- src/dory/batch/batch_config.h and batcher_core.cc: the state machine that decides when a batch is
-- complete. Counts are size_t and timestamps int64_t, with their wrap-around.
pub mod Limits
use dory.Common.{
  ℕ, ◌+◌, ◌<◌, ◌≡◌, Bool, true, false, ◌&&◌, ◌||◌, not, Option, none, some, leb, ltb, ◌==◌,
  if◌then◌else◌, max, one_if,
}
use dory.Common.Int.{ℤ, min_ℤ, leb_ℤ}
use dory.Common.Word.{add_u64, add_i64_u64, i64_max}
use dory.Msg.{Msg, body_size}

pub record BatchConfig : Type 0 where
  pub time_limit : ℕ
  pub msg_count : ℕ
  pub byte_count : ℕ

abbrev pub time_limit_is_enabled : BatchConfig → Bool
time_limit_is_enabled c = not (c.time_limit == 0)

abbrev pub msg_count_limit_is_enabled : BatchConfig → Bool
msg_count_limit_is_enabled c = not (c.msg_count == 0)

abbrev pub byte_count_limit_is_enabled : BatchConfig → Bool
byte_count_limit_is_enabled c = not (c.byte_count == 0)

abbrev pub batching_is_enabled : BatchConfig → Bool
batching_is_enabled c = not (c.time_limit == 0) || not (c.msg_count == 0) || not (c.byte_count == 0)

pub data Action : Type 0 where
  leave_msg_and_return_batch return_batch_and_take_msg : Action
  take_msg_and_return_batch take_msg_and_leave_batch : Action

pub record BatcherCore : Type 0 where
  pub config : BatchConfig
  pub min_timestamp : ℤ
  pub msg_count : ℕ
  pub byte_count : ℕ

pub new_core : BatchConfig → BatcherCore
new_core c = record { config = c; min_timestamp = i64_max; msg_count = 0; byte_count = 0 }

unfoldable pub clear_state : BatcherCore → BatcherCore
clear_state s = record s { min_timestamp = i64_max; msg_count = 0; byte_count = 0 }

abbrev pub is_empty : BatcherCore → Bool
is_empty s = s.msg_count == 0

unfoldable pub get_next_complete_time : BatcherCore → Option ℤ
get_next_complete_time s =
    if is_empty s || not (time_limit_is_enabled s.config)
    then none
    else some (add_i64_u64 s.min_timestamp s.config.time_limit)

unfoldable pub test_time_limit : BatcherCore → ℤ → ℤ → Bool
test_time_limit s now new_msg_timestamp =
    if not (time_limit_is_enabled s.config)
    then false
    else leb_ℤ (add_i64_u64 (min_ℤ s.min_timestamp new_msg_timestamp) s.config.time_limit) now

unfoldable pub test_msg_count : BatcherCore → Bool → Bool
test_msg_count s adding_msg =
    if not (msg_count_limit_is_enabled s.config)
    then false
    else leb s.config.msg_count (add_u64 s.msg_count (one_if adding_msg))

unfoldable pub test_byte_count : BatcherCore → ℕ → Bool
test_byte_count s bytes_to_add =
    if not (byte_count_limit_is_enabled s.config)
    then false
    else leb s.config.byte_count (add_u64 s.byte_count bytes_to_add)

unfoldable pub test_byte_count_exceeded : BatcherCore → ℕ → Bool
test_byte_count_exceeded s bytes_to_add =
    if not (byte_count_limit_is_enabled s.config)
    then false
    else ltb s.config.byte_count (add_u64 s.byte_count bytes_to_add)

unfoldable pub test_all_limits : BatcherCore → ℤ → Bool
unfolding test_time_limit test_msg_count test_byte_count
test_all_limits s now =
    test_time_limit s now i64_max || test_msg_count s false || test_byte_count s 0

unfoldable pub update_state : BatcherCore → ℤ → ℕ → BatcherCore
update_state s timestamp size = record s {
  min_timestamp = min_ℤ s.min_timestamp timestamp;
  msg_count = add_u64 s.msg_count 1;
  byte_count = add_u64 s.byte_count size;
}

-- The size that a message counts with: an empty body counts as one byte.
abbrev pub counted_size : Msg → ℕ
counted_size m = max 1 (body_size m)

-- The part after the first two early returns of ProcessNewMsg.
unfoldable pub process_exceeding : BatcherCore → ℤ → ℤ → ℕ → BatcherCore × Action
process_exceeding s now timestamp size =
    let cleared = clear_state s in
    if test_msg_count cleared true || test_time_limit cleared now timestamp
    then (cleared, leave_msg_and_return_batch)
    else (update_state cleared timestamp size, return_batch_and_take_msg)

unfoldable pub process_fitting : BatcherCore → ℤ → ℤ → ℕ → BatcherCore × Action
process_fitting s now timestamp size =
    let updated = update_state s timestamp size in
    if test_all_limits updated now
    then (clear_state updated, take_msg_and_return_batch)
    else (updated, take_msg_and_leave_batch)

unfoldable pub process_new_msg : BatcherCore → ℤ → Msg → BatcherCore × Action
process_new_msg s now m =
    let size = counted_size m in
    if not (batching_is_enabled s.config)
    then (s, leave_msg_and_return_batch)
    else if byte_count_limit_is_enabled s.config && leb s.config.byte_count size
    then (clear_state s, leave_msg_and_return_batch)
    else if test_byte_count_exceeded s size
    then process_exceeding s now m.timestamp size
    else process_fitting s now m.timestamp size
