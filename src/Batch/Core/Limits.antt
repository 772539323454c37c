-- ===== src/Batch/Core/Limits.antt =====
-- What a batch may hold: the limits of TBatcherCore::ProcessNewMsg, in plain arithmetic.
use dory.Common.{ℕ, ◌+◌, ◌^◌, ◌≤◌, ◌<◌, ◌≡◌, true, arith, ◌⊎◌}
use dory.Common.Int.{ℤ, ◌≤ℤ◌, ltb_ℤ, min_ℤ}
use dory.Common.Word.{add_i64_u64, i64_max}
use dory.Msg.{Msg}
use dory.Batch.Core.{
  BatchConfig, BatcherCore, Action, leave_msg_and_return_batch, return_batch_and_take_msg,
  take_msg_and_return_batch, take_msg_and_leave_batch, new_core, clear_state, process_new_msg,
  test_time_limit, test_msg_count, test_byte_count_exceeded, test_all_limits, update_state,
  counted_size, process_exceeding, process_fitting, batching_is_enabled,
}

-- A pending batch is below each limit that is set, and an empty one has no size and no age.
pub record IsPending (s : BatcherCore) : Type 0 where
  pub count_below : (s.config.msg_count ≡ 0) ⊎ (s.msg_count < s.config.msg_count)
  pub bytes_below : (s.config.byte_count ≡ 0) ⊎ (s.byte_count < s.config.byte_count)
  pub empty_bytes : (0 < s.msg_count) ⊎ (s.byte_count ≡ 0)
  pub empty_timestamp : (0 < s.msg_count) ⊎ (s.min_timestamp ≡ i64_max)

pub new_core-IsPending : (c : BatchConfig) → IsPending (new_core c)
unfolding new_core
new_core-IsPending c = ground arith

pub clear_state-IsPending : (s : BatcherCore) → IsPending (clear_state s)
unfolding clear_state
clear_state-IsPending s = ground arith

-- What a batch handed over by the action holds, in messages and in bytes, and what was not taken.
pub record Amount : Type 0 where
  pub msgs : ℕ
  pub bytes : ℕ

abbrev pub returned : BatcherCore → ℕ → Action → Amount
returned s size leave_msg_and_return_batch = record { msgs = s.msg_count; bytes = s.byte_count }
returned s size return_batch_and_take_msg = record { msgs = s.msg_count; bytes = s.byte_count }
returned s size take_msg_and_return_batch = record {
  msgs = s.msg_count + 1;
  bytes = s.byte_count + size;
}
returned s size take_msg_and_leave_batch = record { msgs = 0; bytes = 0 }

abbrev pub left : ℕ → Action → Amount
left size leave_msg_and_return_batch = record { msgs = 1; bytes = size }
left size return_batch_and_take_msg = record { msgs = 0; bytes = 0 }
left size take_msg_and_return_batch = record { msgs = 0; bytes = 0 }
left size take_msg_and_leave_batch = record { msgs = 0; bytes = 0 }

-- The counters have room for one more message of the size.
abbrev pub HasRoom : BatcherCore → ℕ → Type 0
HasRoom s size = (s.msg_count + 1 < 2 ^ 64) × (s.byte_count + size < 2 ^ 64)

process_exceeding-IsPending :
    (s : BatcherCore) (now timestamp : ℤ) (size : ℕ)
    → size < s.config.byte_count
    → HasRoom s size
    → IsPending (process_exceeding s now timestamp size).0
unfolding process_exceeding clear_state test_msg_count test_time_limit update_state
process_exceeding-IsPending s now timestamp size h room = ground arith

process_fitting-IsPending :
    (s : BatcherCore) (now timestamp : ℤ) (size : ℕ)
    → HasRoom s size
    → IsPending (process_fitting s now timestamp size).0
unfolding process_fitting clear_state test_all_limits update_state
process_fitting-IsPending s now timestamp size room = ground arith

-- If the pending batch is below every limit that is set and an empty one has no size or age, and
-- the counters do not wrap, the same holds after ProcessNewMsg.
pub process_new_msg-IsPending :
    (s : BatcherCore) (now : ℤ) (m : Msg)
    → IsPending s
    → HasRoom s (counted_size m)
    → IsPending (process_new_msg s now m).0
unfolding process_new_msg test_byte_count_exceeded
process_new_msg-IsPending s now m v room = ground (
  arith,
  clear_state-IsPending s,
  process_exceeding-IsPending s now m.timestamp (counted_size m),
  process_fitting-IsPending s now m.timestamp (counted_size m),
)

process_exceeding-accounts :
    (s : BatcherCore) (now timestamp : ℤ) (size : ℕ)
    → HasRoom s size
    → let r = process_exceeding s now timestamp size in
      (r.0.msg_count + (returned s size r.1).msgs + (left size r.1).msgs ≡ s.msg_count + 1)
      × (r.0.byte_count + (returned s size r.1).bytes + (left size r.1).bytes ≡ s.byte_count + size)
unfolding process_exceeding clear_state test_msg_count test_time_limit update_state
process_exceeding-accounts s now timestamp size room = ground arith

process_fitting-accounts :
    (s : BatcherCore) (now timestamp : ℤ) (size : ℕ)
    → HasRoom s size
    → let r = process_fitting s now timestamp size in
      (r.0.msg_count + (returned s size r.1).msgs + (left size r.1).msgs ≡ s.msg_count + 1)
      × (r.0.byte_count + (returned s size r.1).bytes + (left size r.1).bytes ≡ s.byte_count + size)
unfolding process_fitting clear_state update_state
process_fitting-accounts s now timestamp size room = ground arith

-- If some limit is set and the counters do not wrap, the messages and the bytes that ProcessNewMsg
-- leaves pending, hands over and leaves with the caller add up to those pending before and the new
-- message's.
pub process_new_msg-accounts :
    (s : BatcherCore) (now : ℤ) (m : Msg)
    → batching_is_enabled s.config ≡ true
    → HasRoom s (counted_size m)
    → let size = counted_size m in
      let r = process_new_msg s now m in
      (r.0.msg_count + (returned s size r.1).msgs + (left size r.1).msgs ≡ s.msg_count + 1)
      × (r.0.byte_count + (returned s size r.1).bytes + (left size r.1).bytes ≡ s.byte_count + size)
unfolding process_new_msg clear_state
process_new_msg-accounts s now m enabled room = ground (
  arith,
  process_exceeding-accounts s now m.timestamp (counted_size m),
  process_fitting-accounts s now m.timestamp (counted_size m),
)

-- If the pending batch is below every limit that is set, an empty one has no size or age, and the
-- counters do not wrap, then the batch that ProcessNewMsg hands over has at most as many messages
-- as the limit on messages, and at most as many bytes as the limit on bytes, where these are set.
pub process_new_msg-returned-le :
    (s : BatcherCore) (now : ℤ) (m : Msg)
    → IsPending s
    → HasRoom s (counted_size m)
    → let batch = returned s (counted_size m) (process_new_msg s now m).1 in
      ((s.config.msg_count ≡ 0) ⊎ (batch.msgs ≤ s.config.msg_count))
      × ((s.config.byte_count ≡ 0) ⊎ (batch.bytes ≤ s.config.byte_count))
unfolding process_new_msg process_exceeding process_fitting test_byte_count_exceeded
process_new_msg-returned-le s now m v room = ground arith

-- If ProcessNewMsg leaves the batch pending with the message in it, the counters do not wrap and
-- the timestamp is an int64_t's at most, then each limit that is set is not reached: there are
-- fewer messages and fewer bytes than allowed, and now is before the batch's deadline.
pub process_new_msg-waits :
    (s : BatcherCore) (now : ℤ) (m : Msg)
    → HasRoom s (counted_size m)
    → m.timestamp ≤ℤ i64_max
    → (process_new_msg s now m).1 ≡ take_msg_and_leave_batch
    → ((s.config.msg_count ≡ 0) ⊎ (s.msg_count + 1 < s.config.msg_count))
      × ((s.config.byte_count ≡ 0) ⊎ (s.byte_count + counted_size m < s.config.byte_count))
      × ((s.config.time_limit ≡ 0)
          ⊎ (ltb_ℤ now (add_i64_u64 (min_ℤ s.min_timestamp m.timestamp) s.config.time_limit)
              ≡ true))
unfolding process_new_msg process_exceeding process_fitting test_all_limits update_state
process_new_msg-waits s now m room fits h = ground arith
