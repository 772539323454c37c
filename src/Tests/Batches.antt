-- ===== src/Tests/Batches.antt =====
-- Concrete runs of the batchers of src/dory/batch.
use dory.Common.{
  ◌+◌, ◌≤◌, ◌≡◌, ◌⊎◌, refl, [], ◌∷◌, ◌++◌, count_all, count_if, to_list, one_if, arith,
}
use dory.Common.Int.{pos}
use dory.Common.Word.{add_i64_u64}
use dory.Batch.Core.{
  process_new_msg, take_msg_and_leave_batch, process_exceeding, process_fitting, test_all_limits,
  update_state, test_time_limit, test_msg_count, test_byte_count, test_byte_count_exceeded,
}
use dory.Batch.Core.Limits.{
  IsPending, returned, process_new_msg-IsPending, process_new_msg-returned-le,
}
use dory.Batch.SingleTopic.{add_msg-order, add_msg-IsCounted, IsCounted}
use dory.Batch.SingleTopic
use dory.Batch.CombinedTopics.{add_msg-count_topics}
use dory.Batch.CombinedTopics
use dory.Batch.PerTopic.{get_complete_batches, get_all_batches, delete_topic}
use dory.Batch.PerTopic
use dory.Batch.PerTopic.Conserve.{count_entries, add_msg-count}
use dory.Batch.TopicMap.{count_map}
use dory.Tests.Data.{
  msg_1, msg_2, is_msg_1, empty_core, waiting_core, single_batcher, combined_batcher,
  per_topic_batcher,
}

waiting_core-IsPending : IsPending waiting_core
waiting_core-IsPending = ground arith

process_new_msg-IsPending_example : IsPending (process_new_msg waiting_core (pos 1100) msg_2).0
process_new_msg-IsPending_example =
    process_new_msg-IsPending waiting_core (pos 1100) msg_2 waiting_core-IsPending
      (omega arith, omega arith)

process_new_msg-returned-le_example :
    let batch = returned waiting_core 3 (process_new_msg waiting_core (pos 1100) msg_2).1 in
    ((waiting_core.config.msg_count ≡ 0) ⊎ (batch.msgs ≤ waiting_core.config.msg_count))
    × ((waiting_core.config.byte_count ≡ 0) ⊎ (batch.bytes ≤ waiting_core.config.byte_count))
process_new_msg-returned-le_example =
    process_new_msg-returned-le waiting_core (pos 1100) msg_2 waiting_core-IsPending
      (omega arith, omega arith)

-- The first message of a batch waits.
msg_2-waits : (process_new_msg empty_core (pos 1100) msg_2).1 ≡ take_msg_and_leave_batch
unfolding process_new_msg process_exceeding process_fitting test_all_limits update_state
    test_time_limit test_msg_count test_byte_count test_byte_count_exceeded add_i64_u64
msg_2-waits = refl

add_msg-order_example :
    let a = SingleTopic.add_msg single_batcher msg_2 (pos 1100) in
    a.batch ++ (a.batcher.msg_list ++ to_list a.left) ≡ single_batcher.msg_list ++ (msg_2 ∷ [])
add_msg-order_example = add_msg-order single_batcher msg_2 (pos 1100)

add_msg-count_topics_example :
    let a = CombinedTopics.add_msg combined_batcher msg_1 (pos 1100) in
    count_all is_msg_1 a.batches
      + count_map is_msg_1 a.batcher.topic_map
      + count_if is_msg_1 (to_list a.left)
    ≡ count_map is_msg_1 combined_batcher.topic_map + one_if (is_msg_1 msg_1)
add_msg-count_topics_example = add_msg-count_topics is_msg_1 combined_batcher msg_1 (pos 1100)

add_msg-count_example :
    let a = PerTopic.add_msg per_topic_batcher msg_2 (pos 1100) in
    count_all is_msg_1 a.batches
      + count_entries is_msg_1 a.batcher.batch_map
      + count_if is_msg_1 (to_list a.left)
    ≡ count_entries is_msg_1 per_topic_batcher.batch_map + one_if (is_msg_1 msg_2)
add_msg-count_example = add_msg-count is_msg_1 per_topic_batcher msg_2 (pos 1100)
