-- ===== src/Batch/CombinedTopics.antt =====
-- src/dory/batch/combined_topics_batcher.cc: one batch over several topics, grouped by topic.
use dory.Common.{
  ◌+◌, ◌≡◌, Bool, true, false, not, ◌&&◌, ◌||◌, List, [], ◌∷◌, Option, none, some, if◌then◌else◌,
  arith, count_if, count_all, one_if, to_list, Bool-cases, inl, inr,
}
use dory.Common.Int.{ℤ, leb_ℤ}
use dory.Common.Bytes.{Bytes, bytes_eq}
use dory.Msg.{Msg}
use dory.Batch.Core
use dory.Batch.Core.{
  BatchConfig, BatcherCore, Action, leave_msg_and_return_batch, return_batch_and_take_msg,
  take_msg_and_return_batch, take_msg_and_leave_batch, new_core, clear_state, process_new_msg,
  batching_is_enabled, counted_size,
}
use dory.Batch.TopicMap.{TopicMap, put, get_all, count_map, count_map-put, count_all-get_all}

pub record CombinedTopicsBatcher : Type 0 where
  pub core_state : BatcherCore
  pub topic_filter : List Bytes
  pub exclude_topic_filter : Bool
  pub topic_map : TopicMap

unfoldable pub new_batcher : BatchConfig → List Bytes → Bool → CombinedTopicsBatcher
new_batcher c filter exclude = record {
  core_state = new_core c;
  topic_filter = filter;
  exclude_topic_filter = exclude;
  topic_map = [];
}

unfoldable pub has_topic : List Bytes → Bytes → Bool
has_topic [] topic = false
has_topic (t ∷ ts) topic = bytes_eq t topic || has_topic ts topic

abbrev is_nil : List Bytes → Bool
is_nil [] = true
is_nil (t ∷ ts) = false

abbrev bool_eq : Bool → Bool → Bool
bool_eq true b = b
bool_eq false b = not b

-- Batching is enabled for at least one topic.
pub some_batching_is_enabled : CombinedTopicsBatcher → Bool
some_batching_is_enabled b =
    (b.exclude_topic_filter || not (is_nil b.topic_filter))
    && batching_is_enabled b.core_state.config

-- Batching is enabled for the topic.
pub topic_batching_is_enabled : CombinedTopicsBatcher → Bytes → Bool
topic_batching_is_enabled b topic =
    if not (batching_is_enabled b.core_state.config)
    then false
    else if is_nil b.topic_filter
    then b.exclude_topic_filter
    else bool_eq (not (has_topic b.topic_filter topic)) b.exclude_topic_filter

unfoldable pub get_next_complete_time : CombinedTopicsBatcher → Option ℤ
get_next_complete_time b = Core.get_next_complete_time b.core_state

unfoldable pub take_batch : CombinedTopicsBatcher → CombinedTopicsBatcher × List (List Msg)
take_batch b =
    (record b { core_state = clear_state b.core_state; topic_map = [] }, get_all b.topic_map)

pub record Added : Type 0 where
  pub batcher : CombinedTopicsBatcher
  pub batches : List (List Msg)
  pub left : Option Msg

pub act_on : CombinedTopicsBatcher → Msg → BatcherCore × Action → Added
act_on b m (core, leave_msg_and_return_batch) = record {
  batcher = record b { core_state = core; topic_map = [] };
  batches = get_all b.topic_map;
  left = some m;
}
act_on b m (core, return_batch_and_take_msg) = record {
  batcher = record b { core_state = core; topic_map = put [] m };
  batches = get_all b.topic_map;
  left = none;
}
act_on b m (core, take_msg_and_return_batch) = record {
  batcher = record b { core_state = core; topic_map = [] };
  batches = get_all (put b.topic_map m);
  left = none;
}
act_on b m (core, take_msg_and_leave_batch) = record {
  batcher = record b { core_state = core; topic_map = put b.topic_map m };
  batches = [];
  left = none;
}

-- Whether the deadline of the pending batch has passed.
abbrev pub is_due : Option ℤ → ℤ → Bool
is_due none now = false
is_due (some t) now = leb_ℤ t now

-- A message of a topic that is not batched stays with the caller, and the batch goes out if it is due.
pub add_unbatched : CombinedTopicsBatcher → Msg → ℤ → Added
add_unbatched b m now =
    if is_due (get_next_complete_time b) now
    then record {
      batcher = record b { core_state = clear_state b.core_state; topic_map = [] };
      batches = get_all b.topic_map;
      left = some m;
    }
    else record { batcher = b; batches = []; left = some m }

pub add_msg : CombinedTopicsBatcher → Msg → ℤ → Added
add_msg b m now =
    if not (topic_batching_is_enabled b m.topic)
    then add_unbatched b m now
    else act_on b m (process_new_msg b.core_state now m)

module _ (p : Msg → Bool) where
  act_on-count :
      (b : CombinedTopicsBatcher) (m : Msg) (r : BatcherCore × Action)
      → let a = act_on b m r in
        count_all p a.batches + count_map p a.batcher.topic_map + count_if p (to_list a.left)
        ≡ count_map p b.topic_map + one_if (p m)
  unfolding act_on count_map
  act_on-count b m (core, leave_msg_and_return_batch) =
      omega (arith, count_all-get_all p b.topic_map)
  act_on-count b m (core, return_batch_and_take_msg) =
      omega (arith, count_all-get_all p b.topic_map, count_map-put p [] m)
  act_on-count b m (core, take_msg_and_return_batch) =
      omega (arith, count_all-get_all p (put b.topic_map m), count_map-put p b.topic_map m)
  act_on-count b m (core, take_msg_and_leave_batch) = omega (arith, count_map-put p b.topic_map m)

  add_unbatched-count :
      (b : CombinedTopicsBatcher) (m : Msg) (now : ℤ)
      → let a = add_unbatched b m now in
        count_all p a.batches + count_map p a.batcher.topic_map + count_if p (to_list a.left)
        ≡ count_map p b.topic_map + one_if (p m)
  unfolding add_unbatched count_map
  add_unbatched-count b m now = ground (arith, count_all-get_all p b.topic_map)

  -- For every test on messages, the batches that the combined topics batcher's AddMsg returns, the
  -- topic map afterwards and what is left with the caller have together as many messages that pass
  -- it as the topic map before and the new message.
  pub add_msg-count_topics :
      (b : CombinedTopicsBatcher) (m : Msg) (now : ℤ)
      → let a = add_msg b m now in
        count_all p a.batches + count_map p a.batcher.topic_map + count_if p (to_list a.left)
        ≡ count_map p b.topic_map + one_if (p m)
  unfolding add_msg
  add_msg-count_topics b m now = elim (Bool-cases (topic_batching_is_enabled b m.topic)) [
    | inl e ↦ rw e (act_on-count b m (process_new_msg b.core_state now m))
    | inr e ↦ rw e (add_unbatched-count b m now)
  ]

  pub take_batch-count :
      (b : CombinedTopicsBatcher)
      → count_all p (take_batch b).1 + count_map p (take_batch b).0.topic_map
        ≡ count_map p b.topic_map
  unfolding take_batch count_map
  take_batch-count b = omega (arith, count_all-get_all p b.topic_map)
