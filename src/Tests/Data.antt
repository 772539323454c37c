-- ===== src/Tests/Data.antt =====
-- A few messages, and batchers to put them into.
use dory.Common.{ℕ, ◌%◌, Bool, [], ◌∷◌, some, ◌==◌, true}
use dory.Common.Int.{pos}
use dory.Common.Word.{i64_max}
use dory.Common.Bytes.{Bytes}
use dory.Msg.{Msg, any_partition, processed}
use dory.Batch.Core.{BatchConfig, BatcherCore}
use dory.Batch.SingleTopic.{SingleTopicBatcher}
use dory.Batch.CombinedTopics.{CombinedTopicsBatcher}
use dory.Batch.PerTopic.{PerTopicBatcher}
use dory.BrokerMsgQueue.{BrokerMsgQueue}
use dory.MsgStateTracker.{MsgStateTracker}

abbrev pub topic_a : Bytes
topic_a = 97 ∷ []

abbrev pub topic_b : Bytes
topic_b = 98 ∷ []

abbrev pub msg_at : ℕ → Bytes → Msg
msg_at addr topic = record {
  addr = addr;
  routing_type = any_partition;
  key = pos 0;
  timestamp = pos 1000;
  topic = topic;
  key_and_value = 1 ∷ 2 ∷ 3 ∷ [];
  key_size = 1;
}

abbrev pub msg_1 : Msg
msg_1 = msg_at 1 topic_a

abbrev pub msg_2 : Msg
msg_2 = msg_at 2 topic_a

abbrev pub msg_3 : Msg
msg_3 = msg_at 3 topic_b

-- The test that tells one message from all others.
abbrev pub is_msg_1 : Msg → Bool
is_msg_1 m = m.addr == 1

abbrev pub two_msgs_config : BatchConfig
two_msgs_config = record { time_limit = 500; msg_count = 2; byte_count = 100 }

abbrev pub empty_core : BatcherCore
empty_core = record {
  config = two_msgs_config;
  min_timestamp = i64_max;
  msg_count = 0;
  byte_count = 0;
}

-- One message waits.
abbrev pub waiting_core : BatcherCore
waiting_core = record {
  config = two_msgs_config;
  min_timestamp = pos 1000;
  msg_count = 1;
  byte_count = 3;
}

abbrev pub single_batcher : SingleTopicBatcher
single_batcher = record { core_state = waiting_core; msg_list = msg_1 ∷ [] }

abbrev pub combined_batcher : CombinedTopicsBatcher
combined_batcher = record {
  core_state = waiting_core;
  topic_filter = [];
  exclude_topic_filter = true;
  topic_map = (topic_b, msg_3 ∷ []) ∷ [];
}

abbrev pub per_topic_batcher : PerTopicBatcher
per_topic_batcher = record {
  config = some (record { default_topic = two_msgs_config; per_topic = [] });
  batch_map = (topic_a, record { batcher = single_batcher; expiry_ref = some 0 }) ∷ [];
  expiry_tracker = (record { ref = 0; expiry = pos 1500; topic = topic_a }) ∷ [];
  next_ref = 1;
}

abbrev pub empty_tracker : MsgStateTracker
empty_tracker = record { states = λ addr. processed; topic_stats = []; new_count = pos 0 }

abbrev pub queue : BrokerMsgQueue
queue = record {
  sender_notify = 0;
  per_topic_batcher = per_topic_batcher;
  combined_topics_batcher = combined_batcher;
  ready_list = [];
  msg_state_tracker = empty_tracker;
}

abbrev pub is_odd_block : ℕ → Bool
is_odd_block b = b % 2 == 1
