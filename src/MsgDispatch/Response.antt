-- ===== src/MsgDispatch/Response.antt =====
-- src/dory/msg_dispatch/produce_response_processor.*: a produce response against its request. The
-- response is what the reader of the Kafka protocol yields of it, step by step; the exception
-- TBadProduceResponse may end it anywhere.
use dory.Common.{ℕ, Bool, true, false, not, ◌||◌, List, [], ◌∷◌, Option, none, some, if◌then◌else◌}
use dory.Common.Int.{ℤ, eq_ℤ}
use dory.Common.Bytes.{Bytes}
use dory.MsgDispatch.Request.{
  MultiPartitionGroup, AllTopics, ProduceRequest, find_partition, erase_partition, find_group,
  erase_topic, set_group,
}
use dory.MsgDispatch.Processor.{Processor, is_nil, process_no_ack_msgs, process_one_ack}

-- What the reader yields of a topic: partitions with their error codes, and whether it throws after
-- the last of them.
pub record TopicAcks : Type 0 where
  pub topic : Bytes
  pub acks : List (ℤ × ℤ)
  pub truncated : Bool

pub record Response : Type 0 where
  pub corr_id : ℤ
  pub topics : List TopicAcks
  pub truncated : Bool

pub data Action : Type 0 where
  keep_running pause_and_defer_finish pause_and_finish_now : Action

-- An action, or the exception with what the request still holds.
pub data Processed : Type 0 where
  acts : Action → Processor → Processed
  throws : Processor → AllTopics → Processed

-- How the loop over a topic's partitions ends: all read, at a partition that the request does not
-- have, or by the exception.
pub data PartitionsEnd : Type 0 where
  finished unexpected_partition bad_response : PartitionsEnd

abbrev pub is_unexpected : PartitionsEnd → Bool
is_unexpected unexpected_partition = true
is_unexpected finished = false
is_unexpected bad_response = false

abbrev pub is_bad_response : PartitionsEnd → Bool
is_bad_response bad_response = true
is_bad_response finished = false
is_bad_response unexpected_partition = false

pub record Partitions : Type 0 where
  pub processor : Processor
  pub group : MultiPartitionGroup
  pub got_pause_ack : Bool
  pub end : PartitionsEnd

-- What follows the loop over the topics.
unfoldable pub finish : Processor → AllTopics → Bool → Bool → Processed
unfolding process_no_ack_msgs
finish p all_topics got_pause_ack bad =
    if bad || not (is_nil all_topics)
    then acts pause_and_finish_now (process_no_ack_msgs p all_topics)
    else acts (if got_pause_ack then pause_and_defer_finish else keep_running) p

module _ (max_failed_delivery_attempts : ℕ) where
  unfoldable pub process_partitions :
      Processor → MultiPartitionGroup → Bool → List (ℤ × ℤ) → Bool → Partitions
  unfolding process_one_ack find_partition erase_partition
  process_partitions p group got_pause_ack [] truncated = record {
    processor = p;
    group = group;
    got_pause_ack = got_pause_ack;
    end = if truncated then bad_response else finished;
  }
  process_partitions p group got_pause_ack ((id, code) ∷ acks) truncated =
      elim (find_partition id group) [
        | none ↦ record {
          processor = p;
          group = group;
          got_pause_ack = got_pause_ack;
          end = unexpected_partition;
        }
        | some ms ↦
            let (q, go_on) = process_one_ack max_failed_delivery_attempts p ms code in
            process_partitions q (erase_partition id group) (got_pause_ack || not go_on) acks
              truncated
      ]

  unfoldable pub process_topics :
      Processor → AllTopics → Bool → Bool → List TopicAcks → Bool → Processed
  unfolding process_partitions finish find_group erase_topic set_group
  process_topics p all_topics got_pause_ack bad [] truncated =
      if truncated then throws p all_topics else finish p all_topics got_pause_ack bad
  process_topics p all_topics got_pause_ack bad (t ∷ topics) truncated =
      elim (find_group t.topic all_topics) [
        | none ↦ finish p all_topics got_pause_ack true
        | some group ↦
            let r = process_partitions p group got_pause_ack t.acks t.truncated in
            let left = set_group t.topic r.group all_topics in
            let rest =
              process_topics r.processor (erase_topic t.topic all_topics) r.got_pause_ack
                (bad || is_unexpected r.end) topics truncated in
            if is_bad_response r.end
            then throws r.processor left
            else if is_nil r.group
            then rest
            else finish r.processor left r.got_pause_ack true
      ]

  -- ProcessResponse; there is no response if SetResponse throws.
  unfoldable pub process_response : Processor → ProduceRequest → Option Response → Processed
  unfolding process_topics process_no_ack_msgs
  process_response p request none = throws p request.all_topics
  process_response p request (some response) =
      if eq_ℤ response.corr_id request.corr_id
      then process_topics p request.all_topics false false response.topics response.truncated
      else acts pause_and_finish_now (process_no_ack_msgs p request.all_topics)
