-- ===== src/Tests/Requests.antt =====
-- Runs of the produce request factory.
use dory.Common.{◌≡◌, ◌<◌, ◌^◌, refl, List, [], ◌∷◌, true, arith}
use dory.Common.Int.{ℤ, pos, ◌+ℤ◌}
use dory.Common.Bytes.{Bytes, bytes_eq}
use dory.Common.Assoc.{lookup, put, insert, replace}
use dory.Msg.{Msg}
use dory.MsgDispatch.Factory.{
  ProduceRequestFactory, Built, built, build_request, bytes_lt, get_topic_data, TopicData,
  new_chooser,
}
use dory.MsgDispatch.Factory.Conserve.{Sends, CanSend, build_request-Sends}
use dory.MsgDispatch.Factory.Limit.{SendsWithin, CanFit, build_request-SendsWithin}
use dory.MsgDispatch.Factory.Ready.{AllMsgs}
use dory.MsgDispatch.Factory.Grouped.{AreChoices}
use dory.MsgDispatch.Factory.Unique.{SendsGrouped, build_request-SendsGrouped}
use dory.Tests.Data.{topic_a, topic_b, msg_1, msg_2, msg_3, is_msg_1}

-- Each topic has two partitions at the broker.
abbrev choices : Bytes → List ℤ
choices topic = pos 4 ∷ pos 6 ∷ []

abbrev partition_of : Msg → ℤ
partition_of m = pos 0

-- The limit is reached with the second message.
abbrev factory : ProduceRequestFactory
factory = record {
  produce_request_data_limit = 7;
  message_max_bytes = 1000;
  single_msg_overhead = 26;
  default_has_codec = true;
  corr_id_counter = pos 6;
  input_queue = (msg_1 ∷ []) ∷ (msg_3 ∷ []) ∷ (msg_2 ∷ []) ∷ [];
  topic_data_map = [];
}

abbrev used : TopicData
used = record { has_codec = true; chooser = record new_chooser { count = 1 } }

abbrev first_request : Built
first_request =
    built
      (record {
        corr_id = pos 7;
        all_topics = (topic_a, (pos 4, msg_1 ∷ []) ∷ []) ∷ (topic_b, (pos 4, msg_3 ∷ []) ∷ []) ∷ [];
      })
      (record factory {
        corr_id_counter = pos 7;
        input_queue = (msg_2 ∷ []) ∷ [];
        topic_data_map = (topic_a, used) ∷ (topic_b, used) ∷ [];
      })

makes_first_request : build_request choices partition_of factory ≡ first_request
unfolding build_request lookup bytes_eq put insert bytes_lt ◌+ℤ◌ replace
makes_first_request = refl

factory-CanSend :
    AllMsgs choices partition_of factory
      (CanSend choices partition_of factory)
      []
      factory.input_queue
factory-CanSend = (
  tt,
  (
    (omega arith, (omega arith, tt)),
    ((omega arith, (omega arith, tt)), ((omega arith, (omega arith, tt)), tt)),
  ),
)

factory-CanFit :
    AllMsgs choices partition_of factory
      (CanFit choices partition_of factory)
      []
      factory.input_queue
factory-CanFit = (
  tt,
  (
    (omega arith, ((omega arith, omega arith), tt)),
    (
      (omega arith, ((omega arith, omega arith), tt)),
      ((omega arith, ((omega arith, omega arith), tt)), tt),
    ),
  ),
)

factory-is_small : factory.produce_request_data_limit < 2 ^ 63
factory-is_small = omega arith

no_topics-AreChoices : AreChoices choices partition_of factory []
unfolding lookup get_topic_data
no_topics-AreChoices t p e = absurd cc

build_request-Sends_example :
    Sends choices partition_of factory is_msg_1 (build_request choices partition_of factory)
build_request-Sends_example =
    build_request-Sends choices partition_of factory is_msg_1 factory-CanSend

build_request-SendsWithin_example :
    SendsWithin choices partition_of factory factory-is_small
      (build_request choices partition_of factory)
build_request-SendsWithin_example =
    build_request-SendsWithin choices partition_of factory factory-is_small factory-CanFit

build_request-SendsGrouped_example :
    SendsGrouped choices partition_of factory (build_request choices partition_of factory)
build_request-SendsGrouped_example =
    build_request-SendsGrouped choices partition_of factory factory-CanSend no_topics-AreChoices
