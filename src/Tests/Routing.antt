-- ===== src/Tests/Routing.antt =====
-- Runs of a metadata response, and of routing by the metadata that is built of it.
use dory.Common.{
  get_elem?, if◌then◌else◌, ◌==◌, ℕ, zero, suc, ◌+◌, ◌≡◌, ◌<◌, refl, ap, ◌∙◌, List, [], ◌∷◌, some,
  length, arith, count_if,
}
use dory.Common.Int.{pos, eq_ℤ}
use dory.Common.Word.{to_u32}
use dory.Metadata.Defs.{Broker, Partition, Topic, Metadata, find_topic, find_partition_choices}
use dory.Common.Bytes.{bytes_eq}
use dory.Common.Assoc.{lookup, put, replace, insert}
use dory.Metadata.Builder.{by_broker, by_id}
use dory.Metadata.Build.{ResponseBroker, ResponsePartition, ResponseTopic, build_metadata}
use dory.Metadata.Topics.{Permutes}
use dory.Metadata.Order.{IsReordering}
use dory.Metadata.Choices.{Lists, find_partition_choices-Lists}
use dory.Router.Choose.{
  Router, picks, is_in_service, choose_partition_by_key, choose_any_partition_broker_index,
}
use dory.Router.Served.Labels.{can_send}
use dory.Router.Served.Choice.{NoneServed, choose_partition_by_key-build_metadata}
use dory.Router.ByKey.{IsPick, choose_partition_by_key-unavailable}
use dory.Router.Reach.{choose_any_partition_broker_index-choices}
use dory.Batch.TopicMap.{put_batch, get_all}
use dory.Router.Reroute.{Rerouted, reroute}
use dory.Msg.{Msg, partition_key}
use dory.Tests.Data.{msg_at, msg_1, msg_2, msg_3, topic_a, topic_b}

-- The order in which the brokers already stand.
abbrev from : ℕ → ℕ → List ℕ
from i zero = []
from i (suc n) = i ∷ from (suc i) n

abbrev as_they_stand : List Broker → List ℕ
as_they_stand bs = from 0 (length bs)

length-from : (i n : ℕ) → length (from i n) ≡ n
length-from i zero = refl
length-from i (suc n) = ap suc (length-from (suc i) n)

get_elem?-from : (i n j : ℕ) → j < n → get_elem? (from i n) j ≡ some (i + j)
get_elem?-from i zero j h = absurd (omega arith)
get_elem?-from i (suc n) zero h = ap some (omega arith)
get_elem?-from i (suc n) (suc j) h =
    get_elem?-from (suc i) n j (omega arith) ∙ ap some (omega arith)

from-get_elem? : (i n j k : ℕ) → get_elem? (from i n) j ≡ some k → (k ≡ i + j) × (j < n)
from-get_elem? i zero j k e = absurd cc
from-get_elem? i (suc n) zero k e = let same : i ≡ k = cc in (omega arith, omega arith)
from-get_elem? i (suc n) (suc j) k e =
    let (same, lt) = from-get_elem? (suc i) n j k e in (omega arith, omega arith)

as_they_stand-IsReordering : (bs : List Broker) → IsReordering (length bs) (as_they_stand bs)
as_they_stand-IsReordering bs =
    let n = length bs in
    record {
      complete = λ k lt. (k, get_elem?-from 0 n k lt ∙ ap some (omega arith));
      in_range = λ j k e. let (same, lt) = from-get_elem? 0 n j k e in omega arith;
      once = λ i j k e f.
          let (same_i, lt_i) = from-get_elem? 0 n i k e in
          let (same_j, lt_j) = from-get_elem? 0 n j k f in omega arith;
      same_length = length-from 0 n;
    }

abbrev unshuffled : List Partition → List Partition
unshuffled ps = ps

unshuffled-Permutes : Permutes unshuffled
unshuffled-Permutes test ps = refl

-- Two brokers, of which the first leads two partitions, one of them with an error.
abbrev response_brokers : List ResponseBroker
response_brokers =
    record { node_id = pos 7; host = topic_a; port = 9092 }
    ∷ record { node_id = pos 8; host = topic_b; port = 9092 }
    ∷ []

abbrev response_partitions : List ResponsePartition
response_partitions =
    record { error_code = pos 0; id = pos 2; leader_id = pos 8 }
    ∷ record { error_code = pos 5; id = pos 1; leader_id = pos 7 }
    ∷ record { error_code = pos 0; id = pos 0; leader_id = pos 7 }
    ∷ []

abbrev response_topics : List ResponseTopic
response_topics =
    record { error_code = pos 0; name = topic_a; partitions = response_partitions } ∷ []

abbrev part : ℕ → ℕ → ℕ → Partition
part id broker_index error_code = record {
  id = pos id;
  broker_index = broker_index;
  error_code = pos error_code;
}

abbrev found_topic : Topic
found_topic = record {
  ok_partitions = part 0 0 0 ∷ part 2 1 0 ∷ [];
  out_of_service_partitions = part 1 0 5 ∷ [];
  all_partitions = part 0 0 0 ∷ part 1 0 5 ∷ part 2 1 0 ∷ [];
  partition_choice_map =
      (1, record { topic_broker_vec_index = 1; topic_broker_vec_num_items = 1 })
      ∷ (0, record { topic_broker_vec_index = 0; topic_broker_vec_num_items = 1 })
      ∷ [];
}

abbrev cluster : Metadata
cluster = build_metadata unshuffled as_they_stand response_brokers response_topics

cluster-topic : find_topic topic_a cluster ≡ some found_topic
unfolding find_topic build_metadata lookup bytes_eq by_broker by_id
cluster-topic = refl

cluster-choices : find_partition_choices cluster topic_a 1 ≡ pos 2 ∷ []
unfolding find_partition_choices build_metadata lookup bytes_eq by_broker
cluster-choices = refl

find_partition_choices-Lists_example :
    Lists (find_partition_choices cluster topic_a 1) 1 found_topic
find_partition_choices-Lists_example =
    find_partition_choices-Lists unshuffled as_they_stand unshuffled-Permutes
      as_they_stand-IsReordering response_brokers response_topics topic_a 1 found_topic
      cluster-topic

abbrev router_at : List ℕ → Router
router_at counters = record { metadata = cluster; route_counters = counters }

-- The counter is incremented before it is used.
routed :
    choose_any_partition_broker_index (router_at (0 ∷ [])) topic_a ≡ some (1, router_at (1 ∷ []))
unfolding choose_any_partition_broker_index build_metadata lookup bytes_eq by_broker
routed = refl

choose_any_partition_broker_index-choices_example :
    0 < length (find_partition_choices cluster topic_a 1)
choose_any_partition_broker_index-choices_example =
    choose_any_partition_broker_index-choices unshuffled as_they_stand unshuffled-Permutes
      as_they_stand-IsReordering response_brokers response_topics (router_at (0 ∷ []))
      (router_at (1 ∷ [])) topic_a 1 refl routed

-- The second broker leads only a partition with an error.
abbrev failing_partitions : List ResponsePartition
failing_partitions =
    record { error_code = pos 0; id = pos 2; leader_id = pos 7 }
    ∷ record { error_code = pos 5; id = pos 1; leader_id = pos 8 }
    ∷ record { error_code = pos 9; id = pos 0; leader_id = pos 7 }
    ∷ []

abbrev failing_topics : List ResponseTopic
failing_topics = record { error_code = pos 0; name = topic_a; partitions = failing_partitions } ∷ []

abbrev failing_topic : Topic
failing_topic = record {
  ok_partitions = part 0 0 9 ∷ part 2 0 0 ∷ [];
  out_of_service_partitions = part 1 1 5 ∷ [];
  all_partitions = part 0 0 9 ∷ part 1 1 5 ∷ part 2 0 0 ∷ [];
  partition_choice_map =
      (0, record { topic_broker_vec_index = 0; topic_broker_vec_num_items = 2 }) ∷ [];
}

abbrev failing_cluster : Metadata
failing_cluster = build_metadata unshuffled as_they_stand response_brokers failing_topics

failing_cluster-topic : find_topic topic_a failing_cluster ≡ some failing_topic
unfolding find_topic build_metadata lookup bytes_eq by_broker by_id
failing_cluster-topic = refl

failing_cluster-NoneServed :
    NoneServed failing_cluster.brokers failing_topic.out_of_service_partitions
unfolding build_metadata by_broker is_in_service lookup
failing_cluster-NoneServed = (refl, tt)

-- The key leads to the partition with an error, and the next one is chosen.
next_chosen :
    choose_partition_by_key failing_cluster.brokers failing_topic (pos 4) ≡ picks (part 2 0 0)
unfolding choose_partition_by_key to_u32 build_metadata by_broker is_in_service lookup
next_chosen = refl

choose_partition_by_key-build_metadata_example :
    IsPick can_send failing_topic.all_partitions 1
      (choose_partition_by_key failing_cluster.brokers failing_topic (pos 4))
unfolding to_u32
choose_partition_by_key-build_metadata_example =
    choose_partition_by_key-build_metadata unshuffled as_they_stand unshuffled-Permutes
      as_they_stand-IsReordering response_brokers failing_topics topic_a failing_topic (pos 4)
      failing_cluster-topic failing_cluster-NoneServed (omega arith)

choose_partition_by_key-unavailable_example :
    (q : Partition) × (choose_partition_by_key cluster.brokers found_topic (pos 4) ≡ picks q)
    × (count_if (λ (x : Partition). eq_ℤ x.id q.id) found_topic.ok_partitions ≡ 0)
unfolding to_u32 build_metadata by_broker is_in_service lookup
choose_partition_by_key-unavailable_example =
    choose_partition_by_key-unavailable cluster.brokers found_topic (pos 4) (part 1 0 5) refl refl
      refl

abbrev key_msg : Msg
key_msg = record (msg_at 4 topic_a) { routing_type = partition_key; key = pos 3 }

abbrev queued : List (List Msg)
queued = (msg_1 ∷ key_msg ∷ []) ∷ (msg_2 ∷ []) ∷ (msg_3 ∷ []) ∷ []

-- The messages of the topic that is there go to both brokers, that of the other is discarded.
abbrev after_reroute : Rerouted
after_reroute = record {
  router = router_at (2 ∷ []);
  partition = λ addr. if addr == 4 then pos 0 else pos 9;
  to_any = (1, (msg_1 ∷ []) ∷ []) ∷ (0, (msg_2 ∷ []) ∷ []) ∷ [];
  to_key = (0, (key_msg ∷ []) ∷ []) ∷ [];
  bad_topic = msg_3 ∷ [];
  no_available_partitions = [];
}

reroutes_queued : reroute (router_at (0 ∷ [])) (λ addr. pos 9) queued ≡ some after_reroute
unfolding reroute lookup build_metadata bytes_eq by_broker by_id to_u32 put_batch get_all put
    replace insert is_in_service
reroutes_queued = refl
