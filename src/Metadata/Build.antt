-- ===== src/Metadata/Build.antt =====
-- Build of src/dory/metadata.cc with GroupInServiceBrokers, and the builder's calls in
-- BuildMetadataFromResponse of src/dory/kafka_proto/metadata/v0/metadata_proto.cc: the response is what
-- its reader yields.
use dory.Common.{
  get_elem?, ℕ, zero, suc, Bool, ◌||◌, List, [], ◌∷◌, ◌++◌, Option, none, some, to_list,
  if◌then◌else◌, map,
}
use dory.Common.Int.{ℤ, pos, eq_ℤ}
use dory.Common.Bytes.{Bytes, bytes_eq}
use dory.Common.Assoc.{lookup}
use dory.Metadata.Defs.{Broker, Partition, ChoiceMap, Topic, Metadata}
use dory.Metadata.Builder.{
  Builder, new_builder, add_broker, OpenTopic, new_topic, add_partition_to_topic, close_topic,
}

pub record ResponseBroker : Type 0 where
  pub node_id : ℤ
  pub host : Bytes
  pub port : ℕ

pub record ResponsePartition : Type 0 where
  pub error_code : ℤ
  pub id : ℤ
  pub leader_id : ℤ

pub record ResponseTopic : Type 0 where
  pub error_code : ℤ
  pub name : Bytes
  pub partitions : List ResponsePartition

-- The error codes None and ReplicaNotAvailable.
unfoldable pub can_send_to_partition : ℤ → Bool
can_send_to_partition error_code = eq_ℤ error_code (pos 0) || eq_ℤ error_code (pos 9)

unfoldable pub add_brokers : List ResponseBroker → Builder → Builder
unfolding add_broker
add_brokers [] b = b
add_brokers (x ∷ rest) b = add_brokers rest (add_broker x.node_id x.host x.port b)

unfoldable pub add_partitions : Builder → List ResponsePartition → OpenTopic → OpenTopic
unfolding add_partition_to_topic can_send_to_partition
add_partitions b [] o = o
add_partitions b (x ∷ rest) o =
    add_partitions b rest (
      add_partition_to_topic b x.id x.leader_id (can_send_to_partition x.error_code) x.error_code o)

abbrev pub open_topic : OpenTopic
open_topic = record { current_topic_partitions = []; topic = new_topic }

module _ (shuffle : List Partition → List Partition) where
  -- OpenTopic refuses a name that is there.
  unfoldable pub opened : Option ℕ → ResponseTopic → Builder → Builder
  unfolding close_topic add_partitions
  opened (some i) t b = b
  opened none t b = close_topic shuffle t.name (add_partitions b t.partitions open_topic).topic b

  unfoldable pub add_topics : List ResponseTopic → Builder → Builder
  unfolding opened
  add_topics [] b = b
  add_topics (t ∷ rest) b = add_topics rest (
      if eq_ℤ t.error_code (pos 0)
      then opened (lookup bytes_eq t.name b.topic_name_to_index) t b
      else b)

unfoldable pub gather : List ℕ → List Broker → List Broker
gather [] brokers = []
gather (i ∷ rest) brokers = to_list (get_elem? brokers i) ++ gather rest brokers

unfoldable pub count_in_service : List Broker → ℕ
count_in_service [] = 0
count_in_service (b ∷ rest) = if b.in_service then suc (count_in_service rest) else 0

-- old_indexes_to_new, which begins with zeros and is filled in from the new indexes on.
unfoldable pub set : List ℕ → ℕ → ℕ → List ℕ
set [] i v = []
set (x ∷ xs) zero v = v ∷ xs
set (x ∷ xs) (suc i) v = x ∷ set xs i v

unfoldable pub invert : ℕ → List ℕ → List ℕ → List ℕ
unfolding set
invert i [] v = v
invert i (old ∷ rest) v = invert (suc i) rest (set v old i)

abbrev pub get_or : List ℕ → ℕ → ℕ
get_or [] i = 0
get_or (x ∷ xs) zero = x
get_or (x ∷ xs) (suc i) = get_or xs i

unfoldable pub zeros_of : List Broker → List ℕ
zeros_of [] = []
zeros_of (b ∷ rest) = 0 ∷ zeros_of rest

unfoldable pub rename_partitions : (ℕ → ℕ) → List Partition → List Partition
rename_partitions new [] = []
rename_partitions new (p ∷ rest) =
    record p { broker_index = new p.broker_index } ∷ rename_partitions new rest

unfoldable pub rename_choices : (ℕ → ℕ) → ChoiceMap → ChoiceMap
rename_choices new [] = []
rename_choices new ((i, c) ∷ rest) = (new i, c) ∷ rename_choices new rest

unfoldable pub rename_topic : (ℕ → ℕ) → Topic → Topic
unfolding rename_partitions rename_choices
rename_topic new t = record {
  ok_partitions = rename_partitions new t.ok_partitions;
  out_of_service_partitions = rename_partitions new t.out_of_service_partitions;
  all_partitions = rename_partitions new t.all_partitions;
  partition_choice_map = rename_choices new t.partition_choice_map;
}

-- `order` is broker_index_reorder after std::sort: the brokers' old indexes, those in service first.
unfoldable pub build : List ℕ → Builder → Metadata
unfolding gather count_in_service invert zeros_of rename_topic
build order b =
    let brokers = gather order b.brokers in
    record {
      brokers = brokers;
      in_service_broker_count = count_in_service brokers;
      topic_broker_vec = b.topic_broker_vec;
      topics = map (rename_topic (get_or (invert 0 order (zeros_of b.brokers)))) b.topics;
      topic_name_to_index = b.topic_name_to_index;
    }

unfoldable pub build_metadata :
    (List Partition → List Partition)
    → (List Broker → List ℕ)
    → List ResponseBroker
    → List ResponseTopic
    → Metadata
unfolding build add_topics add_brokers
build_metadata shuffle order_of brokers topics =
    let b = add_topics shuffle topics (add_brokers brokers new_builder) in
    build (order_of b.brokers) b
