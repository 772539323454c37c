-- ===== src/Metadata/Defs.antt =====
-- src/dory/metadata.h: the metadata, and what is looked up in it.
use dory.Common.{
  get_elem?, ℕ, ◌-◌, Bool, List, [], Option, none, some, ltb, leb, ◌==◌, if◌then◌else◌, length,
  take, drop,
}
use dory.Common.Int.{ℤ}
use dory.Common.Bytes.{Bytes, bytes_eq}
use dory.Common.Assoc.{lookup}

pub record Broker : Type 0 where
  pub id : ℤ
  pub hostname : Bytes
  pub port : ℕ
  pub in_service : Bool

pub record Partition : Type 0 where
  pub id : ℤ
  pub broker_index : ℕ
  pub error_code : ℤ

pub record PartitionChoices : Type 0 where
  pub topic_broker_vec_index : ℕ
  pub topic_broker_vec_num_items : ℕ

abbrev pub ChoiceMap : Type 0
ChoiceMap = List (ℕ × PartitionChoices)

pub record Topic : Type 0 where
  pub ok_partitions : List Partition
  pub out_of_service_partitions : List Partition
  pub all_partitions : List Partition
  pub partition_choice_map : ChoiceMap

pub record Metadata : Type 0 where
  pub brokers : List Broker
  pub in_service_broker_count : ℕ
  pub topic_broker_vec : List ℤ
  pub topics : List Topic
  pub topic_name_to_index : List (Bytes × ℕ)

-- The topic at FindTopicIndex, which is none for a name that is not there, and for an index out of
-- range.
unfoldable pub find_topic : Bytes → Metadata → Option Topic
find_topic topic md = elim (lookup bytes_eq topic md.topic_name_to_index) [
  | none ↦ none
  | some i ↦ get_elem? md.topics i
]

-- The array of partition IDs to choose from, empty in place of a null pointer: the checks of the range,
-- and the array behind them.
unfoldable pub choices_in : List ℤ → Option PartitionChoices → List ℤ
choices_in vec none = []
choices_in vec (some c) =
    if leb (length vec) c.topic_broker_vec_index
    then []
    else if ltb (length vec - c.topic_broker_vec_index) c.topic_broker_vec_num_items
    then []
    else take c.topic_broker_vec_num_items (drop c.topic_broker_vec_index vec)

unfoldable pub choices_of : Metadata → ℕ → Option Topic → List ℤ
unfolding choices_in
choices_of md i none = []
choices_of md i (some t) =
    if leb (length md.brokers) i
    then []
    else choices_in md.topic_broker_vec (lookup ◌==◌ i t.partition_choice_map)

unfoldable pub find_partition_choices : Metadata → Bytes → ℕ → List ℤ
unfolding choices_of find_topic
find_partition_choices md topic broker_index = choices_of md broker_index (find_topic topic md)
