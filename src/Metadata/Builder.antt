-- ===== src/Metadata/Builder.antt =====
-- TBuilder of src/dory/metadata.cc, and BuildMetadataFromResponse of
-- src/dory/kafka_proto/metadata/v0/metadata_proto.cc, which drives it. The checks for bugs that end in
-- assert(false) are left out, and so is the state that the assertions read.
use dory.Common.{
  ℕ, zero, suc, Bool, true, false, ◌||◌, List, [], ◌∷◌, ◌++◌, Option, none, some, ltb, ◌==◌,
  if◌then◌else◌, length,
}
use dory.Common.Int.{ℤ, eq_ℤ, ltb_ℤ}
use dory.Common.Bytes.{Bytes}
use dory.Common.Assoc.{lookup}
use dory.Metadata.Defs.{Broker, Partition, ChoiceMap, Topic}

pub record Builder : Type 0 where
  pub broker_map : List (ℤ × ℕ)
  pub brokers : List Broker
  pub topic_broker_vec : List ℤ
  pub topics : List Topic
  pub topic_name_to_index : List (Bytes × ℕ)

abbrev pub new_builder : Builder
new_builder = record {
  broker_map = [];
  brokers = [];
  topic_broker_vec = [];
  topics = [];
  topic_name_to_index = [];
}

-- insert on an unordered_map, which leaves a key that is there.
abbrev pub insert_new {ℓ κ} :
    {K : Type ℓ} {V : Type κ} → Option V → K → V → List (K × V) → List (K × V)
insert_new none k v m = (k, v) ∷ m
insert_new (some u) k v m = m

-- AddBroker ignores a duplicate ID.
abbrev pub added_broker : Option ℕ → ℤ → Bytes → ℕ → Builder → Builder
added_broker (some i) id hostname port b = b
added_broker none id hostname port b = record b {
  broker_map = (id, length b.brokers) ∷ b.broker_map;
  brokers =
      b.brokers ++ record { id = id; hostname = hostname; port = port; in_service = false } ∷ [];
}

unfoldable pub add_broker : ℤ → Bytes → ℕ → Builder → Builder
add_broker id hostname port b = added_broker (lookup eq_ℤ id b.broker_map) id hostname port b

-- The topic that is open, with the partitions' IDs so far.
pub record OpenTopic : Type 0 where
  pub current_topic_partitions : List ℤ
  pub topic : Topic

abbrev pub new_topic : Topic
new_topic = record {
  ok_partitions = [];
  out_of_service_partitions = [];
  all_partitions = [];
  partition_choice_map = [];
}

abbrev pub contains : ℤ → List ℤ → Bool
contains id [] = false
contains id (x ∷ xs) = eq_ℤ x id || contains id xs

abbrev pub put_partition : Bool → Partition → Topic → Topic
put_partition true p t = record t { ok_partitions = t.ok_partitions ++ p ∷ [] }
put_partition false p t = record t {
  out_of_service_partitions = t.out_of_service_partitions ++ p ∷ [];
}

-- AddPartitionToTopic ignores a partition of an unknown broker, and a duplicate.
abbrev pub added_partition : Option ℕ → ℤ → Bool → ℤ → OpenTopic → OpenTopic
added_partition none id can_send error_code o = o
added_partition (some i) id can_send error_code o =
    if contains id o.current_topic_partitions then o else record {
      current_topic_partitions = id ∷ o.current_topic_partitions;
      topic =
          put_partition can_send (record { id = id; broker_index = i; error_code = error_code })
            o.topic;
    }

unfoldable pub add_partition_to_topic : Builder → ℤ → ℤ → Bool → ℤ → OpenTopic → OpenTopic
add_partition_to_topic b id broker_id can_send error_code o =
    added_partition (lookup eq_ℤ broker_id b.broker_map) id can_send error_code o

-- The orders of the two calls of std::sort, in which no two partitions of a topic are equal.
unfoldable pub by_broker : Partition → Partition → Bool
by_broker x y =
    if x.broker_index == y.broker_index then ltb_ℤ x.id y.id else ltb x.broker_index y.broker_index

unfoldable pub by_id : Partition → Partition → Bool
by_id x y = ltb_ℤ x.id y.id

unfoldable pub insert_sorted :
    (Partition → Partition → Bool) → Partition → List Partition → List Partition
insert_sorted lt p [] = p ∷ []
insert_sorted lt p (q ∷ rest) = if lt q p then q ∷ insert_sorted lt p rest else p ∷ q ∷ rest

unfoldable pub sort : (Partition → Partition → Bool) → List Partition → List Partition
unfolding insert_sorted
sort lt [] = []
sort lt (p ∷ rest) = insert_sorted lt p (sort lt rest)

unfoldable pub mark_in_service : ℕ → List Broker → List Broker
mark_in_service i [] = []
mark_in_service zero (b ∷ rest) = record b { in_service = true } ∷ rest
mark_in_service (suc i) (b ∷ rest) = b ∷ mark_in_service i rest

-- What the loop over the sorted partitions changes.
pub record Ranges : Type 0 where
  pub brokers : List Broker
  pub vec : List ℤ
  pub choice_map : ChoiceMap

-- The partitions of one broker are put behind the others.
unfoldable pub close_run : ℕ → List ℤ → Ranges → Ranges
unfolding mark_in_service
close_run i ids r = record {
  brokers = mark_in_service i r.brokers;
  vec = r.vec ++ ids;
  choice_map =
      insert_new (lookup ◌==◌ i r.choice_map) i
        (record { topic_broker_vec_index = length r.vec; topic_broker_vec_num_items = length ids })
        r.choice_map;
}

-- The IDs so far of a broker's partitions, the partitions to come, and the ranges before them.
unfoldable pub walk : ℕ → List ℤ → List Partition → Ranges → Ranges
unfolding close_run
walk i ids [] r = close_run i ids r
walk i ids (p ∷ rest) r =
    let same = walk i (ids ++ p.id ∷ []) rest r in
    let other = walk p.broker_index (p.id ∷ []) rest (close_run i ids r) in
    if p.broker_index == i then same else other

unfoldable pub make_ranges : List Partition → Ranges → Ranges
unfolding walk
make_ranges [] r = r
make_ranges (p ∷ rest) r = walk p.broker_index (p.id ∷ []) rest r

-- CloseTopic, with the order that std::shuffle puts the sorted partitions in.
module _ (shuffle : List Partition → List Partition) where
  unfoldable pub ranges_of : Topic → Builder → Ranges
  unfolding sort make_ranges
  ranges_of t b = make_ranges (sort by_broker t.ok_partitions) (record {
    brokers = b.brokers;
    vec = b.topic_broker_vec;
    choice_map = t.partition_choice_map;
  })

  unfoldable pub close_topic : Bytes → Topic → Builder → Builder
  unfolding ranges_of sort
  close_topic name t b =
      let sorted = sort by_broker t.ok_partitions in
      let r = ranges_of t b in
      record b {
        brokers = r.brokers;
        topic_broker_vec = r.vec;
        topic_name_to_index = (name, length b.topics) ∷ b.topic_name_to_index;
        topics =
            b.topics
            ++ record {
              ok_partitions = shuffle sorted;
              out_of_service_partitions = t.out_of_service_partitions;
              all_partitions = sort by_id (sorted ++ t.out_of_service_partitions);
              partition_choice_map = r.choice_map;
            }
              ∷ [];
      }
