-- ===== src/Router/Choose.antt =====
-- LookupValidTopicIndex, ChooseAnyPartitionBrokerIndex, ChoosePartitionByKey and AssignBroker of
-- src/dory/router_thread.cc.
use dory.Common.{
  get_elem?, ℕ, zero, suc, ◌+◌, ◌%◌, Bool, false, List, [], ◌∷◌, Option, none, some, ◌==◌,
  if◌then◌else◌, length,
}
use dory.Common.Int.{ℤ}
use dory.Common.Word.{add_u64, to_u32}
use dory.Common.Bytes.{Bytes, bytes_eq}
use dory.Common.Assoc.{lookup}
use dory.Msg.{Msg, RoutingType, any_partition, partition_key}
use dory.Metadata.Defs.{Broker, Partition, Topic, Metadata}

pub record Router : Type 0 where
  pub metadata : Metadata
  pub route_counters : List ℕ

-- `++RouteCounters[topic_index]`
unfoldable pub increment : List ℕ → ℕ → List ℕ
increment [] i = []
increment (c ∷ rest) zero = add_u64 c 1 ∷ rest
increment (c ∷ rest) (suc i) = c ∷ increment rest i

-- A broker's index and the router, unless the process ends.
abbrev pub Routed : Type 0
Routed = Option (ℕ × Router)

abbrev pub broker_of : Router → Option Partition → Routed
broker_of r none = none
broker_of r (some p) = some (p.broker_index, r)

-- The counters are as many as the topics; 0 would stand for one that is not there.
abbrev pub counter_of : Option ℕ → ℕ
counter_of none = 0
counter_of (some c) = c

-- The choice among the partitions that messages can be sent to, with the counter's new value.
unfoldable pub choose_at : Router → ℕ → Option Topic → Routed
unfolding increment
choose_at r i none = none
choose_at r i (some t) =
    let r' = record r { route_counters = increment r.route_counters i } in
    let c = counter_of (get_elem? r'.route_counters i) in
    broker_of r' (get_elem? t.ok_partitions (c % length t.ok_partitions))

unfoldable pub choose_in : Router → Option ℕ → Routed
unfolding choose_at
choose_in r none = none
choose_in r (some i) = choose_at r i (get_elem? r.metadata.topics i)

unfoldable pub choose_any_partition_broker_index : Router → Bytes → Routed
unfolding choose_in
choose_any_partition_broker_index r topic =
    choose_in r (lookup bytes_eq topic r.metadata.topic_name_to_index)

pub data Chosen : Type 0 where
  picks : Partition → Chosen
  dies out_of_fuel : Chosen

-- The indexes of the partitions' brokers are in range; nothing would be in service behind it.
unfoldable pub is_in_service : List Broker → ℕ → Bool
is_in_service [] i = false
is_in_service (b ∷ rest) zero = b.in_service
is_in_service (b ∷ rest) (suc i) = is_in_service rest i

abbrev pub pick : Option Partition → (Partition → Bool) → Chosen → Chosen
pick none good rest = dies
pick (some p) good rest = if good p then picks p else rest

-- The loop of ChoosePartitionByKey, with fuel for its rounds.
unfoldable pub scan : List Broker → List Partition → ℕ → ℕ → ℕ → Chosen
unfolding is_in_service
scan brokers ps start zero index = out_of_fuel
scan brokers ps start (suc fuel) index =
    let next = (index + 1) % length ps in
    let rest = scan brokers ps start fuel next in
    pick (get_elem? ps index) (λ p. is_in_service brokers p.broker_index)
      (if next == start then dies else rest)

unfoldable pub choose_partition_by_key : List Broker → Topic → ℤ → Chosen
unfolding scan
choose_partition_by_key brokers t key =
    let ps = t.all_partitions in
    let start = to_u32 key % length ps in scan brokers ps start (length ps) start

-- AssignBroker, with the partition that it sets for a PartitionKey message.
pub data Assigned : Type 0 where
  assigns : ℕ → Option ℤ → Router → Assigned
  process_dies : Assigned

abbrev pub assign_any : Routed → Assigned
assign_any none = process_dies
assign_any (some (i, r)) = assigns i none r

abbrev pub assign_chosen : Router → Chosen → Assigned
assign_chosen r (picks p) = assigns p.broker_index (some p.id) r
assign_chosen r dies = process_dies
assign_chosen r out_of_fuel = process_dies

unfoldable pub assign_key : Router → ℤ → Option Topic → Assigned
unfolding choose_partition_by_key
assign_key r key none = process_dies
assign_key r key (some t) = assign_chosen r (choose_partition_by_key r.metadata.brokers t key)

unfoldable pub topic_in : Metadata → Option ℕ → Option Topic
topic_in md none = none
topic_in md (some i) = get_elem? md.topics i

unfoldable pub assign : RoutingType → Router → Msg → Assigned
unfolding choose_any_partition_broker_index assign_key topic_in
assign any_partition r m = assign_any (choose_any_partition_broker_index r m.topic)
assign partition_key r m =
    assign_key r m.key
      (topic_in r.metadata (lookup bytes_eq m.topic r.metadata.topic_name_to_index))

unfoldable pub assign_broker : Router → Msg → Assigned
unfolding assign
assign_broker r m = assign m.routing_type r m
