-- ===== src/Router/Reroute.antt =====
-- RouteAnyPartitionNow, RoutePartitionKeyNow, ValidateBeforeReroute and Reroute of
-- src/dory/router_thread.cc. A result of none stands for a death of the process and for the front of an
-- empty batch.
use dory.Common.{
  ℕ, zero, suc, ◌+◌, ◌≡◌, Bool, true, false, List, [], ◌∷◌, ◌++◌, Option, none, some, ◌==◌,
  if◌then◌else◌, length,
}
use dory.Common.Int.{ℤ}
use dory.Common.Assoc
use dory.Common.Assoc.{lookup}
use dory.Msg.{Msg, RoutingType, any_partition, partition_key}
use dory.Metadata.Defs.{Topic, Metadata, find_topic}
use dory.Batch.TopicMap.{TopicMap, get_all, put}
use dory.Router.Choose.{
  Router, Routed, choose_any_partition_broker_index, Chosen, picks, dies, out_of_fuel,
  choose_partition_by_key,
}
pub mod Available
pub mod Conserve
pub mod Outcome

-- What is kept for each broker's index, in the map's order of iteration.
abbrev pub BrokerMap : Type 0 → Type 0
BrokerMap A = List (ℕ × List A)

abbrev pub or_empty : {A : Type 0} → Option (List A) → List A
or_empty none = []
or_empty (some xs) = xs

unfoldable pub push_back : {A : Type 0} → ℕ → A → BrokerMap A → BrokerMap A
push_back i x m = Assoc.put (λ j k. false) ◌==◌ i (or_empty (lookup ◌==◌ i m) ++ x ∷ []) m

abbrev pub to_broker :
    List Msg
    → BrokerMap (List Msg)
    → (Router → BrokerMap (List Msg) → Option (Router × BrokerMap (List Msg)))
    → Routed
    → Option (Router × BrokerMap (List Msg))
to_broker batch m go none = none
to_broker batch m go (some (i, r)) = go r (push_back i batch m)

-- The map's items are the calls of DispatchNow that follow, each with a broker's index and batches.
unfoldable pub route_any_partition_now :
    List (List Msg) → Router → BrokerMap (List Msg) → Option (Router × BrokerMap (List Msg))
unfolding push_back choose_any_partition_broker_index
route_any_partition_now [] r m = some (r, m)
route_any_partition_now ([] ∷ rest) r m = none
route_any_partition_now ((x ∷ batch) ∷ rest) r m =
    to_broker (x ∷ batch) m (route_any_partition_now rest)
      (choose_any_partition_broker_index r x.topic)

-- The partitions of messages, by address, and the messages for each broker.
pub record KeyRouting : Type 0 where
  pub partition : ℕ → ℤ
  pub broker_map : BrokerMap Msg

abbrev pub set_partition : Msg → ℤ → (ℕ → ℤ) → ℕ → ℤ
set_partition m p partition addr = if addr == m.addr then p else partition addr

abbrev pub assign_to :
    Msg → KeyRouting → (KeyRouting → Option KeyRouting) → Chosen → Option KeyRouting
assign_to m k go (picks p) = go (record {
  partition = set_partition m p.id k.partition;
  broker_map = push_back p.broker_index m k.broker_map;
})
assign_to m k go dies = none
assign_to m k go out_of_fuel = none

unfoldable pub assign_batch : Metadata → Topic → List Msg → KeyRouting → Option KeyRouting
unfolding push_back choose_partition_by_key
assign_batch md t [] k = some k
assign_batch md t (m ∷ batch) k =
    assign_to m k (assign_batch md t batch) (choose_partition_by_key md.brokers t m.key)

abbrev pub with_topic : (Topic → Option KeyRouting) → Option Topic → Option KeyRouting
with_topic go none = none
with_topic go (some t) = go t

abbrev pub and_then : (KeyRouting → Option KeyRouting) → Option KeyRouting → Option KeyRouting
and_then go none = none
and_then go (some k) = go k

unfoldable pub assign_batches : Metadata → List (List Msg) → KeyRouting → Option KeyRouting
unfolding assign_batch find_topic
assign_batches md [] k = some k
assign_batches md ([] ∷ rest) k = none
assign_batches md ((m ∷ batch) ∷ rest) k =
    and_then (assign_batches md rest)
      (with_topic (λ t. assign_batch md t (m ∷ batch) k) (find_topic m.topic md))

unfoldable pub by_topic : List Msg → TopicMap → TopicMap
unfolding put
by_topic [] topics = topics
by_topic (m ∷ rest) topics = by_topic rest (put topics m)

-- The calls of DispatchNow, each with a broker's index and its messages by topic.
unfoldable pub dispatch_by_topic : BrokerMap Msg → BrokerMap (List Msg)
unfolding by_topic get_all
dispatch_by_topic [] = []
dispatch_by_topic ((i, msgs) ∷ rest) = (i, get_all (by_topic msgs [])) ∷ dispatch_by_topic rest

-- Messages before they are routed again, with what is discarded.
pub record Rerouting : Type 0 where
  pub any_partition_batches : List (List Msg)
  pub partition_key_batches : List (List Msg)
  pub bad_topic : List Msg
  pub no_available_partitions : List Msg

abbrev pub nothing : Rerouting
nothing = record {
  any_partition_batches = [];
  partition_key_batches = [];
  bad_topic = [];
  no_available_partitions = [];
}

unfoldable pub has_type : RoutingType → RoutingType → Bool
has_type any_partition any_partition = true
has_type any_partition partition_key = false
has_type partition_key any_partition = false
has_type partition_key partition_key = true

unfoldable pub of_type : RoutingType → List Msg → List Msg
unfolding has_type
of_type r [] = []
of_type r (m ∷ batch) =
    let rest = of_type r batch in if has_type r m.routing_type then m ∷ rest else rest

abbrev pub push_nonempty : List Msg → List (List Msg) → List (List Msg)
push_nonempty [] batches = batches
push_nonempty (m ∷ batch) batches = (m ∷ batch) ∷ batches

-- What ValidateBeforeReroute leaves of a batch goes on by its routing types.
unfoldable pub separate : List Msg → Rerouting → Rerouting
unfolding of_type
separate batch r = record r {
  any_partition_batches = push_nonempty (of_type any_partition batch) r.any_partition_batches;
  partition_key_batches = push_nonempty (of_type partition_key batch) r.partition_key_batches;
}

abbrev pub separate_available : List Msg → Rerouting → Topic → Rerouting
separate_available batch r t = elim (t.ok_partitions) [
  | [] ↦ record r { no_available_partitions = batch ++ r.no_available_partitions }
  | p ∷ ps ↦ separate batch r
]

abbrev pub validate_before_reroute : List Msg → Rerouting → Option Topic → Rerouting
validate_before_reroute batch r none = record r { bad_topic = batch ++ r.bad_topic }
validate_before_reroute batch r (some t) = separate_available batch r t

-- The loop of Reroute; the rest of the batches is taken first.
unfoldable pub separate_batches : Metadata → List (List Msg) → Option Rerouting
unfolding separate find_topic
separate_batches md [] = some nothing
separate_batches md ([] ∷ rest) = none
separate_batches md ((m ∷ batch) ∷ rest) =
    let found = find_topic m.topic md in
    elim (separate_batches md rest) [
      | none ↦ none
      | some r ↦ some (validate_before_reroute (m ∷ batch) r found)
    ]

-- What goes to the dispatcher, in the order of its calls, and what is discarded.
pub record Rerouted : Type 0 where
  pub router : Router
  pub partition : ℕ → ℤ
  pub to_any : BrokerMap (List Msg)
  pub to_key : BrokerMap (List Msg)
  pub bad_topic : List Msg
  pub no_available_partitions : List Msg

abbrev pub rerouted :
    Rerouting → Option (Router × BrokerMap (List Msg)) → Option KeyRouting → Option Rerouted
rerouted s none k = none
rerouted s (some a) none = none
rerouted s (some (r, m)) (some k) = some (record {
  router = r;
  partition = k.partition;
  to_any = m;
  to_key = dispatch_by_topic k.broker_map;
  bad_topic = s.bad_topic;
  no_available_partitions = s.no_available_partitions;
})

abbrev pub route_separated : Router → (ℕ → ℤ) → Option Rerouting → Option Rerouted
route_separated r partition none = none
route_separated r partition (some s) =
    rerouted s (route_any_partition_now s.any_partition_batches r []) (
      assign_batches r.metadata s.partition_key_batches
        (record { partition = partition; broker_map = [] }))

unfoldable pub reroute : Router → (ℕ → ℤ) → List (List Msg) → Option Rerouted
unfolding separate_batches route_any_partition_now assign_batches dispatch_by_topic
reroute r partition batches = route_separated r partition (separate_batches r.metadata batches)
