-- ===== src/Router/Reach.antt =====
-- Whether a broker that src/dory/router_thread.cc chooses for an AnyPartition message has partitions of
-- the topic for the connector to choose from.
use dory.Common.{
  get_elem?, ℕ, zero, suc, ◌%◌, ◌≡◌, ◌<◌, refl, sym, subst, true, List, [], ◌∷◌, Option,
  Option-cases, none, some, length, count_if, arith, inl, inr,
}
use dory.Common.Int.{ℤ}
use dory.Common.Bytes.{Bytes, bytes_eq}
use dory.Common.Assoc.{lookup}
use dory.Metadata.Defs.{Broker, Partition, Topic, Metadata, find_topic, find_partition_choices}
use dory.Metadata.Build.{ResponseBroker, ResponseTopic, build_metadata}
use dory.Metadata.Ranges.{count_on}
use dory.Metadata.Topics.{Permutes}
use dory.Metadata.Order.{IsReordering}
use dory.Metadata.Choices.{find_partition_choices-Lists}
use dory.Router.Choose.{
  Router, Routed, increment, counter_of, choose_at, choose_in, choose_any_partition_broker_index,
}

-- A partition that is in a list counts for its broker.
count_on-member :
    (ps : List Partition) (k : ℕ) (p : Partition)
    → get_elem? ps k ≡ some p
    → 0 < count_on (λ x. true) p.broker_index ps
count_on-member [] k p e = absurd cc
count_on-member (q ∷ ps) zero p e =
    let same : q ≡ p = cc in
    subst (λ (x : Partition). 0 < count_on (λ y. true) x.broker_index (q ∷ ps)) same (ground arith)
count_on-member (q ∷ ps) (suc k) p e = ground (arith, count_on-member ps k p e)

-- The broker of a routed message has a partition of the topic that messages can be sent to.
abbrev IsReached : Bytes → Metadata → Routed → Type 0
IsReached name md none = Unit {0}
IsReached name md (some (i, r)) =
    (t : Topic) × (find_topic name md ≡ some t) × (0 < count_on (λ x. true) i t.ok_partitions)

choose_at-IsReached :
    (r : Router) (name : Bytes) (i : ℕ) (o : Option Topic)
    → find_topic name r.metadata ≡ o
    → IsReached name r.metadata (choose_at r i o)
unfolding choose_at
choose_at-IsReached r name i none e = tt
choose_at-IsReached r name i (some t) e =
    let r' = record r { route_counters = increment r.route_counters i } in
    let c = counter_of (get_elem? r'.route_counters i) in
    let k = c % length t.ok_partitions in
    elim (Option-cases (get_elem? t.ok_partitions k)) [
      | inl at ↦ rw at tt
      | inr (p, at) ↦ rw at (t, e, count_on-member t.ok_partitions k p at)
    ]

find_topic-at :
    (name : Bytes) (md : Metadata) (i : ℕ)
    → lookup bytes_eq name md.topic_name_to_index ≡ some i
    → find_topic name md ≡ get_elem? md.topics i
unfolding find_topic
find_topic-at name md i e = rw (e, find_topic) refl

choose_any-IsReached :
    (r : Router) (name : Bytes)
    → IsReached name r.metadata (choose_any_partition_broker_index r name)
unfolding choose_any_partition_broker_index choose_in
choose_any-IsReached r name =
    elim (Option-cases (lookup bytes_eq name r.metadata.topic_name_to_index)) [
      | inl e ↦ rw e tt
      | inr (i, e) ↦ rw e (
          choose_at-IsReached r name i (get_elem? r.metadata.topics i)
            (find_topic-at name r.metadata i e))
    ]

counted-nonempty : (ids : List ℤ) → 0 < count_if (λ x. true) ids → 0 < length ids
counted-nonempty [] h = h
counted-nonempty (x ∷ ids) h = omega arith

module _ (shuffle : List Partition → List Partition) (order_of : List Broker → List ℕ)
    (perm : Permutes shuffle)
    (reorders : (bs : List Broker) → IsReordering (length bs) (order_of bs)) where
  -- If the router's metadata is what BuildMetadataFromResponse makes of any response, where
  -- std::shuffle permutes and std::sort yields each broker once, then the broker that
  -- ChooseAnyPartitionBrokerIndex chooses for a topic has by FindPartitionChoices at least one
  -- partition of the topic.
  pub choose_any_partition_broker_index-choices :
      (brokers : List ResponseBroker) (topics : List ResponseTopic) (r r' : Router) (name : Bytes)
      (i : ℕ)
      → r.metadata ≡ build_metadata shuffle order_of brokers topics
      → choose_any_partition_broker_index r name ≡ some (i, r')
      → 0 < length (find_partition_choices r.metadata name i)
  choose_any_partition_broker_index-choices brokers topics r r' name i md e =
      let (t, found, on) = subst (IsReached name r.metadata) e (choose_any-IsReached r name) in
      let lists =
        find_partition_choices-Lists shuffle order_of perm reorders brokers topics name i t
          (subst (λ m. find_topic name m ≡ some t) md found) in
      let ids = find_partition_choices r.metadata name i in
      let counted =
        subst
          (λ m.
            count_if (λ x. true) (find_partition_choices m name i)
            ≡ count_on (λ x. true) i t.ok_partitions)
          (sym md) (lists.1 (λ x. true)) in
      counted-nonempty ids (omega (arith, counted, on))
