-- ===== src/Metadata/Response.antt =====
-- The builder's brokers and topics of a response, in BuildMetadataFromResponse of
-- src/dory/kafka_proto/metadata/v0/metadata_proto.cc.
use dory.Common.{
  ℕ, ◌≡◌, ◌<◌, ◌⊎◌, refl, ◌∙◌, Bool, Bool-cases, true, false, List, [], ◌∷◌, Option, Option-cases,
  none, some, length, arith, All-append, inl, inr, length-append,
}
use dory.Common.Int.{ℤ, pos, eq_ℤ, eq_ℤ-eq}
use dory.Common.Bytes.{Bytes, bytes_eq}
use dory.Common.Assoc.{lookup, AllItems, AllItems-lookup, AllItems-map}
use dory.Metadata.Defs.{Partition, Topic}
use dory.Metadata.Builder.{
  Builder, add_broker, added_broker, OpenTopic, add_partition_to_topic, added_partition,
  put_partition, contains, close_topic,
}
use dory.Metadata.Build.{
  ResponseBroker, ResponsePartition, ResponseTopic, can_send_to_partition, add_brokers,
  add_partitions, open_topic, opened, add_topics,
}
use dory.Metadata.Topics.{AreOn, AreChoosable, Permutes, close_topic-AreChoosable}

-- Every broker ID leads to a broker.
abbrev pub MapsInto : ℕ → List (ℤ × ℕ) → Type 0
MapsInto n m = AllItems (λ (id : ℤ) (i : ℕ). i < n) m

add_broker-MapsInto :
    (id : ℤ) (host : Bytes) (port : ℕ) (b : Builder)
    → MapsInto (length b.brokers) b.broker_map
    → MapsInto (length (add_broker id host port b).brokers) (add_broker id host port b).broker_map
unfolding add_broker
add_broker-MapsInto id host port b h = added (lookup eq_ℤ id b.broker_map)
  where
    added :
        (o : Option ℕ)
        → let b' = added_broker o id host port b in MapsInto (length b'.brokers) b'.broker_map
    added (some i) = h
    added none =
        let more =
          length-append b.brokers
            (record { id = id; hostname = host; port = port; in_service = false } ∷ []) in
        (
          omega (arith, more),
          AllItems-map (λ (k : ℤ) (i : ℕ). i < length b.brokers) (λ (k : ℤ) (i : ℕ). i < _)
              (λ k i lt. omega (arith, more, lt)) b.broker_map h,
        )

-- What a builder has before its topics.
abbrev pub HasBrokers : Builder → Type 0
HasBrokers b = MapsInto (length b.brokers) b.broker_map × (b.topics ≡ [])

add_broker-topics :
    (id : ℤ) (host : Bytes) (port : ℕ) (b : Builder) → (add_broker id host port b).topics ≡ b.topics
unfolding add_broker
add_broker-topics id host port b = added (lookup eq_ℤ id b.broker_map)
  where
    added : (o : Option ℕ) → (added_broker o id host port b).topics ≡ b.topics
    added (some i) = refl
    added none = refl

pub add_brokers-HasBrokers :
    (brokers : List ResponseBroker) (b : Builder)
    → HasBrokers b
    → HasBrokers (add_brokers brokers b)
unfolding add_brokers
add_brokers-HasBrokers [] b h = h
add_brokers-HasBrokers (x ∷ rest) b h =
    add_brokers-HasBrokers rest (add_broker x.node_id x.host x.port b) (
      add_broker-MapsInto x.node_id x.host x.port b h.0,
      add_broker-topics x.node_id x.host x.port b ∙ h.1,
    )

-- What AddPartitionToTopic leaves of an open topic.
abbrev pub IsOpen : ℕ → OpenTopic → Type 0
IsOpen n o = AreOn n o.topic.ok_partitions × (o.topic.partition_choice_map ≡ [])

put_partition-IsOpen :
    (n : ℕ) (can_send : Bool) (p : Partition) (t : Topic)
    → p.broker_index < n
    → AreOn n t.ok_partitions × (t.partition_choice_map ≡ [])
    → let t' = put_partition can_send p t in
      AreOn n t'.ok_partitions × (t'.partition_choice_map ≡ [])
put_partition-IsOpen n true p t lt h =
    (All-append (λ (q : Partition). q.broker_index < n) t.ok_partitions (p ∷ []) h.0 (lt, tt), h.1)
put_partition-IsOpen n false p t lt h = h

pub add_partitions-IsOpen :
    (n : ℕ) (b : Builder) (ps : List ResponsePartition) (o : OpenTopic)
    → MapsInto n b.broker_map
    → IsOpen n o
    → IsOpen n (add_partitions b ps o)
unfolding add_partitions
add_partitions-IsOpen n b [] o into h = h
add_partitions-IsOpen n b (x ∷ rest) o into h =
    add_partitions-IsOpen n b rest _ into
      (added (Option-cases (lookup eq_ℤ x.leader_id b.broker_map)))
  where
    added :
        (lookup eq_ℤ x.leader_id b.broker_map ≡ none)
          ⊎ ((i : ℕ) × (lookup eq_ℤ x.leader_id b.broker_map ≡ some i))
        → IsOpen n (
            add_partition_to_topic b x.id x.leader_id
              (can_send_to_partition x.error_code)
              x.error_code
              o)
    added (inl e) = unfold add_partition_to_topic in rw (e, added_partition) h
    added (inr (i, e)) =
        let lt =
          AllItems-lookup (λ (id : ℤ) (j : ℕ). j < n) eq_ℤ eq_ℤ-eq x.leader_id b.broker_map into
            e in
        unfold add_partition_to_topic in
        elim (Bool-cases (contains x.id o.current_topic_partitions)) [
          | inl c ↦ rw (e, added_partition, c) h
          | inr c ↦
              rw (e, added_partition, c)
                (put_partition-IsOpen n (can_send_to_partition x.error_code)
                  (record { id = x.id; broker_index = i; error_code = x.error_code }) o.topic lt h)
        ]

module _ (shuffle : List Partition → List Partition) (perm : Permutes shuffle) where
  -- A builder between two topics.
  abbrev pub IsBetween : ℕ → Builder → Type 0
  IsBetween n b = MapsInto n b.broker_map × AreChoosable n b

  pub opened-IsBetween :
      (n : ℕ) (o : Option ℕ) (t : ResponseTopic) (b : Builder)
      → IsBetween n b
      → IsBetween n (opened shuffle o t b)
  unfolding opened
  opened-IsBetween n (some i) t b h = h
  opened-IsBetween n none t b h =
      let open_part = add_partitions-IsOpen n b t.partitions open_topic h.0 (tt, refl) in
      let topic = (add_partitions b t.partitions open_topic).topic in
      (
        unfold close_topic in h.0,
        close_topic-AreChoosable shuffle perm n t.name topic b open_part.0 open_part.1 h.1,
      )

  pub add_topics-IsBetween :
      (n : ℕ) (ts : List ResponseTopic) (b : Builder)
      → IsBetween n b
      → IsBetween n (add_topics shuffle ts b)
  unfolding add_topics
  add_topics-IsBetween n [] b h = h
  add_topics-IsBetween n (t ∷ rest) b h =
      add_topics-IsBetween n rest _ (elim (Bool-cases (eq_ℤ t.error_code (pos 0))) [
        | inl e ↦ rw e (opened-IsBetween n (lookup bytes_eq t.name b.topic_name_to_index) t b h)
        | inr e ↦ rw e h
      ])
