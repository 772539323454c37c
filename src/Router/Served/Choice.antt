-- ===== src/Router/Served/Choice.antt =====
-- ChoosePartitionByKey of src/dory/router_thread.cc on metadata that is built of a response.
use dory.Common.{
  ℕ, zero, suc, ◌%◌, ◌≡◌, ◌<◌, refl, sym, subst, ◌∙◌, Bool, Bool-cases, true, false, not, List, [],
  ◌∷◌, some, length, arith, All, get_elem?, inl, inr, if◌then◌else◌,
}
use dory.Common.Int.{ℤ}
use dory.Common.Word.{to_u32}
use dory.Common.Bytes.{Bytes}
use dory.Metadata.Defs.{Broker, Partition, Topic, find_topic}
use dory.Metadata.Build.{ResponseBroker, ResponseTopic, build_metadata}
use dory.Metadata.Topics.{Permutes}
use dory.Metadata.Order.{IsReordering}
use dory.Router.Choose.{is_in_service, choose_partition_by_key}
use dory.Router.ByKey.{IsPick, IsPick-same, is_served, choose_partition_by_key-IsPick}
use dory.Router.Served.Labels.{can_send, AllOk, NoneOk}
use dory.Router.Served.Marks.{AreServed, count_bad, none_bad}
use dory.Router.Served.Topics.{IsServing}
use dory.Router.Served.Routes.{build_metadata-IsServing}

abbrev pub NoneServed : List Broker → List Partition → Type 0
NoneServed bs ps = All (λ (p : Partition). is_in_service bs p.broker_index ≡ false) ps

-- Whether a partition can be sent to just if its broker is in service.
abbrev agree : List Broker → Partition → Bool
agree bs p = if is_served bs p then can_send p else not (can_send p)

ok_agree :
    (bs : List Broker) (ps : List Partition)
    → AreServed bs ps
    → AllOk ps
    → All (λ (p : Partition). agree bs p ≡ true) ps
ok_agree bs [] served ok = tt
ok_agree bs (p ∷ ps) served ok = (rw (served.0) ok.0, ok_agree bs ps served.1 ok.1)

others_agree :
    (bs : List Broker) (ps : List Partition)
    → NoneServed bs ps
    → NoneOk ps
    → All (λ (p : Partition). agree bs p ≡ true) ps
others_agree bs [] none_served none_ok = tt
others_agree bs (p ∷ ps) none_served none_ok =
    (rw (none_served.0, none_ok.0) refl, others_agree bs ps none_served.1 none_ok.1)

agree-same : (bs : List Broker) (p : Partition) → agree bs p ≡ true → is_served bs p ≡ can_send p
agree-same bs p h = elim (Bool-cases (is_served bs p)) [
  | inl e ↦ e ∙ sym (rw e at h)
  | inr e ↦ elim (Bool-cases (can_send p)) [
    | inl c ↦ absurd (cc (rw (e, c) at h))
    | inr c ↦ e ∙ sym c
  ]
]

All-get_elem? :
    (P : Partition → Type 0) (ps : List Partition) (i : ℕ) (p : Partition)
    → All P ps
    → get_elem? ps i ≡ some p
    → P p
All-get_elem? P [] i p h e = absurd cc
All-get_elem? P (q ∷ ps) zero p h e = let same : q ≡ p = cc in subst P same h.0
All-get_elem? P (q ∷ ps) (suc i) p h e = All-get_elem? P ps i p h.1 e

IsServing-agree :
    (bs : List Broker) (t : Topic)
    → IsServing bs t
    → NoneServed bs t.out_of_service_partitions
    → All (λ (p : Partition). agree bs p ≡ true) t.all_partitions
IsServing-agree bs t h none_served = none_bad (agree bs) t.all_partitions (
    omega (
      arith,
      h.parts (λ p. not (agree bs p)),
      count_bad (agree bs) t.ok_partitions (ok_agree bs t.ok_partitions h.served (h.labelled).0),
      count_bad (agree bs) t.out_of_service_partitions
          (others_agree bs t.out_of_service_partitions none_served (h.labelled).1),
    ))

module _ (shuffle : List Partition → List Partition) (order_of : List Broker → List ℕ)
    (perm : Permutes shuffle)
    (reorders : (bs : List Broker) → IsReordering (length bs) (order_of bs)) where
  -- On metadata that BuildMetadataFromResponse makes of any response, where std::shuffle permutes
  -- and std::sort yields each broker once, for a topic that is found in it and has a partition, if
  -- no out-of-service partition of the topic has its broker in service, ChoosePartitionByKey
  -- chooses, of all the topic's partitions from the one at the key modulo their number on and round
  -- the end, the first with error code 0 (None) or 9 (ReplicaNotAvailable), and ends the process
  -- only if there is none.
  pub choose_partition_by_key-build_metadata :
      (brokers : List ResponseBroker) (topics : List ResponseTopic) (name : Bytes) (t : Topic)
      (key : ℤ)
      → find_topic name (build_metadata shuffle order_of brokers topics) ≡ some t
      → NoneServed
          (build_metadata shuffle order_of brokers topics).brokers
          t.out_of_service_partitions
      → 0 < length t.all_partitions
      → IsPick can_send t.all_partitions
          (to_u32 key % length t.all_partitions)
          (choose_partition_by_key (build_metadata shuffle order_of brokers topics).brokers t key)
  choose_partition_by_key-build_metadata brokers topics name t key found none_served
        some_partition =
      let bs = (build_metadata shuffle order_of brokers topics).brokers in
      let serving =
        build_metadata-IsServing shuffle order_of perm reorders brokers topics name t found in
      let all = IsServing-agree bs t serving none_served in
      IsPick-same (is_served bs) can_send t.all_partitions (to_u32 key % length t.all_partitions)
        (choose_partition_by_key bs t key)
        (λ i p at.
          agree-same bs p (All-get_elem? (λ q. agree bs q ≡ true) t.all_partitions i p all at))
        (choose_partition_by_key-IsPick bs t key some_partition)
