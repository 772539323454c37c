-- ===== src/Router/Served/Routes.antt =====
-- Reroute of src/dory/router_thread.cc on metadata that is built of a response.
use dory.Common.{
  true, false, get_elem?, get_elem?-some, ℕ, zero, suc, ◌≡◌, ◌<◌, refl, sym, ap, ◌∙◌, subst, Bool,
  true, List, [], ◌∷◌, some, length, arith, All, count_if, map, to_list,
}
use dory.Common.Bytes.{Bytes}
use dory.Msg.{Msg}
use dory.Metadata.Defs.{find_topic, Broker, Partition, Topic}
use dory.Metadata.Builder.{new_builder}
use dory.Metadata.Build.{
  ResponseBroker, ResponseTopic, add_brokers, add_topics, rename_partitions, rename_topic, gather,
  build, build_metadata,
}
use dory.Metadata.Topics.{IsChoosable, Permutes}
use dory.Metadata.Response.{add_brokers-HasBrokers}
use dory.Metadata.Order.{IsReordering, new_index, new_index-position}
use dory.Metadata.Choices.{find_topic-some}
use dory.Router.Choose.{Router, is_in_service}
use dory.Router.Served.Labels.{All-rename}
use dory.Router.Served.Marks.{is_in_service-lt, AreServed}
use dory.Router.Served.Topics.{IsServing, add_topics-Serves}

-- The brokers in their new order.
is_in_service-get_elem? :
    (bs : List Broker) (k : ℕ) (b : Broker)
    → get_elem? bs k ≡ some b
    → is_in_service bs k ≡ b.in_service
unfolding is_in_service
is_in_service-get_elem? [] k b e = absurd cc
is_in_service-get_elem? (c ∷ bs) zero b e =
    let same : c ≡ b = cc in ap (λ (x : Broker). x.in_service) same
is_in_service-get_elem? (c ∷ bs) (suc k) b e = is_in_service-get_elem? bs k b e

is_in_service-gather :
    (order : List ℕ) (bs : List Broker) (j k : ℕ)
    → ((i l : ℕ) → get_elem? order i ≡ some l → l < length bs)
    → get_elem? order j ≡ some k
    → is_in_service (gather order bs) j ≡ is_in_service bs k
unfolding gather is_in_service
is_in_service-gather [] bs j k in_range e = absurd cc
is_in_service-gather (i ∷ order) bs zero k in_range e =
    let same : i ≡ k = cc in
    let (b, at) = get_elem?-some bs i (in_range zero i refl) in
    rw (at, to_list)
      (sym (is_in_service-get_elem? bs k b (subst (λ x. get_elem? bs x ≡ some b) same at)))
is_in_service-gather (i ∷ order) bs (suc j) k in_range e =
    let (b, at) = get_elem?-some bs i (in_range zero i refl) in
    rw (at, to_list) (is_in_service-gather order bs j k (λ a l. in_range (suc a) l) e)

count_if-rename :
    (test : Partition → Bool) (new : ℕ → ℕ) (ps : List Partition)
    → count_if test (rename_partitions new ps)
      ≡ count_if (λ (p : Partition). test (record p { broker_index = new p.broker_index })) ps
unfolding rename_partitions
count_if-rename test new [] = refl
count_if-rename test new (p ∷ ps) = omega (arith, count_if-rename test new ps)

module _ (bs : List Broker) (order : List ℕ) (ok : IsReordering (length bs) order) where
  is_in_service-new_index :
      (k : ℕ)
      → is_in_service bs k ≡ true
      → is_in_service (gather order bs) (new_index order bs k) ≡ true
  is_in_service-new_index k h =
      let (j, at) = ok.complete k (is_in_service-lt bs k h) in
      subst (λ i. is_in_service (gather order bs) i ≡ true)
        (sym (new_index-position bs order ok k j at))
        (is_in_service-gather order bs j k ok.in_range at ∙ h)

  AreServed-rename :
      (ps : List Partition)
      → AreServed bs ps
      → AreServed (gather order bs) (rename_partitions (new_index order bs) ps)
  unfolding rename_partitions
  AreServed-rename [] h = tt
  AreServed-rename (p ∷ ps) h =
      (is_in_service-new_index p.broker_index h.0, AreServed-rename ps h.1)

  rename_topic-IsServing :
      (t : Topic)
      → IsServing bs t
      → IsServing (gather order bs) (rename_topic (new_index order bs) t)
  unfolding rename_topic
  rename_topic-IsServing t h = record {
    served = AreServed-rename t.ok_partitions h.served;
    parts = λ test.
        let new = new_index order bs in
        omega (
          arith,
          count_if-rename test new t.ok_partitions,
          count_if-rename test new t.out_of_service_partitions,
          count_if-rename test new t.all_partitions,
          h.parts (λ p. test (record p { broker_index = new p.broker_index })),
        );
    labelled =
        let new = new_index order bs in
        (
          All-rename true new t.ok_partitions (h.labelled).0,
          All-rename false new t.out_of_service_partitions (h.labelled).1,
        );
  }

  get_elem?-IsServing :
      (ts : List Topic) (i : ℕ) (t : Topic)
      → All (IsServing bs) ts
      → get_elem? (map (rename_topic (new_index order bs)) ts) i ≡ some t
      → IsServing (gather order bs) t
  get_elem?-IsServing [] i t h e = absurd cc
  get_elem?-IsServing (u ∷ ts) zero t h e =
      let same : rename_topic (new_index order bs) u ≡ t = cc in
      subst (IsServing (gather order bs)) same (rename_topic-IsServing u h.0)
  get_elem?-IsServing (u ∷ ts) (suc i) t h e = get_elem?-IsServing ts i t h.1 e

module _ (shuffle : List Partition → List Partition) (order_of : List Broker → List ℕ)
    (perm : Permutes shuffle)
    (reorders : (bs : List Broker) → IsReordering (length bs) (order_of bs)) where
  pub build_metadata-IsServing :
      (brokers : List ResponseBroker) (topics : List ResponseTopic) (name : Bytes) (t : Topic)
      → let md = build_metadata shuffle order_of brokers topics in
        find_topic name md ≡ some t → IsServing md.brokers t
  unfolding build_metadata build
  build_metadata-IsServing brokers topics name t found =
      let b0 = add_brokers brokers new_builder in
      let has = add_brokers-HasBrokers brokers new_builder (tt, refl) in
      let n = length b0.brokers in
      let b = add_topics shuffle topics b0 in
      let none_yet = subst (λ ts. All (IsServing b0.brokers) ts) (sym has.1) tt in
      let none_choosable =
        subst (λ ts. All (IsChoosable n b0.topic_broker_vec) ts) (sym has.1) tt in
      let serving =
        add_topics-Serves shuffle perm n topics b0 ((has.0, (refl, none_choosable)), none_yet) in
      let (i, at) = find_topic-some name (build (order_of b.brokers) b) t found in
      get_elem?-IsServing b.brokers (order_of b.brokers) (reorders b.brokers) b.topics i t serving.1
        at
