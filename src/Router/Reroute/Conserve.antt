-- ===== src/Router/Reroute/Conserve.antt =====
-- What becomes of the messages that Reroute of src/dory/router_thread.cc is given.
use dory.Common.{
  ℕ, ◌+◌, ◌≡◌, ◌<◌, refl, sym, ◌∙◌, subst, Bool, false, List, [], ◌∷◌, ◌++◌, Option, none, some,
  ◌==◌, if◌then◌else◌, length, arith, All, count_if, count_all, one_if, count_if-append,
  count_all-append,
}
use dory.Common.Bytes.{Bytes}
use dory.Common.Assoc.{lookup, total, total-put, measure}
use dory.Msg.{Msg, RoutingType, any_partition, partition_key}
use dory.Metadata.Defs.{Partition, Topic, Metadata, find_topic}
use dory.Batch.TopicMap.{TopicMap, put, count_map, count_map-put, count_all-get_all}
use dory.Router.Choose.{Router, Routed, choose_any_partition_broker_index}
use dory.Router.Reroute.{
  BrokerMap, or_empty, push_back, to_broker, route_any_partition_now, KeyRouting, assign_to,
  set_partition, assign_batch, with_topic, and_then, assign_batches, by_topic, dispatch_by_topic,
  Rerouting, has_type, of_type, push_nonempty, separate, separate_available,
  validate_before_reroute,
}
use dory.Router.Reroute.Available.{
  IsServed, choose_partition_by_key-picks, RoutesWith, choose_any-RoutesWith,
}

total-push_back :
    {A : Type 0} (w : List A → ℕ) (v : A → ℕ)
    → w [] ≡ 0
    → ((xs : List A) (x : A) → w (xs ++ x ∷ []) ≡ w xs + v x)
    → (i : ℕ) (x : A) (m : BrokerMap A) → total w (push_back i x m) ≡ total w m + v x
unfolding push_back
total-push_back {A = A} w v empty more i x m =
    let xs = or_empty (lookup ◌==◌ i m) in
    omega
      (arith, total-put w (λ j k. false) ◌==◌ i (xs ++ x ∷ []) m, more xs x, at (lookup ◌==◌ i m))
  where
    at : (o : Option (List A)) → w (or_empty o) ≡ measure w o
    at none = empty
    at (some ys) = refl

-- The topic of a batch, with a partition that messages can be sent to.
abbrev pub HasTopic : Metadata → Bytes → Type 0
HasTopic md name = (t : Topic) × (find_topic name md ≡ some t) × (0 < length t.ok_partitions)

abbrev pub IsReady : Metadata → List Msg → Type 0
IsReady md [] = ⊥
IsReady md (m ∷ batch) = HasTopic md m.topic

-- A topic with a partition that messages can be sent to has one whose broker is in service.
abbrev pub IsRoutable : Metadata → Type 0
IsRoutable md =
    (name : Bytes) (t : Topic)
    → find_topic name md ≡ some t
    → 0 < length t.ok_partitions
    → IsServed md.brokers t

module _ (test : Msg → Bool) where
  abbrev pub count_batches : BrokerMap (List Msg) → ℕ
  count_batches m = total (count_all test) m

  abbrev pub count_msgs : BrokerMap Msg → ℕ
  count_msgs m = total (count_if test) m

  abbrev pub Routes : ℕ → Option (Router × BrokerMap (List Msg)) → Type 0
  Routes n none = ⊥
  Routes n (some (r, m)) = count_batches m ≡ n

  pub route_any_partition_now-Routes :
      (md : Metadata) (batches : List (List Msg)) (r : Router) (m : BrokerMap (List Msg))
      → All (IsReady md) batches
      → r.metadata ≡ md
      → Routes (count_batches m + count_all test batches) (route_any_partition_now batches r m)
  unfolding route_any_partition_now
  route_any_partition_now-Routes md [] r m ready same = omega arith
  route_any_partition_now-Routes md ([] ∷ rest) r m ready same = absurd ready.0
  route_any_partition_now-Routes md ((x ∷ batch) ∷ rest) r m ((t, found, available), ready) same =
      routed (choose_any_partition_broker_index r x.topic)
        (choose_any-RoutesWith r x.topic t
          (subst (λ d. find_topic x.topic d ≡ some t) (sym same) found) available)
        (λ r' m' same'. route_any_partition_now-Routes md rest r' m' ready same')
    where
      routed :
          (o : Routed)
          → RoutesWith r.metadata o
          → ((r' : Router) (m' : BrokerMap (List Msg))
              → r'.metadata ≡ md
              → Routes
                  (count_batches m' + count_all test rest)
                  (route_any_partition_now rest r' m'))
          → Routes
              (count_batches m + count_all test ((x ∷ batch) ∷ rest))
              (to_broker (x ∷ batch) m (route_any_partition_now rest) o)
      routed none h go = absurd h
      routed (some (i, r')) h go =
          let more =
            total-push_back (count_all test) (count_if test) refl
              (λ bs b. omega (arith, count_all-append test bs (b ∷ []))) i (x ∷ batch) m in
          subst (λ n. Routes n (route_any_partition_now rest r' (push_back i (x ∷ batch) m)))
            (omega (arith, more)) (go r' (push_back i (x ∷ batch) m) (h ∙ same))

  abbrev pub Assigns : ℕ → Option KeyRouting → Type 0
  Assigns n none = ⊥
  Assigns n (some k) = count_msgs k.broker_map ≡ n

  assign_batch-Assigns :
      (md : Metadata) (t : Topic) (batch : List Msg) (k : KeyRouting)
      → IsServed md.brokers t
      → Assigns (count_msgs k.broker_map + count_if test batch) (assign_batch md t batch k)
  unfolding assign_batch
  assign_batch-Assigns md t [] k served = omega arith
  assign_batch-Assigns md t (m ∷ batch) k served =
      let (p, picked) = choose_partition_by_key-picks md.brokers t m.key served in
      let more =
        total-push_back (count_if test) (λ x. one_if (test x)) refl
          (λ ms x. omega (arith, count_if-append test ms (x ∷ []))) p.broker_index m k.broker_map in
      let k' : KeyRouting = record {
        partition = set_partition m p.id k.partition;
        broker_map = push_back p.broker_index m k.broker_map;
      } in
      rw (picked, assign_to)
        (subst (λ n. Assigns n (assign_batch md t batch k')) (omega (arith, more))
          (assign_batch-Assigns md t batch k' served))

  pub assign_batches-Assigns :
      (md : Metadata) (batches : List (List Msg)) (k : KeyRouting)
      → IsRoutable md
      → All (IsReady md) batches
      → Assigns (count_msgs k.broker_map + count_all test batches) (assign_batches md batches k)
  unfolding assign_batches
  assign_batches-Assigns md [] k routable ready = omega arith
  assign_batches-Assigns md ([] ∷ rest) k routable ready = absurd ready.0
  assign_batches-Assigns md ((m ∷ batch) ∷ rest) k routable ((t, found, available), ready) =
      rw (found, with_topic)
        (goes_on (assign_batch md t (m ∷ batch) k)
          (assign_batch-Assigns md t (m ∷ batch) k (routable m.topic t found available))
          (λ k'. assign_batches-Assigns md rest k' routable ready))
    where
      goes_on :
          (o : Option KeyRouting)
          → Assigns (count_msgs k.broker_map + count_if test (m ∷ batch)) o
          → ((k' : KeyRouting)
              → Assigns
                  (count_msgs k'.broker_map + count_all test rest)
                  (assign_batches md rest k'))
          → Assigns
              (count_msgs k.broker_map + count_all test ((m ∷ batch) ∷ rest))
              (and_then (assign_batches md rest) o)
      goes_on none h go = absurd h
      goes_on (some k') h go =
          subst (λ n. Assigns n (assign_batches md rest k')) (omega (arith, h)) (go k')

  count_map-by_topic :
      (msgs : List Msg) (topics : TopicMap)
      → count_map test (by_topic msgs topics) ≡ count_map test topics + count_if test msgs
  unfolding by_topic
  count_map-by_topic [] topics = omega arith
  count_map-by_topic (m ∷ rest) topics =
      omega (arith, count_map-by_topic rest (put topics m), count_map-put test topics m)

  pub count_batches-dispatch_by_topic :
      (m : BrokerMap Msg) → count_batches (dispatch_by_topic m) ≡ count_msgs m
  unfolding dispatch_by_topic
  count_batches-dispatch_by_topic [] = refl
  count_batches-dispatch_by_topic ((i, msgs) ∷ rest) =
      let empty : count_map test [] ≡ 0 = unfold count_map in refl in
      omega (
        arith,
        empty,
        count_all-get_all test (by_topic msgs []),
        count_map-by_topic msgs [],
        count_batches-dispatch_by_topic rest,
      )

  count_if-of_type :
      (batch : List Msg)
      → count_if test (of_type any_partition batch) + count_if test (of_type partition_key batch)
        ≡ count_if test batch
  unfolding of_type has_type
  count_if-of_type [] = refl
  count_if-of_type (m ∷ batch) = of (m.routing_type) (count_if-of_type batch)
    where
      of :
          (r : RoutingType)
          → count_if test (of_type any_partition batch)
              + count_if test (of_type partition_key batch)
            ≡ count_if test batch
          → count_if test (
                if has_type any_partition r
                then m ∷ of_type any_partition batch
                else of_type any_partition batch)
              + count_if test (
                  if has_type partition_key r
                  then m ∷ of_type partition_key batch
                  else of_type partition_key batch)
            ≡ count_if test (m ∷ batch)
      of any_partition h = omega (arith, h)
      of partition_key h = omega (arith, h)

  count_all-push_nonempty :
      (batch : List Msg) (batches : List (List Msg))
      → count_all test (push_nonempty batch batches) ≡ count_if test batch + count_all test batches
  count_all-push_nonempty [] batches = omega arith
  count_all-push_nonempty (m ∷ batch) batches = refl

  abbrev pub count_rerouting : Rerouting → ℕ
  count_rerouting s =
      count_all test s.any_partition_batches
      + count_all test s.partition_key_batches
      + count_if test s.bad_topic
      + count_if test s.no_available_partitions

  pub count_rerouting-validate :
      (batch : List Msg) (s : Rerouting) (o : Option Topic)
      → count_rerouting (validate_before_reroute batch s o)
        ≡ count_if test batch + count_rerouting s
  unfolding separate
  count_rerouting-validate batch s none = omega (arith, count_if-append test batch s.bad_topic)
  count_rerouting-validate batch s (some t) = available t.ok_partitions
    where
      available :
          (ps : List Partition)
          → count_rerouting (separate_available batch s (record t { ok_partitions = ps }))
            ≡ count_if test batch + count_rerouting s
      available [] = omega (arith, count_if-append test batch s.no_available_partitions)
      available (p ∷ ps) = omega (
        arith,
        count_all-push_nonempty (of_type any_partition batch) s.any_partition_batches,
        count_all-push_nonempty (of_type partition_key batch) s.partition_key_batches,
        count_if-of_type batch,
      )
