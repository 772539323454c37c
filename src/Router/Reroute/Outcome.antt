-- ===== src/Router/Reroute/Outcome.antt =====
-- Reroute of src/dory/router_thread.cc as a whole.
use dory.Common.{
  ℕ, ◌+◌, ◌≡◌, ◌<◌, refl, sym, subst, Bool, Bool-cases, List, [], ◌∷◌, Option, none, some, length,
  arith, inl, inr, All, count_if, count_all,
}
use dory.Common.Int.{ℤ}
use dory.Common.Bytes.{Bytes}
use dory.Msg.{Msg, RoutingType, any_partition, partition_key}
use dory.Metadata.Defs.{Partition, Topic, Metadata, find_topic}
use dory.Router.Choose.{Router}
use dory.Router.Reroute.{
  BrokerMap, route_any_partition_now, KeyRouting, assign_batches, Rerouting, has_type, of_type,
  push_nonempty, separate, separate_available, validate_before_reroute, separate_batches, Rerouted,
  rerouted, route_separated, reroute,
}
use dory.Router.Reroute.Conserve.{
  HasTopic, IsReady, IsRoutable, count_batches, Routes, Assigns, route_any_partition_now-Routes,
  assign_batches-Assigns, count_batches-dispatch_by_topic, count_rerouting,
  count_rerouting-validate,
}

-- The messages of a batch have one topic, and there is at least one.
abbrev pub IsBatch : List Msg → Type 0
IsBatch [] = ⊥
IsBatch (m ∷ batch) = All (λ (x : Msg). x.topic ≡ m.topic) batch

-- The batches that are to be routed have a topic with a partition that messages can be sent to.
abbrev AreReady : Metadata → Rerouting → Type 0
AreReady md s = All (IsReady md) s.any_partition_batches × All (IsReady md) s.partition_key_batches

All-of_type :
    (P : Msg → Type 0) (r : RoutingType) (batch : List Msg) → All P batch → All P (of_type r batch)
unfolding of_type
All-of_type P r [] all = tt
All-of_type P r (m ∷ batch) all = elim (Bool-cases (has_type r m.routing_type)) [
  | inl e ↦ rw e (all.0, All-of_type P r batch all.1)
  | inr e ↦ rw e (All-of_type P r batch all.1)
]

push_nonempty-IsReady :
    (md : Metadata) (name : Bytes) (batch : List Msg) (batches : List (List Msg))
    → HasTopic md name
    → All (λ (x : Msg). x.topic ≡ name) batch
    → All (IsReady md) batches
    → All (IsReady md) (push_nonempty batch batches)
push_nonempty-IsReady md name [] batches has all ready = ready
push_nonempty-IsReady md name (m ∷ batch) batches has all ready =
    (subst (HasTopic md) (sym all.0) has, ready)

validate-AreReady :
    (md : Metadata) (m : Msg) (batch : List Msg) (s : Rerouting) (o : Option Topic)
    → find_topic m.topic md ≡ o
    → IsBatch (m ∷ batch)
    → AreReady md s
    → AreReady md (validate_before_reroute (m ∷ batch) s o)
unfolding separate
validate-AreReady md m batch s none e is ready = ready
validate-AreReady md m batch s (some t) e is ready = available t.ok_partitions refl
  where
    available :
        (ps : List Partition)
        → t.ok_partitions ≡ ps
        → AreReady md (separate_available (m ∷ batch) s (record t { ok_partitions = ps }))
    available [] same = ready
    available (p ∷ ps) same =
        let has : HasTopic md m.topic =
          (t, e, subst (λ qs. 0 < length qs) (sym same) (omega arith)) in
        let all : All (λ (x : Msg). x.topic ≡ m.topic) (m ∷ batch) = (refl, is) in
        (
          push_nonempty-IsReady md m.topic (of_type any_partition (m ∷ batch))
              s.any_partition_batches has
              (All-of_type (λ x. x.topic ≡ m.topic) any_partition (m ∷ batch) all) ready.0,
          push_nonempty-IsReady md m.topic (of_type partition_key (m ∷ batch))
              s.partition_key_batches has
              (All-of_type (λ x. x.topic ≡ m.topic) partition_key (m ∷ batch) all) ready.1,
        )

module _ (test : Msg → Bool) where
  abbrev Separates : Metadata → ℕ → Option Rerouting → Type 0
  Separates md n none = ⊥
  Separates md n (some s) = AreReady md s × (count_rerouting test s ≡ n)

  separate_batches-Separates :
      (md : Metadata) (batches : List (List Msg))
      → All IsBatch batches
      → Separates md (count_all test batches) (separate_batches md batches)
  unfolding separate_batches
  separate_batches-Separates md [] are = ((tt, tt), omega arith)
  separate_batches-Separates md ([] ∷ rest) are = absurd are.0
  separate_batches-Separates md ((m ∷ batch) ∷ rest) are =
      goes_on (separate_batches md rest) (separate_batches-Separates md rest are.1)
    where
      goes_on :
          (o : Option Rerouting)
          → Separates md (count_all test rest) o
          → Separates md (count_all test ((m ∷ batch) ∷ rest)) (elim o [
            | none ↦ none
            | some s ↦ some (validate_before_reroute (m ∷ batch) s (find_topic m.topic md))
          ])
      goes_on none h = absurd h
      goes_on (some s) h =
          let o = find_topic m.topic md in
          (
            validate-AreReady md m batch s o refl are.0 h.0,
            omega (arith, count_rerouting-validate test (m ∷ batch) s o, h.1),
          )

  -- As many messages as before go to brokers or are discarded.
  abbrev pub Reroutes : ℕ → Option Rerouted → Type 0
  Reroutes n none = ⊥
  Reroutes n (some z) =
      count_batches test z.to_any
        + count_batches test z.to_key
        + count_if test z.bad_topic
        + count_if test z.no_available_partitions
      ≡ n

  rerouted-Reroutes :
      (s : Rerouting) (a : Option (Router × BrokerMap (List Msg))) (k : Option KeyRouting)
      → Routes test (count_all test s.any_partition_batches) a
      → Assigns test (count_all test s.partition_key_batches) k
      → Reroutes (count_rerouting test s) (rerouted s a k)
  rerouted-Reroutes s none k h g = absurd h
  rerouted-Reroutes s (some a) none h g = absurd g
  rerouted-Reroutes s (some (r, m)) (some k) h g =
      omega (arith, h, g, count_batches-dispatch_by_topic test k.broker_map)

  -- Of batches as the dispatcher hands them over, with metadata by which every topic that has an
  -- available partition can be routed, no message is lost or repeated, and there is a result.
  pub reroute-Reroutes :
      (r : Router) (partition : ℕ → ℤ) (batches : List (List Msg))
      → All IsBatch batches
      → IsRoutable r.metadata
      → Reroutes (count_all test batches) (reroute r partition batches)
  unfolding reroute
  reroute-Reroutes r partition batches are routable =
      goes_on (separate_batches r.metadata batches)
        (separate_batches-Separates r.metadata batches are)
    where
      goes_on :
          (o : Option Rerouting)
          → Separates r.metadata (count_all test batches) o
          → Reroutes (count_all test batches) (route_separated r partition o)
      goes_on none h = absurd h
      goes_on (some s) h =
          let k : KeyRouting = record { partition = partition; broker_map = [] } in
          subst (λ n. Reroutes n (route_separated r partition (some s))) h.1
            (rerouted-Reroutes s (route_any_partition_now s.any_partition_batches r [])
              (assign_batches r.metadata s.partition_key_batches k)
              (subst (λ n. Routes test n (route_any_partition_now s.any_partition_batches r []))
                (omega arith)
                (route_any_partition_now-Routes test r.metadata s.any_partition_batches r [] h.0.0
                  refl))
              (subst (λ n. Assigns test n (assign_batches r.metadata s.partition_key_batches k))
                (omega arith)
                (assign_batches-Assigns test r.metadata s.partition_key_batches k routable h.0.1)))
