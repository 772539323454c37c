-- ===== src/Router/Reroute/Available.antt =====
-- A topic with an available partition: src/dory/router_thread.cc chooses a broker for it.
use Prim.Native.Nat.{ℕ}
use native.Mathlib.Nat.{mod-eq_of_lt, add-mod_right, mod-lt}
use dory.Common.{
  get_elem?, get_elem?-some, zero, suc, ◌+◌, ◌-◌, ◌%◌, ◌≡◌, ◌≤◌, ◌<◌, refl, ap, ◌∙◌, Bool-cases,
  true, ltb, List, [], ◌∷◌, Option-cases, none, some, length, arith, inl, inr,
}
use dory.Common.Int.{ℤ}
use dory.Common.Word.{to_u32}
use dory.Common.Bytes.{Bytes, bytes_eq}
use dory.Common.Assoc.{lookup}
use dory.Metadata.Defs.{Broker, Partition, Topic, Metadata, find_topic}
use dory.Router.Choose.{
  Router, Routed, increment, counter_of, choose_at, choose_in, choose_any_partition_broker_index,
  Chosen, picks, dies, out_of_fuel, is_in_service, choose_partition_by_key,
}
use dory.Router.ByKey.{index_behind, IsPick, is_served, choose_partition_by_key-IsPick}

-- Some partition of the topic has its broker in service.
abbrev pub IsServed : List Broker → Topic → Type 0
IsServed brokers t =
    (d : ℕ) × (p : Partition) × (get_elem? t.all_partitions d ≡ some p)
    × (is_in_service brokers p.broker_index ≡ true)

get_elem?-lt {ℓ} :
    {A : Type ℓ} (xs : List A) (i : ℕ) {x : A} → get_elem? xs i ≡ some x → i < length xs
get_elem?-lt [] i e = absurd cc
get_elem?-lt (y ∷ xs) zero e = omega arith
get_elem?-lt (y ∷ xs) (suc i) e = omega (arith, get_elem?-lt xs i e)

-- Each index is so far behind another, round the end.
distance : (n start d : ℕ) → start < n → d < n → (e : ℕ) × (e < n) × (index_behind n start e ≡ d)
distance n start d lt k = elim (Bool-cases (ltb d start)) [
  | inl s ↦
      let before : d < start = ground (arith, s) in
      (
        d + n - start,
        omega (arith, before, lt),
        ap (λ x. x % n) (omega (arith, before, lt)) ∙ add-mod_right d n ∙ mod-eq_of_lt k,
      )
  | inr s ↦
      let after : start ≤ d = ground (arith, s) in
      (d - start, omega (arith, k), ap (λ x. x % n) (omega (arith, after)) ∙ mod-eq_of_lt k)
]

pub choose_partition_by_key-picks :
    (brokers : List Broker) (t : Topic) (key : ℤ)
    → IsServed brokers t
    → (p : Partition) × (choose_partition_by_key brokers t key ≡ picks p)
choose_partition_by_key-picks brokers t key (d, p, at, good) =
    let n = length t.all_partitions in
    let lt = get_elem?-lt t.all_partitions d at in
    let start = to_u32 key % n in
    let start_lt : start < n = mod-lt (to_u32 key) (omega (arith, lt)) in
    picked (choose_partition_by_key brokers t key) refl
      (choose_partition_by_key-IsPick brokers t key (omega (arith, lt)))
      (distance n start d start_lt lt)
  where
    picked :
        (c : Chosen)
        → choose_partition_by_key brokers t key ≡ c
        → IsPick (is_served brokers) t.all_partitions (to_u32 key % length t.all_partitions) c
        → (e : ℕ) × (e < length t.all_partitions)
          × (index_behind (length t.all_partitions) (to_u32 key % length t.all_partitions) e ≡ d)
        → (q : Partition) × (choose_partition_by_key brokers t key ≡ picks q)
    picked (picks q) same h far = (q, same)
    picked dies same before (e, k, stands) =
        absurd (cc (good, before e p k (ap (get_elem? t.all_partitions) stands ∙ at)))
    picked out_of_fuel same h far = absurd h

-- What the choice among the partitions that messages can be sent to leaves of the router.
abbrev pub RoutesWith : Metadata → Routed → Type 0
RoutesWith md none = ⊥
RoutesWith md (some (i, r)) = r.metadata ≡ md

choose_at-RoutesWith :
    (r : Router) (i : ℕ) (t : Topic)
    → 0 < length t.ok_partitions
    → RoutesWith r.metadata (choose_at r i (some t))
unfolding choose_at
choose_at-RoutesWith r i t h =
    let r' = record r { route_counters = increment r.route_counters i } in
    let c = counter_of (get_elem? r'.route_counters i) in
    let (p, at) = get_elem?-some t.ok_partitions (c % length t.ok_partitions) (mod-lt c h) in
    rw at refl

pub choose_any-RoutesWith :
    (r : Router) (name : Bytes) (t : Topic)
    → find_topic name r.metadata ≡ some t
    → 0 < length t.ok_partitions
    → RoutesWith r.metadata (choose_any_partition_broker_index r name)
unfolding choose_any_partition_broker_index choose_in find_topic
choose_any-RoutesWith r name t e h =
    elim (Option-cases (lookup bytes_eq name r.metadata.topic_name_to_index)) [
      | inl n ↦ absurd (cc (rw (n, find_topic) at e))
      | inr (i, n) ↦
          let at : get_elem? r.metadata.topics i ≡ some t = (rw (n, find_topic) at e) in
          rw (n, at) (choose_at-RoutesWith r i t h)
    ]
