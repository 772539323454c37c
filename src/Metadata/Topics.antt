-- ===== src/Metadata/Topics.antt =====
-- The topics of a builder of src/dory/metadata.cc, from one call of CloseTopic to the next.
use dory.Common.{
  ℕ, zero, suc, ◌≡◌, ◌≤◌, ◌<◌, refl, sym, ap, ◌∙◌, subst, Bool, Bool-cases, true, false, ◌&&◌, List,
  [], ◌∷◌, ◌++◌, ◌==◌, if◌then◌else◌, length, arith, All, All-append, ltb, count_if, inl, inr,
  append_assoc, append-nil, length-append,
}
use dory.Common.Int.{ℤ}
use dory.Common.Bytes.{Bytes}
use dory.Common.Assoc.{lookup, AllItems}
use dory.Metadata.Defs.{Broker, Partition, PartitionChoices, Topic}
use dory.Metadata.Builder.{
  Builder, Ranges, close_run, walk, make_ranges, mark_in_service, by_broker, by_id, sort, ranges_of,
  close_topic,
}
use dory.Metadata.Ranges.{
  count_on, AreInside, choices_at, choices_at-append, AreInside-append, Follow, AreNew,
  map-close_run, close_run-AreInside, close_run-AreNew, make_ranges-choices,
}
use dory.Metadata.Sorted.{
  count_if-sort, by_broker-IsOrder, sort-IsSorted, IsSorted-Follow, IsAscending, ids_on-IsAscending,
  count_if-ids_on,
}

pub length-mark_in_service : (i : ℕ) (bs : List Broker) → length (mark_in_service i bs) ≡ length bs
unfolding mark_in_service
length-mark_in_service i [] = refl
length-mark_in_service zero (b ∷ rest) = refl
length-mark_in_service (suc i) (b ∷ rest) = ap suc (length-mark_in_service i rest)

-- Partitions whose brokers are there.
abbrev pub AreOn : ℕ → List Partition → Type 0
AreOn n ps = All (λ (p : Partition). p.broker_index < n) ps

-- Ranges behind others, in the same vector made longer.
record Extends (n : ℕ) (r r' : Ranges) : Type 0 where
  more : List ℤ
  longer : r'.vec ≡ r.vec ++ more
  inside : AreInside r'.vec r'.choice_map
  keys : AllItems (λ k (c : PartitionChoices). k < n) r'.choice_map
  same_brokers : length r'.brokers ≡ length r.brokers

walk-Extends :
    (n i : ℕ) (ids : List ℤ) (rest : List Partition) (r : Ranges)
    → i < n
    → AreOn n rest
    → Follow i rest
    → AreNew i r.choice_map
    → 0 < length ids
    → AreInside r.vec r.choice_map
    → AllItems (λ k (c : PartitionChoices). k < n) r.choice_map
    → Extends n r (walk i ids rest r)
unfolding walk close_run
walk-Extends n i ids [] r lt on f new some_id h keys = record {
  more = ids;
  longer = refl;
  inside = close_run-AreInside i ids r (new i (omega arith)) some_id h;
  keys =
      subst (AllItems (λ k (c : PartitionChoices). k < n))
        (sym (map-close_run i ids r (new i (omega arith)))) (lt, keys);
  same_brokers = length-mark_in_service i r.brokers;
}
walk-Extends n i ids (p ∷ rest) r lt on f new some_id h keys =
    elim (Bool-cases (p.broker_index == i)) [
      | inl e ↦
          let same : p.broker_index ≡ i = ground (arith, e) in
          rw e (
            walk-Extends n i (ids ++ p.id ∷ []) rest r lt on.1 (subst (λ j. Follow j rest) same f.1)
              new (omega (arith, length-append ids (p.id ∷ []))) h keys)
      | inr e ↦
          let later : i < p.broker_index = ground (arith, e, f.0) in
          let fresh = new i (omega arith) in
          let x =
            walk-Extends n p.broker_index (p.id ∷ []) rest (close_run i ids r) on.0 on.1 f.1
              (close_run-AreNew i p.broker_index ids r later new) (omega arith)
              (close_run-AreInside i ids r fresh some_id h)
              (subst (AllItems (λ k (c : PartitionChoices). k < n))
                (sym (map-close_run i ids r fresh)) (lt, keys)) in
          rw e (record {
            more = ids ++ x.more;
            longer = x.longer ∙ append_assoc r.vec ids x.more;
            inside = x.inside;
            keys = x.keys;
            same_brokers = x.same_brokers ∙ length-mark_in_service i r.brokers;
          })
    ]

make_ranges-Extends :
    (n : ℕ) (ps : List Partition) (brokers : List Broker) (vec : List ℤ)
    → AreOn n ps
    → Follow 0 ps
    → let r : Ranges = record { brokers = brokers; vec = vec; choice_map = [] } in
      Extends n r (make_ranges ps r)
unfolding make_ranges
make_ranges-Extends n [] brokers vec on f = record {
  more = [];
  longer = sym (append-nil vec);
  inside = tt;
  keys = tt;
  same_brokers = refl;
}
make_ranges-Extends n (p ∷ rest) brokers vec on f =
    walk-Extends n p.broker_index (p.id ∷ []) rest
      (record { brokers = brokers; vec = vec; choice_map = [] }) on.0 on.1 f.1
      (λ k h. unfold lookup in refl) (omega arith) tt tt

-- A topic whose ranges are, for each broker, the IDs of its partitions there that messages can be sent
-- to, in ascending order.
pub record IsChoosable (n : ℕ) (vec : List ℤ) (t : Topic) : Type 0 where
  pub inside : AreInside vec t.partition_choice_map
  pub keys : AllItems (λ k (c : PartitionChoices). k < n) t.partition_choice_map
  pub on : AreOn n t.ok_partitions
  pub ascending : (k : ℕ) → IsAscending (choices_at k vec t.partition_choice_map)
  pub counts :
      (test : ℤ → Bool) (k : ℕ)
      → count_if test (choices_at k vec t.partition_choice_map) ≡ count_on test k t.ok_partitions

IsChoosable-longer :
    (n : ℕ) (vec more : List ℤ) (t : Topic) → IsChoosable n vec t → IsChoosable n (vec ++ more) t
IsChoosable-longer n vec more t h =
    let same = λ (k : ℕ). choices_at-append k vec more t.partition_choice_map h.inside in
    record {
      inside = AreInside-append vec more t.partition_choice_map h.inside;
      keys = h.keys;
      on = h.on;
      ascending = λ k. subst IsAscending (sym (same k)) (h.ascending k);
      counts = λ test k. ap (count_if test) (same k) ∙ h.counts test k;
    }

All-longer :
    (n : ℕ) (vec more : List ℤ) (ts : List Topic)
    → All (IsChoosable n vec) ts
    → All (IsChoosable n (vec ++ more)) ts
All-longer n vec more [] h = tt
All-longer n vec more (t ∷ ts) h =
    (IsChoosable-longer n vec more t h.0, All-longer n vec more ts h.1)

-- What std::shuffle and std::sort are relied on for: they only change the order.
abbrev pub Permutes : (List Partition → List Partition) → Type 0
Permutes f =
    (test : Partition → Bool) (ps : List Partition) → count_if test (f ps) ≡ count_if test ps

is_off : ℕ → Partition → Bool
is_off n p = if ltb p.broker_index n then false else true

no_off : (n : ℕ) (ps : List Partition) → AreOn n ps → count_if (is_off n) ps ≡ 0
unfolding is_off
no_off n [] h = refl
no_off n (p ∷ ps) h =
    let e : ltb p.broker_index n ≡ true = ground arith in rw e (omega (arith, no_off n ps h.1))

all_on : (n : ℕ) (ps : List Partition) → count_if (is_off n) ps ≡ 0 → AreOn n ps
unfolding is_off
all_on n [] h = tt
all_on n (p ∷ ps) h = elim (Bool-cases (ltb p.broker_index n)) [
  | inl e ↦ (ground (arith, e), all_on n ps (omega (arith, (rw e at h))))
  | inr e ↦ absurd (omega (arith, (rw e at h)))
]

pub AreOn-permuted :
    (f : List Partition → List Partition) (n : ℕ) (ps : List Partition)
    → Permutes f
    → AreOn n ps
    → AreOn n (f ps)
AreOn-permuted f n ps perm h = all_on n (f ps) (perm (is_off n) ps ∙ no_off n ps h)

AreOn-zero :
    (n : ℕ) (ps : List Partition) → AreOn n ps → All (λ (p : Partition). 0 ≤ p.broker_index) ps
AreOn-zero n [] h = tt
AreOn-zero n (p ∷ ps) h = (omega arith, AreOn-zero n ps h.1)

abbrev pub AreChoosable : ℕ → Builder → Type 0
AreChoosable n b = (length b.brokers ≡ n) × All (IsChoosable n b.topic_broker_vec) b.topics

module _ (shuffle : List Partition → List Partition) (perm : Permutes shuffle) where
  -- The topic that is closed, and its ranges.
  closed-IsChoosable :
      (n : ℕ) (t : Topic) (b : Builder)
      → AreOn n t.ok_partitions
      → t.partition_choice_map ≡ []
      → let sorted = sort by_broker t.ok_partitions in
        let r = ranges_of shuffle t b in
        Extends n (record { brokers = b.brokers; vec = b.topic_broker_vec; choice_map = [] }) r
        × IsChoosable n r.vec (record {
          ok_partitions = shuffle sorted;
          out_of_service_partitions = t.out_of_service_partitions;
          all_partitions = sort by_id (sorted ++ t.out_of_service_partitions);
          partition_choice_map = r.choice_map;
        })
  unfolding ranges_of
  closed-IsChoosable n t b on empty =
      let sorted = sort by_broker t.ok_partitions in
      let sorts : Permutes (sort by_broker) = λ test ps. count_if-sort test by_broker ps in
      let in_order = sort-IsSorted by_broker by_broker-IsOrder t.ok_partitions in
      let sorted_on = AreOn-permuted (sort by_broker) n t.ok_partitions sorts on in
      let follow = IsSorted-Follow 0 sorted (AreOn-zero n sorted sorted_on) in_order in
      let r : Ranges =
        make_ranges sorted
          (record { brokers = b.brokers; vec = b.topic_broker_vec; choice_map = [] }) in
      let x = make_ranges-Extends n sorted b.brokers b.topic_broker_vec sorted_on follow in
      let ranges = λ (k : ℕ). make_ranges-choices k 0 sorted b.brokers b.topic_broker_vec follow in
      subst
        (λ m.
          let r' =
            make_ranges sorted
              (record { brokers = b.brokers; vec = b.topic_broker_vec; choice_map = m }) in
          Extends n (record { brokers = b.brokers; vec = b.topic_broker_vec; choice_map = [] }) r'
          × IsChoosable n r'.vec (record {
            ok_partitions = shuffle sorted;
            out_of_service_partitions = t.out_of_service_partitions;
            all_partitions = sort by_id (sorted ++ t.out_of_service_partitions);
            partition_choice_map = r'.choice_map;
          }))
        (sym empty)
        (
          x,
          record {
            inside = x.inside;
            keys = x.keys;
            on = AreOn-permuted shuffle n sorted perm sorted_on;
            ascending =
                λ k. subst IsAscending (sym (ranges k)) (ids_on-IsAscending k sorted in_order);
            counts = λ test k.
                ap (count_if test) (ranges k)
                ∙ count_if-ids_on test k sorted
                ∙ sym (perm (λ (p : Partition). p.broker_index == k && test p.id) sorted);
          },
        )

  pub close_topic-AreChoosable :
      (n : ℕ) (name : Bytes) (t : Topic) (b : Builder)
      → AreOn n t.ok_partitions
      → t.partition_choice_map ≡ []
      → AreChoosable n b
      → AreChoosable n (close_topic shuffle name t b)
  unfolding close_topic
  close_topic-AreChoosable n name t b on empty h =
      let (x, new) = closed-IsChoosable n t b on empty in
      let before =
        subst (λ vec. All (IsChoosable n vec) b.topics) (sym x.longer)
          (All-longer n b.topic_broker_vec x.more b.topics h.1) in
      (
        x.same_brokers ∙ h.0,
        All-append (IsChoosable n (ranges_of shuffle t b).vec) b.topics _ before (new, tt),
      )
