-- ===== src/Metadata/Choices.antt =====
-- FindPartitionChoices of src/dory/metadata.cc on metadata that was built of a response.
use dory.Common.{
  get_elem?, get_elem?-some, ℕ, zero, suc, ◌≡◌, ◌≤◌, ◌<◌, refl, sym, ap, ◌∙◌, subst, Bool,
  Bool-cases, false, ◌&&◌, List, [], ◌∷◌, Option-cases, none, some, leb, ◌==◌, length, arith, All,
  count_if, inl, inr, map, to_list,
}
use dory.Common.Int.{ℤ}
use dory.Common.Bytes.{Bytes, bytes_eq}
use dory.Common.Assoc.{lookup}
use dory.Metadata.Defs.{
  Broker, Partition, Topic, Metadata, find_topic, choices_of, choices_in, find_partition_choices,
}
use dory.Metadata.Builder.{Builder, new_builder}
use dory.Metadata.Build.{
  ResponseBroker, ResponseTopic, rename_topic, gather, build, build_metadata, add_topics,
  add_brokers,
}
use dory.Metadata.Ranges.{count_on, choices_at, choices_at-none}
use dory.Metadata.Sorted.{IsAscending}
use dory.Metadata.Topics.{IsChoosable, Permutes}
use dory.Metadata.Response.{add_brokers-HasBrokers, add_topics-IsBetween}
use dory.Metadata.Order.{
  IsReordering, new_index, new_index_iff, new_index-none, count_on-rename, lookup-rename,
  lookup-rename_none,
}

-- The partitions of a topic on a broker that messages can be sent to, as a list of IDs has them.
abbrev pub Lists : List ℤ → ℕ → Topic → Type 0
Lists ids j t =
    IsAscending ids × ((test : ℤ → Bool) → count_if test ids ≡ count_on test j t.ok_partitions)

count_none :
    (test : ℤ → Bool) (ps : List Partition)
    → count_if (λ (p : Partition). false && test p.id) ps ≡ 0
count_none test [] = refl
count_none test (p ∷ ps) = omega (arith, count_none test ps)

get_elem?-beyond {ℓ} : {A : Type ℓ} (xs : List A) (i : ℕ) → length xs ≤ i → get_elem? xs i ≡ none
get_elem?-beyond [] i h = refl
get_elem?-beyond (x ∷ xs) zero h = absurd (omega arith)
get_elem?-beyond (x ∷ xs) (suc i) h = get_elem?-beyond xs i (omega arith)

length-gather :
    (order : List ℕ) (bs : List Broker)
    → ((j k : ℕ) → get_elem? order j ≡ some k → k < length bs)
    → length (gather order bs) ≡ length order
unfolding gather
length-gather [] bs h = refl
length-gather (k ∷ rest) bs h =
    let (b, e) = get_elem?-some bs k (h zero k refl) in
    rw (e, to_list) (ap suc (length-gather rest bs (λ j i. h (suc j) i)))

module _ (brokers : List Broker) (order : List ℕ) (ok : IsReordering (length brokers) order) where
  -- Also where there is no broker.
  abbrev ListsAt : List ℤ → ℕ → Topic → Type 0
  ListsAt vec j t =
      Lists (choices_at j vec t.partition_choice_map) j t
      × (get_elem? order j ≡ none → choices_at j vec t.partition_choice_map ≡ [])

  rename_topic-Lists :
      (vec : List ℤ) (t : Topic) (j : ℕ)
      → IsChoosable (length brokers) vec t
      → let t' = rename_topic (new_index order brokers) t in ListsAt vec j t'
  unfolding rename_topic
  rename_topic-Lists vec t j h = elim (Option-cases (get_elem? order j)) [
    | inl e ↦
        let at : ℕ → Bool = λ k. false in
        let same = λ (k : ℕ) (lt : k < length brokers). new_index-none brokers order ok j k e lt in
        let new = new_index order brokers in
        let none_there = choices_at-none j vec _ (
          lookup-rename_none new j at (length brokers) same t.partition_choice_map h.keys
            (λ k lt. refl)) in
        (
          (
            subst IsAscending (sym none_there) tt,
            λ test.
                ap (count_if test) none_there
                ∙ sym (
                    count_on-rename new j at (length brokers) same test t.ok_partitions h.on
                    ∙ count_none test t.ok_partitions),
          ),
          λ none_at. none_there,
        )
    | inr (i, e) ↦
        let at : ℕ → Bool = λ k. k == i in
        let same = λ (k : ℕ) (lt : k < length brokers). new_index_iff brokers order ok i j k e lt in
        let new = new_index order brokers in
        let as_before = ap (choices_in vec) (
          lookup-rename new j at (length brokers) same t.partition_choice_map i h.keys
            (λ k lt. refl)) in
        (
          (
            subst IsAscending (sym as_before) (h.ascending i),
            λ test.
                ap (count_if test) as_before
                ∙ h.counts test i
                ∙ sym (count_on-rename new j at (length brokers) same test t.ok_partitions h.on),
          ),
          λ none_at. absurd (cc (none_at, e)),
        )
  ]

  All-rename :
      (vec : List ℤ) (ts : List Topic) (i j : ℕ) (t : Topic)
      → All (IsChoosable (length brokers) vec) ts
      → get_elem? (map (rename_topic (new_index order brokers)) ts) i ≡ some t
      → ListsAt vec j t
  All-rename vec [] i j t all e = absurd cc
  All-rename vec (u ∷ ts) zero j t all e =
      let same : rename_topic (new_index order brokers) u ≡ t = cc in
      subst (ListsAt vec j) same (rename_topic-Lists vec u j all.0)
  All-rename vec (u ∷ ts) (suc i) j t all e = All-rename vec ts i j t all.1 e

-- What the lookup of a topic by its name finds is a topic of the metadata.
pub find_topic-some :
    (name : Bytes) (md : Metadata) (t : Topic)
    → find_topic name md ≡ some t
    → (i : ℕ) × (get_elem? md.topics i ≡ some t)
unfolding find_topic
find_topic-some name md t e = elim (Option-cases (lookup bytes_eq name md.topic_name_to_index)) [
  | inl n ↦ absurd (cc (rw (n, find_topic) at e))
  | inr (i, n) ↦ (i, (rw (n, find_topic) at e))
]

build-Lists :
    (order : List ℕ) (b : Builder) (name : Bytes) (j : ℕ) (t : Topic)
    → IsReordering (length b.brokers) order
    → All (IsChoosable (length b.brokers) b.topic_broker_vec) b.topics
    → find_topic name (build order b) ≡ some t
    → Lists (find_partition_choices (build order b) name j) j t
build-Lists order b name j t ok all e =
    let (i, at) = find_topic-some name (build order b) t e in
    let (lists, beyond) =
      All-rename b.brokers order ok b.topic_broker_vec b.topics i j t all (unfold build in at) in
    subst (λ ids. Lists ids j t) (sym (found lists beyond)) lists
  where
    found :
        Lists (choices_at j b.topic_broker_vec t.partition_choice_map) j t
        → (get_elem? order j ≡ none → choices_at j b.topic_broker_vec t.partition_choice_map ≡ [])
        → find_partition_choices (build order b) name j
          ≡ choices_at j b.topic_broker_vec t.partition_choice_map
    found lists beyond =
        unfold find_partition_choices in
        rw (e, choices_of)
          (elim (Bool-cases (leb (length (build order b).brokers) j)) [
            | inl g ↦
                let few : length (build order b).brokers ≡ length order =
                  unfold build in length-gather order b.brokers ok.in_range in
                rw g (sym (beyond (get_elem?-beyond order j (ground (arith, g, few)))))
            | inr g ↦ rw g (unfold build in refl)
          ])

module _ (shuffle : List Partition → List Partition) (order_of : List Broker → List ℕ)
    (perm : Permutes shuffle)
    (reorders : (bs : List Broker) → IsReordering (length bs) (order_of bs)) where
  -- If std::shuffle permutes and std::sort yields each broker once, then on the metadata that
  -- BuildMetadataFromResponse makes of any response, for every topic that is found in it and every
  -- index of a broker, FindPartitionChoices yields the IDs of the topic's partitions on that broker
  -- that messages can be sent to: for every test on IDs as many pass as among those partitions, and
  -- the IDs are ascending.
  pub find_partition_choices-Lists :
      (brokers : List ResponseBroker) (topics : List ResponseTopic) (name : Bytes) (j : ℕ)
      (t : Topic)
      → find_topic name (build_metadata shuffle order_of brokers topics) ≡ some t
      → Lists (find_partition_choices (build_metadata shuffle order_of brokers topics) name j) j t
  unfolding build_metadata
  find_partition_choices-Lists brokers topics name j t e =
      let b0 = add_brokers brokers new_builder in
      let has = add_brokers-HasBrokers brokers new_builder (tt, refl) in
      let n = length b0.brokers in
      let none_yet = subst (λ ts. All (IsChoosable n b0.topic_broker_vec) ts) (sym has.1) tt in
      let b = add_topics shuffle topics b0 in
      let between = add_topics-IsBetween shuffle perm n topics b0 (has.0, (refl, none_yet)) in
      build-Lists (order_of b.brokers) b name j t (reorders b.brokers)
        (subst (λ k. All (IsChoosable k b.topic_broker_vec) b.topics) (sym between.1.0) between.1.1)
        e
