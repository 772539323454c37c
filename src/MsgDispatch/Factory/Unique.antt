-- ===== src/MsgDispatch/Factory/Unique.antt =====
-- The requests of src/dory/msg_dispatch/produce_request_factory.cc: one message set for each topic and
-- partition, after SanityCheckRequestContents.
use dory.Common.{
  ◌≡◌, ◌<◌, refl, ap, subst, Bool-cases, List, [], ◌∷◌, Option, none, some, inl, inr, arith, All,
  length,
}
use dory.Common.Int.{ℤ, eq_ℤ}
use dory.Common.Bytes.{Bytes, bytes_eq}
use dory.Common.Assoc.{lookup, IsMap, AllItems}
use dory.Msg.{Msg}
use dory.MsgDispatch.Request.{AllTopics, MultiPartitionGroup}
use dory.MsgDispatch.Factory.{
  MsgSet, MsgSets, ProduceRequestFactory, Filled, fills, TopicDataMap, get_topic_data, clear_choice,
  sanity_check_group, sanity_check, keep_set, keep_group, forget_group, forget_sizes, made,
  finish_contents, Built, no_request, built, built_of, build_request, clear_choices,
}
use dory.MsgDispatch.Factory.Measure.{List-cases}
use dory.MsgDispatch.Factory.Ready.{AllMsgs, IsIn}
use dory.MsgDispatch.Factory.First.{filled, build_request-cases}
use dory.MsgDispatch.Factory.Conserve.{CanSend}
use dory.MsgDispatch.Factory.Grouped.{
  topic_choice, Belongs, IsGroup, AreChoices, put_choice, FilledPlaced, filled-Placed,
}

abbrev checked_group : MsgSets → MultiPartitionGroup
checked_group group = forget_group (sanity_check_group group)

lookup-checked_group :
    (k : ℤ) (group : MsgSets)
    → lookup eq_ℤ k group ≡ none
    → lookup eq_ℤ k (checked_group group) ≡ none
unfolding sanity_check_group forget_group lookup
lookup-checked_group k [] h = refl
lookup-checked_group k ((p, s) ∷ rest) h = elim (Bool-cases (eq_ℤ p k)) [
  | inl t ↦ absurd (cc (rw t at h))
  | inr t ↦ elim (List-cases s.contents) [
    | inl e ↦ rw (e, keep_set) (lookup-checked_group k rest (rw t at h))
    | inr (m, ms, e) ↦ rw (e, keep_set, t) (lookup-checked_group k rest (rw t at h))
  ]
]

checked_group-IsMap : (group : MsgSets) → IsMap eq_ℤ group → IsMap eq_ℤ (checked_group group)
unfolding sanity_check_group forget_group
checked_group-IsMap [] h = tt
checked_group-IsMap ((p, s) ∷ rest) h = elim (List-cases s.contents) [
  | inl e ↦ rw (e, keep_set) (checked_group-IsMap rest h.1)
  | inr (m, ms, e) ↦
      rw (e, keep_set) (lookup-checked_group p rest h.0, checked_group-IsMap rest h.1)
]

module _ (P : ℤ → List Msg → Type 0) where
  abbrev pub Nonempty : ℤ → List Msg → Type 0
  Nonempty p ms = (0 < length ms) × P p ms

  checked_group-Nonempty :
      (group : MsgSets)
      → AllItems (λ p (s : MsgSet). P p s.contents) group
      → AllItems Nonempty (checked_group group)
  unfolding sanity_check_group forget_group
  checked_group-Nonempty [] h = tt
  checked_group-Nonempty ((p, s) ∷ rest) h = elim (List-cases s.contents) [
    | inl e ↦ rw (e, keep_set) (checked_group-Nonempty rest h.1)
    | inr (m, ms, e) ↦
        rw (e, keep_set) ((omega (arith, ap length e), h.0), checked_group-Nonempty rest h.1)
  ]

abbrev checked : List (Bytes × MsgSets) → AllTopics
checked result = forget_sizes (sanity_check result)

lookup-checked :
    (k : Bytes) (result : List (Bytes × MsgSets))
    → lookup bytes_eq k result ≡ none
    → lookup bytes_eq k (checked result) ≡ none
unfolding sanity_check forget_sizes lookup
lookup-checked k [] h = refl
lookup-checked k ((t, group) ∷ rest) h = elim (Bool-cases (bytes_eq t k)) [
  | inl e ↦ absurd (cc (rw e at h))
  | inr e ↦ elim (List-cases (sanity_check_group group)) [
    | inl g ↦ rw (g, keep_group) (lookup-checked k rest (rw e at h))
    | inr (s, sets, g) ↦ rw (g, keep_group, e) (lookup-checked k rest (rw e at h))
  ]
]

checked-IsMap :
    (result : List (Bytes × MsgSets)) → IsMap bytes_eq result → IsMap bytes_eq (checked result)
unfolding sanity_check forget_sizes
checked-IsMap [] h = tt
checked-IsMap ((t, group) ∷ rest) h = elim (List-cases (sanity_check_group group)) [
  | inl g ↦ rw (g, keep_group) (checked-IsMap rest h.1)
  | inr (s, sets, g) ↦ rw (g, keep_group) (lookup-checked t rest h.0, checked-IsMap rest h.1)
]

module _ (choices : Bytes → List ℤ) (partition_of : Msg → ℤ) (f : ProduceRequestFactory) where
  abbrev pub IsChoiceOf : Bytes → Option ℤ → Type 0
  IsChoiceOf t none = Unit {0}
  IsChoiceOf t (some p) = IsIn p (choices t)

  -- A topic's message sets: some, one for each partition, none of them empty, and the topic's messages
  -- each in its partition, which for all AnyPartition messages is one choice.
  abbrev pub IsTopicOf : Bytes → MultiPartitionGroup → Type 0
  IsTopicOf t group =
      (0 < length group)
      × IsMap eq_ℤ group
      × ((choice : Option ℤ) × IsChoiceOf t choice
          × AllItems (Nonempty (λ p ms. All (Belongs choices partition_of f choice t p) ms)) group)

  abbrev pub IsRequest : AllTopics → Type 0
  IsRequest all_topics = IsMap bytes_eq all_topics × AllItems IsTopicOf all_topics

  IsChoiceOf_lem :
      (t : Bytes) (o : Option ℤ) → ((p : ℤ) → o ≡ some p → IsIn p (choices t)) → IsChoiceOf t o
  IsChoiceOf_lem t none h = tt
  IsChoiceOf_lem t (some p) h = h p refl

  checked-IsTopicOf :
      (topics : TopicDataMap) (result : List (Bytes × MsgSets))
      → AreChoices choices partition_of f topics
      → AllItems
          (λ t group.
            IsGroup choices partition_of f (topic_choice choices partition_of f topics t) t group)
          result
      → AllItems IsTopicOf (checked result)
  unfolding sanity_check forget_sizes
  checked-IsTopicOf topics [] valid h = tt
  checked-IsTopicOf topics ((t, group) ∷ rest) valid h =
      let c = topic_choice choices partition_of f topics t in
      let P : ℤ → List Msg → Type 0 = λ p ms. All (Belongs choices partition_of f c t p) ms in
      elim (List-cases (sanity_check_group group)) [
        | inl g ↦ rw (g, keep_group) (checked-IsTopicOf topics rest valid h.1)
        | inr (s, sets, g) ↦
            let is_map =
              subst (λ x. IsMap eq_ℤ (forget_group x)) g (checked_group-IsMap group h.0.0) in
            let all =
              subst (λ x. AllItems (Nonempty P) (forget_group x)) g
                (checked_group-Nonempty P group h.0.1) in
            let some_set : 0 < length (forget_group (s ∷ sets)) =
              unfold forget_group in omega arith in
            rw (g, keep_group)
              (
                (some_set, is_map, (c, IsChoiceOf_lem t c (valid t), all)),
                checked-IsTopicOf topics rest valid h.1,
              )
      ]

  clear_choices-AreChoices :
      (result : List (Bytes × MsgSets)) (topics : TopicDataMap)
      → AreChoices choices partition_of f topics
      → AreChoices choices partition_of f (clear_choices f result topics)
  unfolding clear_choices
  clear_choices-AreChoices [] topics h = h
  clear_choices-AreChoices ((t, group) ∷ rest) topics h =
      let d = get_topic_data f t topics in
      let d' = record d { chooser = clear_choice d.chooser } in
      clear_choices-AreChoices rest _ (
        put_choice choices partition_of f (λ u o. (q : ℤ) → o ≡ some q → IsIn q (choices u)) topics
          t d' h (λ q e. absurd (cc e)))

  -- A request with each topic and partition once, and a factory whose choices are still partitions of
  -- their topics.
  abbrev pub SendsGrouped : Built → Type 0
  SendsGrouped (no_request f') = Unit {0}
  SendsGrouped (built request f') =
      IsRequest request.all_topics × AreChoices choices partition_of f f'.topic_data_map
  SendsGrouped Built.undefined = ⊥

  built_of-SendsGrouped :
      (r : Filled)
      → FilledPlaced choices partition_of f r
      → SendsGrouped (built_of choices partition_of f (finish_contents choices partition_of f r))
  unfolding finish_contents built_of
  built_of-SendsGrouped (fills is_full queue b) (grouped, valid) = sent (sanity_check b.result) (
    checked-IsMap b.result grouped.0,
    checked-IsTopicOf b.topic_data_map b.result valid grouped.1,
  )
    where
      sent :
          (result : List (Bytes × MsgSets))
          → IsRequest (forget_sizes result)
          → SendsGrouped (
              built_of choices partition_of f
                (made result queue (clear_choices f b.result b.topic_data_map)))
      sent [] h = tt
      sent (t ∷ result) h = (h, clear_choices-AreChoices b.result b.topic_data_map valid)
  built_of-SendsGrouped Filled.undefined h = h

  -- If no batch in the factory's queue is empty, each topic that an AnyPartition message in it has
  -- is one with partitions on the broker, and what the choosers have chosen are such partitions,
  -- then in a produce request that BuildRequest makes each topic stands once, with at least one
  -- partition, and each partition once in its topic, with at least one message; every message
  -- stands under its own topic, a PartitionKey message under its partition, and the AnyPartition
  -- messages of a topic all under one of the partitions that the topic has on the broker; and what
  -- the choosers have chosen are such partitions again.
  pub build_request-SendsGrouped :
      AllMsgs choices partition_of f (CanSend choices partition_of f) [] f.input_queue
      → AreChoices choices partition_of f f.topic_data_map
      → SendsGrouped (build_request choices partition_of f)
  build_request-SendsGrouped a valid =
      build_request-cases choices partition_of f (CanSend choices partition_of f) SendsGrouped
        (λ e. tt)
        (λ m batch rest e.
          built_of-SendsGrouped (filled choices partition_of f)
            (filled-Placed choices partition_of f m batch rest e a valid))
        a
