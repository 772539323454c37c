-- ===== src/MsgDispatch/Factory/Grouped.antt =====
-- Where the messages of a request of src/dory/msg_dispatch/produce_request_factory.cc stand.
use dory.Common.{
  ℕ, ◌≡◌, refl, sym, ap, ◌∙◌, subst, Bool-cases, true, false, ◌&&◌, List, [], ◌∷◌, Option,
  Option-cases, some, inl, inr, ltb, arith, All, All-append,
}
use dory.Common.Int.{ℤ, eq_ℤ, ltb_ℤ, eq_ℤ-eq}
use dory.Common.Bytes.{Bytes, bytes_eq, bytes_eq_refl, bytes_eq_sound}
use dory.Common.Word.{add_u64}
use dory.Common.Assoc.{
  lookup, put, IsMap, AllItems, AllItems-put, AllItems-lookup, AllItems-map, put-IsMap,
  lookup-put_self, lookup-put_apart,
}
use dory.Msg.{Msg, body_size, RoutingType, any_partition, partition_key}
use dory.MsgDispatch.Factory.{
  MsgSet, MsgSets, group_at, set_in, put_set, or_default, bytes_lt, Building, TopicData,
  ProduceRequestFactory, push_msg, try_partition, Filled, fills, TopicDataMap, get_topic_data,
  put_topic_data, new_topic_data, AnyPartitionChooser, use_choice,
}
use dory.MsgDispatch.Factory.Loop.{Rule, TriedEnds, Final}
use dory.MsgDispatch.Factory.Ready.{AllMsgs, queued-IsKept, IsAssigned, IsAssignedIn, IsIn}
use dory.MsgDispatch.Factory.First.{no_topics, contents-Final, filled}
use dory.MsgDispatch.Factory.Conserve.{CanSend}

bytes_eq_apart : (a b c : Bytes) → bytes_eq a b ≡ true → bytes_eq b c ≡ false → bytes_eq a c ≡ false
bytes_eq_apart a b c e h = rw (bytes_eq_sound a b e) h

bytes_eq-false : (a b : Bytes) → bytes_eq a b ≡ false → bytes_eq b a ≡ false
bytes_eq-false a b h = elim (Bool-cases (bytes_eq b a)) [
  | inl e ↦ absurd (cc (h, ap (bytes_eq a) (bytes_eq_sound b a e), bytes_eq_refl a))
  | inr e ↦ e
]

eq_ℤ-false : (a b : ℤ) → eq_ℤ a b ≡ false → eq_ℤ b a ≡ false
eq_ℤ-false a b h = ground arith

module _ (choices : Bytes → List ℤ) (partition_of : Msg → ℤ) (f : ProduceRequestFactory) where
  -- The choice that stands for a topic's AnyPartition messages.
  abbrev pub topic_choice : TopicDataMap → Bytes → Option ℤ
  topic_choice topics t = (get_topic_data f t topics).chooser.choice

  abbrev pub StandsAt : Option ℤ → ℤ → RoutingType → Msg → Type 0
  StandsAt choice p any_partition m = choice ≡ some p
  StandsAt choice p partition_key m = p ≡ partition_of m

  -- A message stands with its topic, in its partition.
  abbrev pub Belongs : Option ℤ → Bytes → ℤ → Msg → Type 0
  Belongs choice t p m = (m.topic ≡ t) × StandsAt choice p m.routing_type m

  abbrev pub AllBelong : Option ℤ → Bytes → ℤ → MsgSet → Type 0
  AllBelong choice t p s = All (Belongs choice t p) s.contents

  abbrev pub IsGroup : Option ℤ → Bytes → MsgSets → Type 0
  IsGroup choice t group = IsMap eq_ℤ group × AllItems (AllBelong choice t) group

  abbrev pub IsGrouped : TopicDataMap → List (Bytes × MsgSets) → Type 0
  IsGrouped topics result =
      IsMap bytes_eq result × AllItems (λ t group. IsGroup (topic_choice topics t) t group) result

  -- Choices that are there stay.
  abbrev Stays : Option ℤ → Option ℤ → Type 0
  Stays old new = (p : ℤ) → old ≡ some p → new ≡ some p

  StandsAt-Stays :
      (old new : Option ℤ)
      → Stays old new
      → (p : ℤ) (r : RoutingType) (m : Msg) → StandsAt old p r m
      → StandsAt new p r m
  StandsAt-Stays old new stays p any_partition m h = stays p h
  StandsAt-Stays old new stays p partition_key m h = h

  AllBelong-Stays :
      (old new : Option ℤ)
      → Stays old new
      → (t : Bytes) (p : ℤ) (ms : List Msg) → All (Belongs old t p) ms
      → All (Belongs new t p) ms
  AllBelong-Stays old new stays t p [] h = tt
  AllBelong-Stays old new stays t p (m ∷ ms) h = (
    (h.0.0, StandsAt-Stays old new stays p m.routing_type m h.0.1),
    AllBelong-Stays old new stays t p ms h.1,
  )

  IsGrouped-Stays :
      (old new : TopicDataMap) (result : List (Bytes × MsgSets))
      → ((t : Bytes) → Stays (topic_choice old t) (topic_choice new t))
      → IsGrouped old result
      → IsGrouped new result
  IsGrouped-Stays old new result stays h = (
    h.0,
    AllItems-map (λ t group. IsGroup (topic_choice old t) t group)
        (λ t group. IsGroup (topic_choice new t) t group)
        (λ t group g. (
          g.0,
          AllItems-map (AllBelong (topic_choice old t) t) (AllBelong (topic_choice new t) t)
              (λ p s.
                AllBelong-Stays (topic_choice old t) (topic_choice new t) (stays t) t p s.contents)
              group g.1,
        ))
        result h.1,
  )

  group_at-IsGroup :
      (topics : TopicDataMap) (t : Bytes) (result : List (Bytes × MsgSets))
      → IsGrouped topics result
      → IsGroup (topic_choice topics t) t (group_at t result)
  group_at-IsGroup topics t result h = elim (Option-cases (lookup bytes_eq t result)) [
    | inl e ↦ rw e (tt, tt)
    | inr (group, e) ↦ rw e (
        AllItems-lookup (λ t' group'. IsGroup (topic_choice topics t') t' group') bytes_eq
          bytes_eq_sound t result h.1 e)
  ]

  set_in-AllBelong :
      (choice : Option ℤ) (t : Bytes) (p : ℤ) (group : MsgSets)
      → IsGroup choice t group
      → AllBelong choice t p (set_in p group)
  set_in-AllBelong choice t p group h = elim (Option-cases (lookup eq_ℤ p group)) [
    | inl e ↦ rw e tt
    | inr (s, e) ↦ rw e (AllItems-lookup (AllBelong choice t) eq_ℤ eq_ℤ-eq p group h.1 e)
  ]

  put_set-IsGrouped :
      (topics : TopicDataMap) (t : Bytes) (p : ℤ) (s : MsgSet) (result : List (Bytes × MsgSets))
      → IsGrouped topics result
      → AllBelong (topic_choice topics t) t p s
      → IsGrouped topics (put_set t p s result)
  put_set-IsGrouped topics t p s result h k =
      let group = group_at t result in
      let g = group_at-IsGroup topics t result h in
      let c = topic_choice topics t in
      (
        put-IsMap bytes_eq bytes_eq-false bytes_lt t (put ltb_ℤ eq_ℤ p s group) result h.0,
        AllItems-put (λ t' group'. IsGroup (topic_choice topics t') t' group') bytes_lt bytes_eq
            bytes_eq_sound t (put ltb_ℤ eq_ℤ p s group) result h.1
            (
              put-IsMap eq_ℤ eq_ℤ-false ltb_ℤ p s group g.0,
              AllItems-put (AllBelong c t) ltb_ℤ eq_ℤ eq_ℤ-eq p s group g.1 k,
            ),
      )

  -- Each choice is one of the topic's partitions.
  abbrev pub AreChoices : TopicDataMap → Type 0
  AreChoices topics = (t : Bytes) (p : ℤ) → topic_choice topics t ≡ some p → IsIn p (choices t)

  -- What a topic's chooser is left with, for a message that got a partition.
  record IsNext (topics : TopicDataMap) (m : Msg) (p : ℤ) (new : Option ℤ) : Type 0 where
    stays : Stays (topic_choice topics m.topic) new
    is_in : (q : ℤ) → new ≡ some q → IsIn q (choices m.topic)
    stands : StandsAt new p m.routing_type m

  assigned-IsNext :
      (topics : TopicDataMap) (m : Msg) (d : TopicData) (p : ℤ)
      → AreChoices topics
      → IsAssignedIn choices partition_of f topics m d p
      → IsNext topics m p d.chooser.choice
  assigned-IsNext topics m d p valid is =
      let (stays, is_in, stands) = by_type m.routing_type is in
      record { stays = stays; is_in = is_in; stands = stands }
    where
      by_type :
          (r : RoutingType)
          → IsAssigned choices partition_of f r m
              (get_topic_data f m.topic topics).chooser
              d.chooser
              p
          → Stays (topic_choice topics m.topic) d.chooser.choice
            × ((q : ℤ) → d.chooser.choice ≡ some q → IsIn q (choices m.topic))
            × StandsAt d.chooser.choice p r m
      by_type any_partition (e, inl old) =
          (λ q h. e ∙ sym old ∙ h, λ q h. valid m.topic q (old ∙ sym e ∙ h), e)
      by_type any_partition (e, inr (old, inside)) = (
        λ q h. absurd (cc (old, h)),
        λ q h. let same : p ≡ q = cc (e, h) in subst (λ x. IsIn x (choices m.topic)) same inside,
        e,
      )
      by_type partition_key (e, same) = (
        λ q h. ap (λ (c : AnyPartitionChooser). c.choice) same ∙ h,
        λ q h. valid m.topic q (ap (λ (c : AnyPartitionChooser). c.choice) (sym same) ∙ h),
        e,
      )

  abbrev choice_or : Option TopicData → Option ℤ
  choice_or o = (or_default (new_topic_data f) o).chooser.choice

  topic_choice-put_self :
      (topics : TopicDataMap) (t : Bytes) (d : TopicData)
      → topic_choice (put_topic_data t d topics) t ≡ d.chooser.choice
  unfolding get_topic_data
  topic_choice-put_self topics t d =
      ap choice_or (lookup-put_self (λ a b. false) bytes_eq bytes_eq_refl t d topics)

  topic_choice-put_apart :
      (topics : TopicDataMap) (t u : Bytes) (d : TopicData)
      → bytes_eq t u ≡ false
      → topic_choice (put_topic_data t d topics) u ≡ topic_choice topics u
  unfolding get_topic_data
  topic_choice-put_apart topics t u d e =
      ap choice_or (lookup-put_apart (λ a b. false) bytes_eq bytes_eq_apart u t d topics e)

  -- A property of each topic's choice, after a choice is put back.
  pub put_choice :
      (P : Bytes → Option ℤ → Type 0) (topics : TopicDataMap) (t : Bytes) (d : TopicData)
      → ((u : Bytes) → P u (topic_choice topics u))
      → P t d.chooser.choice
      → (u : Bytes) → P u (topic_choice (put_topic_data t d topics) u)
  put_choice P topics t d all one u = elim (Bool-cases (bytes_eq t u)) [
    | inl e ↦
        subst (λ v. P v (topic_choice (put_topic_data t d topics) v)) (bytes_eq_sound t u e)
          (subst (P t) (sym (topic_choice-put_self topics t d)) one)
    | inr e ↦ subst (P u) (sym (topic_choice-put_apart topics t u d e)) (all u)
  ]

  -- What holds of the request so far, and of the choosers.
  abbrev ArePlaced : Building → Type 0
  ArePlaced b = IsGrouped b.topic_data_map b.result × AreChoices b.topic_data_map

  put-Placed :
      (m : Msg) (p : ℤ) (d : TopicData) (b : Building)
      → IsNext b.topic_data_map m p d.chooser.choice
      → ArePlaced b
      → IsGrouped (put_topic_data m.topic d b.topic_data_map) b.result
        × AreChoices (put_topic_data m.topic d b.topic_data_map)
  put-Placed m p d b next (grouped, valid) =
      let topics = b.topic_data_map in
      (
        IsGrouped-Stays topics (put_topic_data m.topic d topics) b.result
            (put_choice (λ t new. Stays (topic_choice topics t) new) topics m.topic d (λ t q h. h)
              next.stays)
            grouped,
        put_choice (λ t new. (q : ℤ) → new ≡ some q → IsIn q (choices t)) topics m.topic d valid
            next.is_in,
      )

  push_msg-Placed :
      (m : Msg) (p : ℤ) (d : TopicData) (n k : ℕ) (b : Building)
      → IsNext b.topic_data_map m p d.chooser.choice
      → ArePlaced b
      → ArePlaced (push_msg choices partition_of f m p d n k b)
  unfolding push_msg
  push_msg-Placed m p d n k b next h =
      let d' = record d { chooser = use_choice choices partition_of f m.routing_type d.chooser } in
      let same : d'.chooser.choice ≡ d.chooser.choice =
        use_choice-choice m.routing_type d.chooser in
      let next' = subst (IsNext b.topic_data_map m p) (sym same) next in
      let topics = put_topic_data m.topic d' b.topic_data_map in
      let (grouped, valid) = put-Placed m p d' b next' h in
      let c = topic_choice topics m.topic in
      let stands =
        subst (λ o. StandsAt o p m.routing_type m)
          (sym (topic_choice-put_self b.topic_data_map m.topic d')) next'.stands in
      let group = group_at m.topic b.result in
      (
        put_set-IsGrouped topics m.topic p _ b.result grouped (
            All-append (Belongs c m.topic p) (set_in p group).contents (m ∷ [])
              (set_in-AllBelong c m.topic p group
                (group_at-IsGroup topics m.topic b.result grouped))
              ((refl, stands), tt)),
        valid,
      )
    where
      use_choice-choice :
          (r : RoutingType) (chooser : AnyPartitionChooser)
          → (use_choice choices partition_of f r chooser).choice ≡ chooser.choice
      use_choice-choice any_partition chooser = refl
      use_choice-choice partition_key chooser = refl

  try_partition-Placed :
      (m : Msg) (batch : List Msg) (rest : List (List Msg)) (b : Building) (d : TopicData) (p : ℤ)
      → CanSend choices partition_of f m
      → IsAssignedIn choices partition_of f b.topic_data_map m d p
      → ArePlaced b
      → TriedEnds
          (λ batch' rest' b'. ArePlaced b')
          m
          batch
          rest
          (try_partition choices partition_of f m b d p)
  unfolding try_partition
  try_partition-Placed m batch rest b d p c is h =
      let s = set_in p (group_at m.topic b.result) in
      let new_size = add_u64 b.data_size (body_size m) in
      let k = add_u64 (add_u64 s.data_size (body_size m)) f.single_msg_overhead in
      let next = assigned-IsNext b.topic_data_map m d p h.1 is in
      let (grouped, valid) = put-Placed m p d b next h in
      let topics = put_topic_data m.topic d b.topic_data_map in
      let group = group_at m.topic b.result in
      elim (Bool-cases (ltb f.produce_request_data_limit new_size)) [
        | inl e ↦ rw e (grouped, valid)
        | inr e ↦ elim (Bool-cases (d.has_codec && ltb f.message_max_bytes k)) [
          | inl t ↦
              rw (e, t)
                (
                  put_set-IsGrouped topics m.topic p s b.result grouped (
                      set_in-AllBelong (topic_choice topics m.topic) m.topic p group
                        (group_at-IsGroup topics m.topic b.result grouped)),
                  valid,
                )
          | inr t ↦ rw (e, t) (push_msg-Placed m p d new_size k b next h)
        ]
      ]

  -- What the loops leave.
  abbrev pub FilledPlaced : Filled → Type 0
  FilledPlaced (fills is_full queue b) = ArePlaced b
  FilledPlaced Filled.undefined = ⊥

  pub filled-Placed :
      (m : Msg) (batch : List Msg) (rest : List (List Msg))
      → f.input_queue ≡ (m ∷ batch) ∷ rest
      → AllMsgs choices partition_of f (CanSend choices partition_of f) [] f.input_queue
      → AreChoices f.topic_data_map
      → FilledPlaced (filled choices partition_of f)
  filled-Placed m batch rest e a valid =
      let R = CanSend choices partition_of f in
      let P : Rule = λ batch' rest' b. ArePlaced b in
      let kept =
        queued-IsKept choices partition_of f R (λ m' c. c) P try_partition-Placed
          (λ m' batch' rest' b h. h) (λ batch' rest' b h. h) in
      placed (filled choices partition_of f) (
        contents-Final choices partition_of f R (λ m' c. c) P m batch rest e a
          (λ m' batch' rest' d p k e' c is.
            push_msg-Placed m' p d (body_size m') k (no_topics choices partition_of f)
              (assigned-IsNext f.topic_data_map m' d p valid is) ((tt, tt), valid))
          kept)
    where
      placed :
          (r : Filled)
          → Final
              (λ batch' rest' b'.
                AllMsgs choices partition_of f (CanSend choices partition_of f) batch' rest'
                × ArePlaced b')
              r
          → FilledPlaced r
      placed (fills is_full queue b) q = q.1
      placed Filled.undefined q = q
