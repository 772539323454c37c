-- ===== src/MsgDispatch/Factory/Ready.antt =====
-- When TryConsumeFrontMsg and AddFirstMsg get a partition: each AnyPartition message of the queue has
-- partitions of its topic on the broker to choose from, and no batch is empty.
use dory.Common.{
  get_elem?, get_elem?-some, ℕ, ◌%◌, ◌<◌, ◌≡◌, ◌⊎◌, inl, inr, refl, List, [], ◌∷◌, Option, none,
  some, arith, length, All,
}
use dory.Common.Int.{ℤ}
use dory.Common.Bytes.{Bytes}
use dory.Msg.{Msg, RoutingType, any_partition, partition_key}
use dory.MsgDispatch.Factory.{
  Building, Tried, took, full, ProduceRequestFactory, TopicData, get_topic_data,
  try_consume_front_msg, TopicDataMap, AnyPartitionChooser, assign_partition, tried, try_partition,
  get_choice, choose, chosen,
}
use dory.MsgDispatch.Factory.Loop.{Rule, TriedEnds, IsKept}

abbrev pub IsIn : ℤ → List ℤ → Type 0
IsIn p xs = (i : ℕ) × (get_elem? xs i ≡ some p)

-- A partition that GetChoice returns: the choice that is there, or else one of the choices.
abbrev pub IsChosen : List ℤ → AnyPartitionChooser → AnyPartitionChooser → ℤ → Type 0
IsChosen choices old new p =
    (new.choice ≡ some p) × ((old.choice ≡ some p) ⊎ ((old.choice ≡ none) × IsIn p choices))

get_choice-some :
    (choices : List ℤ) (chooser : AnyPartitionChooser)
    → 0 < length choices
    → (r : ℤ × AnyPartitionChooser) × (get_choice choices chooser ≡ some r)
      × IsChosen choices chooser r.1 r.0
unfolding get_choice choose
get_choice-some choices chooser h = from chooser.choice refl
  where
    from :
        (o : Option ℤ)
        → chooser.choice ≡ o
        → (r : ℤ × AnyPartitionChooser) × (elim o [
          | some p ↦ some (p, chooser)
          | none ↦ chosen chooser (choose choices chooser)
        ]
            ≡ some r)
          × IsChosen choices chooser r.1 r.0
    from (some p) e = ((p, chooser), refl, (e, inl e))
    from none e =
        let i = chooser.count % length choices in
        let (p, g) = get_elem?-some choices i (grind arith) in
        ((p, record chooser { choice = some p }), rw g refl, (refl, inr (e, (i, g))))

module _ (choices : Bytes → List ℤ) (partition_of : Msg → ℤ) (f : ProduceRequestFactory) where
  abbrev pub HasChoice : RoutingType → Bytes → Type 0
  HasChoice any_partition topic = 0 < length (choices topic)
  HasChoice partition_key topic = Unit {0}

  -- The partition that a message gets, and what becomes of its topic's chooser.
  abbrev pub IsAssigned : RoutingType → Msg → AnyPartitionChooser → AnyPartitionChooser → ℤ → Type 0
  IsAssigned any_partition m old new p = IsChosen (choices m.topic) old new p
  IsAssigned partition_key m old new p = (p ≡ partition_of m) × (new ≡ old)

  -- The same for the topic's data among the others.
  abbrev pub IsAssignedIn : TopicDataMap → Msg → TopicData → ℤ → Type 0
  IsAssignedIn topics m d p =
      IsAssigned m.routing_type m (get_topic_data f m.topic topics).chooser d.chooser p

  pub assign_partition-some :
      (r : RoutingType) (m : Msg) (chooser : AnyPartitionChooser)
      → HasChoice r m.topic
      → (a : ℤ × AnyPartitionChooser) × (assign_partition choices partition_of f r m chooser
          ≡ some a)
        × IsAssigned r m chooser a.1 a.0
  unfolding assign_partition
  assign_partition-some any_partition m chooser h = get_choice-some (choices m.topic) chooser h
  assign_partition-some partition_key m chooser h = ((partition_of m, chooser), refl, (refl, refl))

  -- A property of each message, for the batch and for those behind it, which are not empty.
  abbrev pub AllMsgs : (Msg → Type 0) → List Msg → List (List Msg) → Type 0
  AllMsgs R batch rest = All R batch × All (λ (q : List Msg). (0 < length q) × All R q) rest

  module _ (R : Msg → Type 0) (can : (m : Msg) → R m → HasChoice m.routing_type m.topic) (P : Rule)
      (try : (m : Msg) (batch : List Msg) (rest : List (List Msg)) (b : Building) (d : TopicData)
          (p : ℤ)
        → R m
        → IsAssignedIn b.topic_data_map m d p
        → P (m ∷ batch) rest b
        → TriedEnds P m batch rest (try_partition choices partition_of f m b d p)) where
    abbrev pub Queued : Rule
    Queued batch rest b = AllMsgs R batch rest × P batch rest b

    with_msgs :
        (m : Msg) (batch : List Msg) (rest : List (List Msg)) (t : Tried)
        → AllMsgs R (m ∷ batch) rest
        → TriedEnds P m batch rest t
        → TriedEnds Queued m batch rest t
    with_msgs m batch rest (took b) a q = ((a.0.1, a.1), q)
    with_msgs m batch rest (full b) a q = ((tt, ((omega arith, a.0), a.1)), q)
    with_msgs m batch rest Tried.undefined a q = q

    pub queued-IsKept :
        ((m : Msg) (batch : List Msg) (rest : List (List Msg)) (b : Building)
          → P (m ∷ batch) rest b
          → P batch ((m ∷ []) ∷ rest) b)
        → ((batch : List Msg) (rest : List (List Msg)) (b : Building)
            → P [] (batch ∷ rest) b
            → P batch rest b)
        → IsKept choices partition_of f Queued
    unfolding try_consume_front_msg
    queued-IsKept aside start = record {
      step = λ m batch rest b (a, q).
          let d = get_topic_data f m.topic b.topic_data_map in
          let (r, e, is) = assign_partition-some m.routing_type m d.chooser (can m a.0.0) in
          let d' = record d { chooser = r.1 } in
          with_msgs m batch rest (try_consume_front_msg choices partition_of f m b) a
            (rw (e, tried) (try m batch rest b d' r.0 a.0.0 is q));
      set_aside = λ m batch rest b (a, q).
          ((a.0.1, ((omega arith, (a.0.0, tt)), a.1)), aside m batch rest b q);
      starts = λ batch rest b (a, q). (((a.1.0.1, a.1.1), start batch rest b q), a.1.0.0);
    }
