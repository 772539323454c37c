-- ===== src/MsgDispatch/Factory.antt =====
-- src/dory/msg_dispatch/produce_request_factory.* and any_partition_chooser.*: batches of messages
-- combined into a produce request. What the message set writer makes of the request, its
-- compression included, is left out.
use dory.Common.{
  get_elem?, get_elem?-some, ℕ, zero, suc, ◌+◌, ◌%◌, Bool, true, false, ◌&&◌, List, [], ◌∷◌, ◌++◌,
  Option, none, some, ltb, ◌==◌, if◌then◌else◌, length, count_all,
}
use dory.Common.Int.{ℤ, pos, ◌+ℤ◌, eq_ℤ, ltb_ℤ}
use dory.Common.Word.{add_u64}
use dory.Common.Bytes.{Bytes, bytes_eq}
use dory.Common.Assoc.{lookup, put}
use dory.Msg.{Msg, any_partition, partition_key, RoutingType, body_size, same_topic}
use dory.MsgDispatch.Request.{AllTopics, ProduceRequest, MultiPartitionGroup}
pub mod Loop
pub mod Measure
pub mod First
pub mod Conserve
pub mod Limit
pub mod Grouped
pub mod Unique
pub mod Ready

pub record AnyPartitionChooser : Type 0 where
  pub count : ℕ
  pub choice : Option ℤ
  pub choice_used : Bool

abbrev pub new_chooser : AnyPartitionChooser
new_chooser = record { count = 0; choice = none; choice_used = false }

-- The partitions of the topic on the broker are those that FindPartitionChoices yields. With none of
-- them the code divides by 0: there is no result.
unfoldable pub choose : List ℤ → AnyPartitionChooser → Option ℤ
choose choices chooser = get_elem? choices (chooser.count % length choices)

unfoldable pub chosen : AnyPartitionChooser → Option ℤ → Option (ℤ × AnyPartitionChooser)
chosen chooser none = none
chosen chooser (some p) = some (p, record chooser { choice = some p })

unfoldable pub get_choice : List ℤ → AnyPartitionChooser → Option (ℤ × AnyPartitionChooser)
unfolding choose chosen
get_choice choices chooser = elim (chooser.choice) [
  | some p ↦ some (p, chooser)
  | none ↦ chosen chooser (choose choices chooser)
]

abbrev pub set_choice_used : AnyPartitionChooser → AnyPartitionChooser
set_choice_used chooser = record chooser { choice_used = true }

abbrev pub clear_choice : AnyPartitionChooser → AnyPartitionChooser
clear_choice chooser = record {
  count = if chooser.choice_used then add_u64 chooser.count 1 else chooser.count;
  choice = none;
  choice_used = false;
}

-- Whether the topic's messages are compressed is all that matters of its compression here.
pub record TopicData : Type 0 where
  pub has_codec : Bool
  pub chooser : AnyPartitionChooser

abbrev pub TopicDataMap : Type 0
TopicDataMap = List (Bytes × TopicData)

pub record ProduceRequestFactory : Type 0 where
  pub produce_request_data_limit : ℕ
  pub message_max_bytes : ℕ
  pub single_msg_overhead : ℕ
  pub default_has_codec : Bool
  pub corr_id_counter : ℤ
  pub input_queue : List (List Msg)
  pub topic_data_map : TopicDataMap

pub record MsgSet : Type 0 where
  pub data_size : ℕ
  pub contents : List Msg

abbrev pub empty_set : MsgSet
empty_set = record { data_size = 0; contents = [] }

abbrev pub MsgSets : Type 0
MsgSets = List (ℤ × MsgSet)

-- `<` on std::string.
unfoldable pub bytes_lt : Bytes → Bytes → Bool
bytes_lt xs [] = false
bytes_lt [] (y ∷ ys) = true
bytes_lt (x ∷ xs) (y ∷ ys) = if ltb x y then true else x == y && bytes_lt xs ys

-- `result[topic]` and `result[topic][partition]`
abbrev pub or_default {ℓ} : {V : Type ℓ} → V → Option V → V
or_default v none = v
or_default v (some u) = u

abbrev pub group_at : Bytes → List (Bytes × MsgSets) → MsgSets
group_at topic result = or_default [] (lookup bytes_eq topic result)

abbrev pub set_in : ℤ → MsgSets → MsgSet
set_in partition group = or_default empty_set (lookup eq_ℤ partition group)

abbrev pub put_set : Bytes → ℤ → MsgSet → List (Bytes × MsgSets) → List (Bytes × MsgSets)
put_set topic partition s result =
    put bytes_lt bytes_eq topic (put ltb_ℤ eq_ℤ partition s (group_at topic result)) result

-- What BuildRequestContents holds while it runs.
pub record Building : Type 0 where
  pub topic_data_map : TopicDataMap
  pub result : List (Bytes × MsgSets)
  pub data_size : ℕ

pub data Tried : Type 0 where
  took full : Building → Tried
  undefined : Tried

-- What a batch leaves in the queue, with the request so far, and whether it is full.
pub data Filled : Type 0 where
  fills : Bool → List (List Msg) → Building → Filled
  undefined : Filled

-- The request's contents, and what stays in the factory.
pub data Contents : Type 0 where
  made : List (Bytes × MsgSets) → List (List Msg) → TopicDataMap → Contents
  undefined : Contents

abbrev pub keep_set : ℤ → MsgSet → List Msg → MsgSets → MsgSets
keep_set p s [] rest = rest
keep_set p s (m ∷ ms) rest = (p, s) ∷ rest

unfoldable pub sanity_check_group : MsgSets → MsgSets
sanity_check_group [] = []
sanity_check_group ((p, s) ∷ rest) = keep_set p s s.contents (sanity_check_group rest)

abbrev pub keep_group : Bytes → MsgSets → List (Bytes × MsgSets) → List (Bytes × MsgSets)
keep_group t [] rest = rest
keep_group t (s ∷ group) rest = (t, s ∷ group) ∷ rest

-- SanityCheckRequestContents, as it goes on where an assertion does not end the process.
unfoldable pub sanity_check : List (Bytes × MsgSets) → List (Bytes × MsgSets)
unfolding sanity_check_group
sanity_check [] = []
sanity_check ((t, group) ∷ rest) = keep_group t (sanity_check_group group) (sanity_check rest)

abbrev pub new_topic_data : ProduceRequestFactory → TopicData
new_topic_data f = record { has_codec = f.default_has_codec; chooser = new_chooser }

-- The map gets the data that GetTopicData makes when what was changed in it is put back.
unfoldable pub get_topic_data : ProduceRequestFactory → Bytes → TopicDataMap → TopicData
get_topic_data f topic topics = or_default (new_topic_data f) (lookup bytes_eq topic topics)

abbrev pub put_topic_data : Bytes → TopicData → TopicDataMap → TopicDataMap
put_topic_data topic d topics = put (λ a b. false) bytes_eq topic d topics

unfoldable pub clear_choices :
    ProduceRequestFactory → List (Bytes × MsgSets) → TopicDataMap → TopicDataMap
unfolding get_topic_data
clear_choices f [] topics = topics
clear_choices f ((t, group) ∷ rest) topics =
    let d = get_topic_data f t topics in
    clear_choices f rest (put_topic_data t (record d { chooser = clear_choice d.chooser }) topics)

abbrev pub pop_batch : List Msg → List (List Msg) → List (List Msg)
pop_batch [] rest = rest
pop_batch (m ∷ batch) rest = (m ∷ batch) ∷ rest

-- The request as a connector keeps it, in which the sizes are not read again.
unfoldable pub forget_group : MsgSets → MultiPartitionGroup
forget_group [] = []
forget_group ((p, s) ∷ rest) = (p, s.contents) ∷ forget_group rest

unfoldable pub forget_sizes : List (Bytes × MsgSets) → AllTopics
unfolding forget_group
forget_sizes [] = []
forget_sizes ((t, group) ∷ rest) = (t, forget_group group) ∷ forget_sizes rest

-- BuildRequest's result and the factory after it.
pub data Built : Type 0 where
  no_request : ProduceRequestFactory → Built
  built : ProduceRequest → ProduceRequestFactory → Built
  undefined : Built

abbrev pub put_batches : List (List Msg) → ProduceRequestFactory → ProduceRequestFactory
put_batches batches f = record f { input_queue = f.input_queue ++ batches }

abbrev pub put_front : List (List Msg) → ProduceRequestFactory → ProduceRequestFactory
put_front batches f = record f { input_queue = batches ++ f.input_queue }

abbrev pub get_all : ProduceRequestFactory → List (List Msg) × ProduceRequestFactory
get_all f = (f.input_queue, record f { input_queue = [] })

-- `break` and `pop_front` after TryConsumeFrontMsg, in a loop that goes on as given.
abbrev pub tried_batch : Msg → List Msg → List (List Msg) → (Building → Filled) → Tried → Filled
tried_batch m batch rest go (took b) = go b
tried_batch m batch rest go (full b) = fills true ((m ∷ batch) ∷ rest) b
tried_batch m batch rest go Tried.undefined = Filled.undefined

abbrev pub next_batch : (List (List Msg) → Building → Filled) → Filled → Filled
next_batch go (fills true queue b) = fills true queue b
next_batch go (fills false queue b) = go queue b
next_batch go Filled.undefined = Filled.undefined

-- FindPartitionChoices with the broker of the connector, and the partition that a PartitionKey
-- message has from the router.
module _ (choices : Bytes → List ℤ) (partition_of : Msg → ℤ) (f : ProduceRequestFactory) where
  -- SetPartition with GetChoice for an AnyPartition message, and then GetPartition.
  unfoldable pub assign_partition :
      RoutingType → Msg → AnyPartitionChooser → Option (ℤ × AnyPartitionChooser)
  unfolding get_choice
  assign_partition any_partition m chooser = get_choice (choices m.topic) chooser
  assign_partition partition_key m chooser = some (partition_of m, chooser)

  abbrev pub use_choice : RoutingType → AnyPartitionChooser → AnyPartitionChooser
  use_choice any_partition chooser = set_choice_used chooser
  use_choice partition_key chooser = chooser

  -- `msg_set.Contents.push_back`, with what is kept of the sizes and the chooser.
  unfoldable pub push_msg : Msg → ℤ → TopicData → ℕ → ℕ → Building → Building
  push_msg m p d data_size set_size b =
      let s = set_in p (group_at m.topic b.result) in
      record {
        topic_data_map =
            put_topic_data m.topic (record d { chooser = use_choice m.routing_type d.chooser })
              b.topic_data_map;
        result =
            put_set m.topic p
              (record {
                data_size = if d.has_codec then set_size else s.data_size;
                contents = s.contents ++ m ∷ [];
              })
              b.result;
        data_size = data_size;
      }

  -- The rest of TryConsumeFrontMsg, with the partition.
  unfoldable pub try_partition : Msg → Building → TopicData → ℤ → Tried
  unfolding push_msg
  try_partition m b d p =
      let new_size = add_u64 b.data_size (body_size m) in
      let s = set_in p (group_at m.topic b.result) in
      let new_set_size = add_u64 (add_u64 s.data_size (body_size m)) f.single_msg_overhead in
      if ltb f.produce_request_data_limit new_size
      then full (record b { topic_data_map = put_topic_data m.topic d b.topic_data_map })
      else if d.has_codec && ltb f.message_max_bytes new_set_size
      then full (record b {
        topic_data_map = put_topic_data m.topic d b.topic_data_map;
        result = put_set m.topic p s b.result;
      })
      else took (push_msg m p d new_size new_set_size b)

  unfoldable pub tried : Msg → Building → TopicData → Option (ℤ × AnyPartitionChooser) → Tried
  unfolding try_partition
  tried m b d none = undefined
  tried m b d (some (p, chooser)) = try_partition m b (record d { chooser = chooser }) p

  unfoldable pub try_consume_front_msg : Msg → Building → Tried
  unfolding tried get_topic_data assign_partition
  try_consume_front_msg m b =
      let d = get_topic_data f m.topic b.topic_data_map in
      tried m b d (assign_partition m.routing_type m d.chooser)

  -- The inner loop. A message of another topic, which no batch should have, becomes a batch of its own
  -- behind this one: MultipleTopicBugFixup, where its assertion does not end the process.
  unfoldable pub fill_batch : Bytes → List Msg → List (List Msg) → Building → Filled
  unfolding try_consume_front_msg
  fill_batch topic [] rest b = fills false rest b
  fill_batch topic (m ∷ batch) rest b =
      let aside = fill_batch topic batch ((m ∷ []) ∷ rest) b in
      let consumed =
        tried_batch m batch rest (fill_batch topic batch rest) (try_consume_front_msg m b) in
      if same_topic topic m then consumed else aside

  -- The outer loop, with fuel for its rounds; `front` of an empty batch is undefined.
  unfoldable pub fill : ℕ → List (List Msg) → Building → Filled
  unfolding fill_batch
  fill zero queue b = Filled.undefined
  fill (suc fuel) [] b = fills false [] b
  fill (suc fuel) ([] ∷ rest) b = Filled.undefined
  fill (suc fuel) ((m ∷ batch) ∷ rest) b =
      next_batch (fill fuel) (fill_batch m.topic (m ∷ batch) rest b)

  unfoldable pub first_pushed :
      Msg → Building → TopicData → List (List Msg) → Option (ℤ × AnyPartitionChooser) → Filled
  unfolding push_msg
  first_pushed m b d queue none = Filled.undefined
  first_pushed m b d queue (some (p, chooser)) = fills false queue (
      push_msg m p (record d { chooser = chooser }) (body_size m)
        (add_u64 (body_size m) f.single_msg_overhead) b)

  -- A batch is popped with its last message.
  unfoldable pub add_first_msg : List (List Msg) → Building → Filled
  unfolding first_pushed get_topic_data assign_partition
  add_first_msg [] b = Filled.undefined
  add_first_msg ([] ∷ rest) b = Filled.undefined
  add_first_msg ((m ∷ batch) ∷ rest) b =
      let d = get_topic_data f m.topic b.topic_data_map in
      first_pushed m b d (pop_batch batch rest) (assign_partition m.routing_type m d.chooser)

  unfoldable pub fill_behind_first : ℕ → Filled → Filled
  unfolding fill
  fill_behind_first fuel (fills is_full queue b) =
      if ltb b.data_size f.produce_request_data_limit
      then fill fuel queue b
      else fills is_full queue b
  fill_behind_first fuel Filled.undefined = Filled.undefined

  unfoldable pub finish_contents : Filled → Contents
  unfolding clear_choices sanity_check
  finish_contents (fills is_full queue b) =
      made (sanity_check b.result) queue (clear_choices f b.result b.topic_data_map)
  finish_contents Filled.undefined = Contents.undefined

  unfoldable pub build_request_contents : Contents
  unfolding finish_contents fill_behind_first add_first_msg
  build_request_contents = finish_contents (
      fill_behind_first (suc (count_all (λ m. true) f.input_queue)) (
        add_first_msg f.input_queue
          (record { topic_data_map = f.topic_data_map; result = []; data_size = 0 })))

  unfoldable pub built_of : Contents → Built
  unfolding forget_sizes
  built_of (made [] queue topics) = no_request (record f {
    corr_id_counter = f.corr_id_counter +ℤ pos 1;
    input_queue = queue;
    topic_data_map = topics;
  })
  built_of (made (t ∷ result) queue topics) =
      built
        (record { corr_id = f.corr_id_counter +ℤ pos 1; all_topics = forget_sizes (t ∷ result) })
        (record f {
          corr_id_counter = f.corr_id_counter +ℤ pos 1;
          input_queue = queue;
          topic_data_map = topics;
        })
  built_of Contents.undefined = Built.undefined

  unfoldable pub build_request : Built
  unfolding built_of build_request_contents
  build_request = elim (f.input_queue) [
    | [] ↦ no_request f
    | q ∷ qs ↦ built_of build_request_contents
  ]
