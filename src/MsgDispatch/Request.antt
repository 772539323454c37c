-- ===== src/MsgDispatch/Request.antt =====
-- src/dory/msg_dispatch/common.*: a produce request that waits for its response, by topic and
-- partition. A std::map is the list of its items in order.
use dory.Common.{List, [], ◌∷◌, ◌++◌, Option, none, some, if◌then◌else◌}
use dory.Common.Int.{ℤ, eq_ℤ}
use dory.Common.Bytes.{Bytes, bytes_eq}
use dory.Msg.{Msg}

abbrev pub MultiPartitionGroup : Type 0
MultiPartitionGroup = List (ℤ × List Msg)

abbrev pub AllTopics : Type 0
AllTopics = List (Bytes × MultiPartitionGroup)

pub record ProduceRequest : Type 0 where
  pub corr_id : ℤ
  pub all_topics : AllTopics

unfoldable pub find_partition : ℤ → MultiPartitionGroup → Option (List Msg)
find_partition id [] = none
find_partition id ((k, ms) ∷ rest) = if eq_ℤ k id then some ms else find_partition id rest

unfoldable pub erase_partition : ℤ → MultiPartitionGroup → MultiPartitionGroup
erase_partition id [] = []
erase_partition id ((k, ms) ∷ rest) = if eq_ℤ k id then rest else (k, ms) ∷ erase_partition id rest

unfoldable pub find_group : Bytes → AllTopics → Option MultiPartitionGroup
find_group topic [] = none
find_group topic ((t, group) ∷ rest) =
    if bytes_eq t topic then some group else find_group topic rest

unfoldable pub erase_topic : Bytes → AllTopics → AllTopics
erase_topic topic [] = []
erase_topic topic ((t, group) ∷ rest) =
    if bytes_eq t topic then rest else (t, group) ∷ erase_topic topic rest

-- What the loop over a topic's partitions leaves of the topic.
unfoldable pub set_group : Bytes → MultiPartitionGroup → AllTopics → AllTopics
set_group topic left [] = []
set_group topic left ((t, group) ∷ rest) =
    if bytes_eq t topic then (t, left) ∷ rest else (t, group) ∷ set_group topic left rest

unfoldable pub msg_sets : MultiPartitionGroup → List (List Msg)
msg_sets [] = []
msg_sets ((k, ms) ∷ rest) = ms ∷ msg_sets rest

-- EmptyAllTopics, onto the end of an empty list.
unfoldable pub empty_all_topics : AllTopics → List (List Msg)
unfolding msg_sets
empty_all_topics [] = []
empty_all_topics ((t, group) ∷ rest) = msg_sets group ++ empty_all_topics rest
