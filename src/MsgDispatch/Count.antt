-- ===== src/MsgDispatch/Count.antt =====
-- Counting the messages of a produce request by topic and partition.
use dory.Common.{
  ℕ, ◌+◌, ◌≡◌, refl, ap, Bool, Bool-cases, true, List, [], ◌∷◌, some, inl, inr, arith, count_if,
  count_all, count_all-append,
}
use dory.Common.Int.{ℤ, eq_ℤ}
use dory.Common.Bytes.{Bytes, bytes_eq}
use dory.Msg.{Msg}
use dory.MsgDispatch.Request.{
  MultiPartitionGroup, AllTopics, find_partition, erase_partition, find_group, erase_topic,
  set_group, msg_sets, empty_all_topics,
}
use dory.MsgDispatch.Processor.{is_nil}

module _ (test : Msg → Bool) where
  -- How many messages pass a test, of a topic's partitions and of a request.
  abbrev pub count_group : MultiPartitionGroup → ℕ
  count_group [] = 0
  count_group ((k, ms) ∷ rest) = count_if test ms + count_group rest

  abbrev pub count_topics : AllTopics → ℕ
  count_topics [] = 0
  count_topics ((t, group) ∷ rest) = count_group group + count_topics rest

  count_all-msg_sets :
      (group : MultiPartitionGroup) → count_all test (msg_sets group) ≡ count_group group
  unfolding msg_sets
  count_all-msg_sets [] = refl
  count_all-msg_sets ((k, ms) ∷ rest) = omega (arith, count_all-msg_sets rest)

  pub count_all-empty_all_topics :
      (topics : AllTopics) → count_all test (empty_all_topics topics) ≡ count_topics topics
  unfolding empty_all_topics
  count_all-empty_all_topics [] = refl
  count_all-empty_all_topics ((t, group) ∷ rest) = omega (
    arith,
    count_all-append test (msg_sets group) (empty_all_topics rest),
    count_all-msg_sets group,
    count_all-empty_all_topics rest,
  )

  pub count_group-erase :
      (id : ℤ) (group : MultiPartitionGroup) {ms : List Msg}
      → find_partition id group ≡ some ms
      → count_if test ms + count_group (erase_partition id group) ≡ count_group group
  unfolding find_partition erase_partition
  count_group-erase id [] h = absurd cc
  count_group-erase id ((k, ms') ∷ rest) {ms} h = elim (Bool-cases (eq_ℤ k id)) [
    | inl e ↦ let same : ms' ≡ ms = cc (rw e at h) in rw e (omega (arith, ap (count_if test) same))
    | inr e ↦ rw e (omega (arith, count_group-erase id rest (rw e at h)))
  ]

  pub count_group-nil : (group : MultiPartitionGroup) → is_nil group ≡ true → count_group group ≡ 0
  count_group-nil [] e = refl
  count_group-nil ((k, ms) ∷ rest) e = absurd cc

  pub count_topics-erase :
      (topic : Bytes) (topics : AllTopics) {group : MultiPartitionGroup}
      → find_group topic topics ≡ some group
      → count_group group + count_topics (erase_topic topic topics) ≡ count_topics topics
  unfolding find_group erase_topic
  count_topics-erase topic [] h = absurd cc
  count_topics-erase topic ((t, group') ∷ rest) {group} h = elim (Bool-cases (bytes_eq t topic)) [
    | inl e ↦
        let same : group' ≡ group = cc (rw e at h) in rw e (omega (arith, ap count_group same))
    | inr e ↦ rw e (omega (arith, count_topics-erase topic rest (rw e at h)))
  ]

  pub count_topics-set :
      (topic : Bytes) (left : MultiPartitionGroup) (topics : AllTopics)
      {group : MultiPartitionGroup}
      → find_group topic topics ≡ some group
      → count_topics (set_group topic left topics)
        ≡ count_group left + count_topics (erase_topic topic topics)
  unfolding find_group erase_topic set_group
  count_topics-set topic left [] h = absurd cc
  count_topics-set topic left ((t, group') ∷ rest) {group} h =
      elim (Bool-cases (bytes_eq t topic)) [
        | inl e ↦ rw e refl
        | inr e ↦ rw e (omega (arith, count_topics-set topic left rest (rw e at h)))
      ]
