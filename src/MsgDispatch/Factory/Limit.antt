-- ===== src/MsgDispatch/Factory/Limit.antt =====
-- How much a request of src/dory/msg_dispatch/produce_request_factory.cc holds.
use dory.Common.{
  ℕ, ◌+◌, ◌^◌, ◌≡◌, ◌<◌, ◌≤◌, ◌⊎◌, refl, Bool-cases, true, ◌&&◌, List, [], ◌∷◌, ◌++◌, inl, inr, ltb,
  arith, count_if,
}
use dory.Common.Int.{ℤ}
use dory.Common.Bytes.{Bytes}
use dory.Common.Word.{add_u64}
use dory.Common.Assoc.{total}
use dory.Msg.{Msg, body_size}
use dory.MsgDispatch.Request.{AllTopics, MultiPartitionGroup}
use dory.MsgDispatch.Count.{count_topics}
use dory.MsgDispatch.Factory.{
  MsgSets, group_at, set_in, Building, TopicData, ProduceRequestFactory, push_msg, try_partition,
  Filled, fills, pop_batch, sanity_check, forget_sizes, made, finish_contents, Built, no_request,
  built, built_of, build_request, clear_choices, forget_group,
}
use dory.MsgDispatch.Factory.Measure.{
  weigh, weigh_group, weigh-put_set, weigh-push_msg, weigh-sanity_check, count_topics-forget,
}
use dory.MsgDispatch.Factory.Loop.{Rule, TriedEnds, Final}
use dory.MsgDispatch.Factory.Ready.{AllMsgs, queued-IsKept, IsAssignedIn}
use dory.MsgDispatch.Factory.First.{no_topics, contents-Final, filled, build_request-cases}
use dory.MsgDispatch.Factory.Conserve.{count_sets, CanSend, count_sets-push_msg}

-- The bytes of the keys and values of messages, and of a request's.
abbrev pub bytes_of : List Msg → ℕ
bytes_of [] = 0
bytes_of (m ∷ ms) = body_size m + bytes_of ms

abbrev pub request_bytes : AllTopics → ℕ
request_bytes topics = total (λ (group : MultiPartitionGroup). total bytes_of group) topics

bytes_of-append :
    (ms : List Msg) (m : Msg) → bytes_of (ms ++ m ∷ []) ≡ bytes_of ms + bytes_of (m ∷ [])
bytes_of-append [] m = omega arith
bytes_of-append (x ∷ ms) m = omega (arith, bytes_of-append ms m)

group_bytes-forget :
    (group : MsgSets) → total bytes_of (forget_group group) ≡ weigh_group bytes_of refl group
unfolding forget_group
group_bytes-forget [] = refl
group_bytes-forget ((p, s) ∷ rest) = omega (arith, group_bytes-forget rest)

request_bytes-forget :
    (result : List (Bytes × MsgSets))
    → request_bytes (forget_sizes result) ≡ weigh bytes_of refl result
unfolding forget_sizes
request_bytes-forget [] = refl
request_bytes-forget ((t, group) ∷ rest) =
    omega (arith, group_bytes-forget group, request_bytes-forget rest)

module _ (choices : Bytes → List ℤ) (partition_of : Msg → ℤ) (f : ProduceRequestFactory) where
  -- A message that can be sent, and whose size added to another does not wrap.
  abbrev pub CanFit : Msg → Type 0
  CanFit m = CanSend choices partition_of f m × (body_size m < 2 ^ 63)

  module _ (small : f.produce_request_data_limit < 2 ^ 63) where
    -- The size kept is that of the request's messages, which is within the limit unless there is but
    -- one.
    abbrev Limited : Rule
    Limited batch rest b =
        (weigh bytes_of refl b.result ≡ b.data_size)
        × (b.data_size < 2 ^ 63)
        × ((b.data_size ≤ f.produce_request_data_limit) ⊎ (count_sets (λ m. true) b.result ≡ 1))

    try_partition-Limited :
        (m : Msg) (batch : List Msg) (rest : List (List Msg)) (b : Building) (d : TopicData) (p : ℤ)
        → CanFit m
        → IsAssignedIn choices partition_of f b.topic_data_map m d p
        → Limited (m ∷ batch) rest b
        → TriedEnds Limited m batch rest (try_partition choices partition_of f m b d p)
    unfolding try_partition
    try_partition-Limited m batch rest b d p c is h =
        let s = set_in p (group_at m.topic b.result) in
        let new_size = add_u64 b.data_size (body_size m) in
        let k = add_u64 (add_u64 s.data_size (body_size m)) f.single_msg_overhead in
        elim (Bool-cases (ltb f.produce_request_data_limit new_size)) [
          | inl e ↦ rw e h
          | inr e ↦ elim (Bool-cases (d.has_codec && ltb f.message_max_bytes k)) [
            | inl t ↦
                let same = weigh-put_set bytes_of refl m.topic p s b.result in
                let same_count = weigh-put_set (count_if (λ x. true)) refl m.topic p s b.result in
                rw (e, t) (grind (arith, same, same_count, h))
            | inr t ↦
                let within : new_size ≤ f.produce_request_data_limit = ground (arith, e) in
                let more =
                  weigh-push_msg bytes_of refl choices partition_of f bytes_of-append m p d new_size
                    k b in
                rw (e, t)
                  (unfold push_msg in
                    (omega (arith, more, h, c.1), omega (arith, within, small), inl within))
          ]
        ]

    begins-Limited :
        (m : Msg) (batch : List Msg) (rest : List (List Msg)) (d : TopicData) (p : ℤ) (k : ℕ)
        → f.input_queue ≡ (m ∷ batch) ∷ rest
        → CanFit m
        → IsAssignedIn choices partition_of f f.topic_data_map m d p
        → Limited [] (pop_batch batch rest) (
            push_msg choices partition_of f m p d
              (body_size m)
              k
              (no_topics choices partition_of f))
    begins-Limited m batch rest d p k e c is =
        let first = no_topics choices partition_of f in
        let bytes =
          weigh-push_msg bytes_of refl choices partition_of f bytes_of-append m p d (body_size m) k
            first in
        let one =
          count_sets-push_msg choices partition_of f (λ x. true) m p d (body_size m) k first in
        (unfold push_msg in omega (arith, bytes), unfold push_msg in c.1, inr (omega (arith, one)))

    abbrev IsWithin : AllTopics → Type 0
    IsWithin topics =
        (request_bytes topics ≤ f.produce_request_data_limit)
        ⊎ (count_topics (λ m. true) topics ≡ 1)

    -- A request within the limit, or of one message.
    abbrev pub SendsWithin : Built → Type 0
    SendsWithin (no_request f') = Unit {0}
    SendsWithin (built request f') = IsWithin request.all_topics
    SendsWithin Built.undefined = ⊥

    abbrev FilledWithin : Filled → Type 0
    FilledWithin (fills is_full queue b) =
        (weigh bytes_of refl b.result ≤ f.produce_request_data_limit)
        ⊎ (count_sets (λ m. true) b.result ≡ 1)
    FilledWithin Filled.undefined = ⊥

    filled-FilledWithin :
        (m : Msg) (batch : List Msg) (rest : List (List Msg))
        → f.input_queue ≡ (m ∷ batch) ∷ rest
        → AllMsgs choices partition_of f CanFit [] f.input_queue
        → FilledWithin (filled choices partition_of f)
    filled-FilledWithin m batch rest e a =
        let kept =
          queued-IsKept choices partition_of f CanFit (λ m' c. c.0) Limited try_partition-Limited
            (λ m' batch' rest' b h. h) (λ batch' rest' b h. h) in
        within (filled choices partition_of f) (
          contents-Final choices partition_of f CanFit (λ m' c. c.0) Limited m batch rest e a
            begins-Limited kept)
      where
        within :
            (r : Filled)
            → Final
                (λ batch' rest' b'.
                  AllMsgs choices partition_of f CanFit batch' rest' × Limited batch' rest' b')
                r
            → FilledWithin r
        within (fills is_full queue b) q = elim (q.1.2) [
          | inl le ↦ inl (omega (arith, le, q.1.0))
          | inr one ↦ inr one
        ]
        within Filled.undefined q = q

    built_of-SendsWithin :
        (r : Filled)
        → FilledWithin r
        → SendsWithin (built_of choices partition_of f (finish_contents choices partition_of f r))
    unfolding finish_contents built_of
    built_of-SendsWithin (fills is_full queue b) h = checked (sanity_check b.result) (elim h [
      | inl le ↦ inl (omega (arith, le, weigh-sanity_check bytes_of refl b.result))
      | inr one ↦ inr (omega (arith, one, weigh-sanity_check (count_if (λ x. true)) refl b.result))
    ])
      where
        checked :
            (result : List (Bytes × MsgSets))
            → (weigh bytes_of refl result ≤ f.produce_request_data_limit)
              ⊎ (count_sets (λ m. true) result ≡ 1)
            → SendsWithin (
                built_of choices partition_of f
                  (made result queue (clear_choices f b.result b.topic_data_map)))
        checked [] k = tt
        checked (t ∷ result) k = elim k [
          | inl le ↦ inl (omega (arith, le, request_bytes-forget (t ∷ result)))
          | inr one ↦ inr (omega (arith, one, count_topics-forget (λ x. true) (t ∷ result)))
        ]
    built_of-SendsWithin Filled.undefined h = h

    -- If the limit on a produce request's data is below 2^63, no batch in the factory's queue is
    -- empty, each message's key and value are below 2^63 bytes and each topic that an AnyPartition
    -- message has is one with partitions on the broker, then BuildRequest has a result, and the
    -- keys and values of a request that it makes are within the limit unless the request is of one
    -- message.
    pub build_request-SendsWithin :
        AllMsgs choices partition_of f CanFit [] f.input_queue
        → SendsWithin (build_request choices partition_of f)
    build_request-SendsWithin a =
        build_request-cases choices partition_of f CanFit SendsWithin (λ e. tt)
          (λ m batch rest e.
            built_of-SendsWithin (filled choices partition_of f)
              (filled-FilledWithin m batch rest e a))
          a
