-- ===== src/MsgDispatch/Factory/Conserve.antt =====
-- The messages of src/dory/msg_dispatch/produce_request_factory.cc, counted through BuildRequest.
use dory.Common.{
  ℕ, ◌+◌, ◌≡◌, ◌<◌, refl, ap, Bool, Bool-cases, true, ◌&&◌, List, [], ◌∷◌, inl, inr, ltb, arith,
  count_if, count_all, count_if-append, one_if,
}
use dory.Common.Int.{ℤ}
use dory.Common.Bytes.{Bytes}
use dory.Common.Word.{add_u64}
use dory.Msg.{Msg, body_size}
use dory.MsgDispatch.Count.{count_topics}
use dory.MsgDispatch.Factory.{
  MsgSets, group_at, set_in, Building, TopicData, ProduceRequestFactory, push_msg, try_partition,
  Filled, fills, pop_batch, sanity_check, made, finish_contents, Built, no_request, built, built_of,
  build_request, clear_choices,
}
use dory.MsgDispatch.Factory.Measure.{
  weigh, weigh-put_set, weigh-push_msg, weigh-sanity_check, count_topics-forget,
}
use dory.MsgDispatch.Factory.Loop.{Rule, TriedEnds, Final}
use dory.MsgDispatch.Factory.Ready.{HasChoice, AllMsgs, queued-IsKept, IsAssignedIn}
use dory.MsgDispatch.Factory.First.{no_topics, contents-Final, filled, build_request-cases}

abbrev pub count_sets : (Msg → Bool) → List (Bytes × MsgSets) → ℕ
count_sets test result = weigh (count_if test) refl result

module _ (choices : Bytes → List ℤ) (partition_of : Msg → ℤ) (f : ProduceRequestFactory) where
  abbrev pub CanSend : Msg → Type 0
  CanSend m = HasChoice choices partition_of f m.routing_type m.topic

  pub count_sets-push_msg :
      (test : Msg → Bool) (m : Msg) (p : ℤ) (d : TopicData) (n k : ℕ) (b : Building)
      → count_sets test (push_msg choices partition_of f m p d n k b).result
        ≡ count_sets test b.result + one_if (test m)
  count_sets-push_msg test m p d n k b = omega (
    arith,
    weigh-push_msg (count_if test) refl choices partition_of f
        (λ ms m'. count_if-append test ms (m' ∷ [])) m p d n k b,
  )

  module _ (test : Msg → Bool) where
    abbrev Counted : ℕ → Rule
    Counted n batch rest b =
        (count_if test batch + count_all test rest + count_sets test b.result ≡ n)
        × (0 < count_sets (λ m. true) b.result)

    try_partition-Counted :
        (n : ℕ) (m : Msg) (batch : List Msg) (rest : List (List Msg)) (b : Building) (d : TopicData)
        (p : ℤ)
        → CanSend m
        → IsAssignedIn choices partition_of f b.topic_data_map m d p
        → Counted n (m ∷ batch) rest b
        → TriedEnds (Counted n) m batch rest (try_partition choices partition_of f m b d p)
    unfolding try_partition
    try_partition-Counted n m batch rest b d p c is h =
        let s = set_in p (group_at m.topic b.result) in
        let new_size = add_u64 b.data_size (body_size m) in
        let k = add_u64 (add_u64 s.data_size (body_size m)) f.single_msg_overhead in
        elim (Bool-cases (ltb f.produce_request_data_limit new_size)) [
          | inl e ↦ rw e (omega arith)
          | inr e ↦ elim (Bool-cases (d.has_codec && ltb f.message_max_bytes k)) [
            | inl t ↦
                rw (e, t)
                  (omega (
                    arith,
                    weigh-put_set (count_if test) refl m.topic p s b.result,
                    weigh-put_set (count_if (λ x. true)) refl m.topic p s b.result,
                  ))
            | inr t ↦
                rw (e, t)
                  (omega (
                    arith,
                    count_sets-push_msg test m p d new_size k b,
                    count_sets-push_msg (λ x. true) m p d new_size k b,
                  ))
          ]
        ]

  count_all-pop_batch :
      (test : Msg → Bool) (batch : List Msg) (rest : List (List Msg))
      → count_all test (pop_batch batch rest) ≡ count_if test batch + count_all test rest
  count_all-pop_batch test [] rest = omega arith
  count_all-pop_batch test (m ∷ batch) rest = refl

  -- The messages that pass a test are in the request or in the queue.
  abbrev pub Conserves : (Msg → Bool) → Filled → Type 0
  Conserves test (fills is_full queue b) =
      (count_all test queue + count_sets test b.result ≡ count_all test f.input_queue)
      × (0 < count_sets (λ m. true) b.result)
  Conserves test Filled.undefined = ⊥

  pub filled-Conserves :
      (test : Msg → Bool) (m : Msg) (batch : List Msg) (rest : List (List Msg))
      → f.input_queue ≡ (m ∷ batch) ∷ rest
      → AllMsgs choices partition_of f CanSend [] f.input_queue
      → Conserves test (filled choices partition_of f)
  filled-Conserves test m batch rest e a =
      let n = count_all test f.input_queue in
      let step = try_partition-Counted test n in
      let kept =
        queued-IsKept choices partition_of f CanSend (λ m' c. c) (Counted test n) step
          (λ m' batch' rest' b h. omega arith) (λ batch' rest' b h. omega arith) in
      counted (filled choices partition_of f) (
        contents-Final choices partition_of f CanSend (λ m' c. c) (Counted test n) m batch rest e a
          (λ m' batch' rest' d p k e' c is. omega (
            arith,
            count_all-pop_batch test batch' rest',
            count_sets-push_msg test m' p d (body_size m') k (no_topics choices partition_of f),
            count_sets-push_msg (λ x. true) m' p d (body_size m') k
                (no_topics choices partition_of f),
            ap (count_all test) e',
          ))
          kept)
    where
      counted :
          (r : Filled)
          → Final
              (λ batch' rest' b'.
                AllMsgs choices partition_of f CanSend batch' rest'
                × Counted test (count_all test f.input_queue) batch' rest' b')
              r
          → Conserves test r
      counted (fills is_full queue b) q = omega (arith, q.1)
      counted Filled.undefined q = q

  -- What BuildRequest does with the messages that pass a test.
  abbrev pub Sends : (Msg → Bool) → Built → Type 0
  Sends test (no_request f') = (f' ≡ f) × (f.input_queue ≡ [])
  Sends test (built request f') =
      (count_topics test request.all_topics + count_all test f'.input_queue
        ≡ count_all test f.input_queue)
      × (0 < count_topics (λ m. true) request.all_topics)
  Sends test Built.undefined = ⊥

  built_of-Sends :
      (test : Msg → Bool) (r : Filled)
      → Conserves test r
      → Sends test (built_of choices partition_of f (finish_contents choices partition_of f r))
  unfolding finish_contents built_of
  built_of-Sends test (fills is_full queue b) (same, some_msg) =
      checked (sanity_check b.result)
        (omega (arith, weigh-sanity_check (count_if test) refl b.result))
        (omega (arith, weigh-sanity_check (count_if (λ x. true)) refl b.result))
    where
      checked :
          (result : List (Bytes × MsgSets))
          → count_all test queue + count_sets test result ≡ count_all test f.input_queue
          → 0 < count_sets (λ x. true) result
          → Sends test (
              built_of choices partition_of f
                (made result queue (clear_choices f b.result b.topic_data_map)))
      checked [] h k = absurd (omega arith)
      checked (t ∷ result) h k = (
        omega (arith, count_topics-forget test (t ∷ result)),
        omega (arith, count_topics-forget (λ x. true) (t ∷ result)),
      )
  built_of-Sends test Filled.undefined h = h

  -- If no batch in the factory's queue is empty and each topic that an AnyPartition message in it
  -- has is one with partitions on the broker, then for every test on messages BuildRequest has a
  -- result, the produce request and what stays in the queue have together as many messages that
  -- pass it as the queue before, and there is a request, of at least one message, unless the queue
  -- is empty and the factory stays as it is.
  pub build_request-Sends :
      (test : Msg → Bool)
      → AllMsgs choices partition_of f CanSend [] f.input_queue
      → Sends test (build_request choices partition_of f)
  build_request-Sends test a =
      build_request-cases choices partition_of f CanSend (Sends test) (λ e. (refl, e))
        (λ m batch rest e.
          built_of-Sends test (filled choices partition_of f)
            (filled-Conserves test m batch rest e a))
        a
