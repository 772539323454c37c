-- ===== src/MsgDispatch/Conserve.antt =====
-- Counting the messages of a produce request through src/dory/msg_dispatch/produce_response_processor.cc.
use dory.Common.{
  ℕ, ◌+◌, ◌≡◌, refl, ap, ◌∙◌, Bool, Bool-cases, Option-cases, true, false, not, ◌||◌, List, [], ◌∷◌,
  Option, none, some, inl, inr, arith, count_if, count_if-append, count_all, count_all-append,
  one_if, if◌then◌else◌,
}
use dory.Common.Int.{ℤ, eq_ℤ}
use dory.Msg.{Msg}
use dory.MsgDispatch.Ack.{
  AckResultAction, ok, resend, discard, pause, discard_and_pause, process_ack,
}
use dory.MsgDispatch.Request.{
  MultiPartitionGroup, AllTopics, ProduceRequest, find_partition, erase_partition, find_group,
  erase_topic, set_group, empty_all_topics,
}
use dory.MsgDispatch.Processor.{
  Processor, is_nil, discard_msgs, count_attempt, count_failed_delivery_attempt,
  process_immediate_resend_msg_set, process_pause_and_resend_msg_set, process_no_ack_msgs,
  act_on_ack, process_one_ack,
}
use dory.MsgDispatch.Response.{
  TopicAcks, Response, Processed, acts, throws, Partitions, is_unexpected, is_bad_response,
  process_partitions, finish, process_topics, process_response,
}
use dory.MsgDispatch.Steps.{process_partitions-found, process_partitions-missing}
use dory.MsgDispatch.Count.{
  count_group, count_topics, count_all-empty_all_topics, count_group-erase, count_group-nil,
  count_topics-erase, count_topics-set,
}

module _ (test : Msg → Bool) where
  -- How many messages of a processor pass a test, in its three lists and among those reported as
  -- acknowledged or discarded, and with what is left of the request.
  abbrev pub count_processor : Processor → ℕ
  count_processor p =
      count_if test p.acked
      + count_if test p.discarded
      + count_all test p.msgs_without_acks
      + count_all test p.immediate_resend
      + count_all test p.pause_and_resend

  abbrev pub count_partitions : Partitions → ℕ
  count_partitions r = count_processor r.processor + count_group test r.group

  abbrev pub count_processed : Processed → ℕ
  count_processed (acts action p) = count_processor p
  count_processed (throws p left) = count_processor p + count_topics test left

  process_no_ack_msgs-count :
      (p : Processor) (topics : AllTopics)
      → count_processor (process_no_ack_msgs p topics)
        ≡ count_processor p + count_topics test topics
  unfolding process_no_ack_msgs
  process_no_ack_msgs-count p topics =
      let lists = empty_all_topics topics in
      ground (
        arith,
        count_all-empty_all_topics test topics,
        count_all-append test p.msgs_without_acks lists,
      )

  module _ (limit : ℕ) where
    count_attempt-count :
        (p : Processor) (m : Msg)
        → let r = count_attempt limit p m in
          count_processor r.0 + (if r.1 then 0 else one_if (test m))
          ≡ count_processor p + one_if (test m)
    unfolding count_attempt discard_msgs
    count_attempt-count p m = ground (arith, count_if-append test p.discarded (m ∷ []))

    count_failed_delivery_attempt-count :
        (p : Processor) (ms : List Msg)
        → let r = count_failed_delivery_attempt limit p ms in
          count_processor r.0 + count_if test r.1 ≡ count_processor p + count_if test ms
    unfolding count_failed_delivery_attempt
    count_failed_delivery_attempt-count p [] = refl
    count_failed_delivery_attempt-count p (m ∷ ms) =
        let step = count_attempt-count p m in
        let rest = count_failed_delivery_attempt-count (count_attempt limit p m).0 ms in
        elim (Bool-cases (count_attempt limit p m).1) [
          | inl e ↦ rw e (omega (arith, rest, (rw e at step)))
          | inr e ↦ rw e (omega (arith, rest, (rw e at step)))
        ]

    process_immediate_resend_msg_set-count :
        (p : Processor) (ms : List Msg)
        → count_processor (process_immediate_resend_msg_set limit p ms)
          ≡ count_processor p + count_if test ms
    unfolding process_immediate_resend_msg_set
    process_immediate_resend_msg_set-count p ms =
        let r = count_failed_delivery_attempt limit p ms in
        ground (
          arith,
          count_failed_delivery_attempt-count p ms,
          count_all-append test r.0.immediate_resend (r.1 ∷ []),
        )

    process_pause_and_resend_msg_set-count :
        (p : Processor) (ms : List Msg)
        → count_processor (process_pause_and_resend_msg_set limit p ms)
          ≡ count_processor p + count_if test ms
    unfolding process_pause_and_resend_msg_set
    process_pause_and_resend_msg_set-count p ms =
        let r = count_failed_delivery_attempt limit p ms in
        ground (
          arith,
          count_failed_delivery_attempt-count p ms,
          count_all-append test r.0.pause_and_resend (r.1 ∷ []),
        )

    -- Whatever the broker says of a partition, its messages are acknowledged, discarded or kept.
    act_on_ack-count :
        (action : AckResultAction) (p : Processor) (ms : List Msg)
        → count_processor (act_on_ack limit action p ms).0 ≡ count_processor p + count_if test ms
    unfolding act_on_ack discard_msgs
    act_on_ack-count ok p ms = omega (arith, count_if-append test p.acked ms)
    act_on_ack-count resend p ms = process_immediate_resend_msg_set-count p ms
    act_on_ack-count discard p ms = omega (arith, count_if-append test p.discarded ms)
    act_on_ack-count pause p ms = process_pause_and_resend_msg_set-count p ms
    act_on_ack-count discard_and_pause p ms = omega (arith, count_if-append test p.discarded ms)

    process_one_ack-count :
        (p : Processor) (ms : List Msg) (ack : ℤ)
        → count_processor (process_one_ack limit p ms ack).0 ≡ count_processor p + count_if test ms
    unfolding process_one_ack
    process_one_ack-count p ms ack =
        act_on_ack-count (process_ack ack) (record p { ack_count = p.ack_count + 1 }) ms

    process_partitions-count :
        (p : Processor) (group : MultiPartitionGroup) (got : Bool) (acks : List (ℤ × ℤ))
        (truncated : Bool)
        → count_partitions (process_partitions limit p group got acks truncated)
          ≡ count_processor p + count_group test group
    process_partitions-count p group got [] truncated = unfold process_partitions in refl
    process_partitions-count p group got ((id, code) ∷ acks) truncated =
        elim (Option-cases (find_partition id group)) [
          | inl e ↦
              ap count_partitions
                (process_partitions-missing limit p group got id code acks truncated e)
          | inr (ms, e) ↦
              let q = process_one_ack limit p ms code in
              ap count_partitions
                (process_partitions-found limit p group got id code acks truncated ms e)
              ∙ omega (
                arith,
                count_group-erase test id group e,
                process_one_ack-count p ms code,
                process_partitions-count q.0 (erase_partition id group) (got || not q.1) acks
                    truncated,
              )
        ]

    finish-count :
        (p : Processor) (topics : AllTopics) (got bad : Bool)
        → count_processed (finish p topics got bad) ≡ count_processor p + count_topics test topics
    unfolding finish
    finish-count p [] got bad = ground (arith, process_no_ack_msgs-count p [])
    finish-count p (t ∷ topics) got bad = ground (arith, process_no_ack_msgs-count p (t ∷ topics))

    process_topics-count :
        (p : Processor) (all_topics : AllTopics) (got bad : Bool) (topics : List TopicAcks)
        (truncated : Bool)
        → count_processed (process_topics limit p all_topics got bad topics truncated)
          ≡ count_processor p + count_topics test all_topics
    unfolding process_topics
    process_topics-count p all_topics got bad [] true = refl
    process_topics-count p all_topics got bad [] false = finish-count p all_topics got bad
    process_topics-count p all_topics got bad (t ∷ topics) truncated =
        elim (Option-cases (find_group t.topic all_topics)) [
          | inl e ↦ rw (e, process_topics) (finish-count p all_topics got true)
          | inr (group, e) ↦
              let r = process_partitions limit p group got t.acks t.truncated in
              let rest = erase_topic t.topic all_topics in
              let bad' = bad || is_unexpected r.end in
              let left = set_group t.topic r.group all_topics in
              let parts = process_partitions-count p group got t.acks t.truncated in
              let all = count_topics-erase test t.topic all_topics e in
              let kept : count_processor r.processor + count_topics test left
                  ≡ count_processor p + count_topics test all_topics =
                omega (arith, parts, all, count_topics-set test t.topic r.group all_topics e) in
              rw (e, process_topics)
                (elim (Bool-cases (is_bad_response r.end)) [
                  | inl b ↦ rw b kept
                  | inr b ↦ elim (Bool-cases (is_nil r.group)) [
                    | inl n ↦
                        rw (b, n)
                          (process_topics-count r.processor rest r.got_pause_ack bad' topics
                              truncated
                            ∙ omega (arith, parts, all, count_group-nil test r.group n))
                    | inr n ↦ rw (b, n) (finish-count r.processor left r.got_pause_ack true ∙ kept)
                  ]
                ])
        ]

    -- For every test on messages, every limit on failed deliveries, every request and every
    -- response, however short, wrong or unreadable, the processor after ProcessResponse and, if the
    -- reader threw, what is left of the request have together as many messages that pass it,
    -- acknowledged, discarded or kept, as the processor and the request before.
    pub process_response-count :
        (p : Processor) (request : ProduceRequest) (response : Option Response)
        → count_processed (process_response limit p request response)
          ≡ count_processor p + count_topics test request.all_topics
    unfolding process_response
    process_response-count p request none = refl
    process_response-count p request (some response) =
        elim (Bool-cases (eq_ℤ response.corr_id request.corr_id)) [
          | inl e ↦ rw e (
              process_topics-count p request.all_topics false false response.topics
                response.truncated)
          | inr e ↦ rw e (process_no_ack_msgs-count p request.all_topics)
        ]
