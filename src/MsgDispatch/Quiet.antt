-- ===== src/MsgDispatch/Quiet.antt =====
-- Which lists src/dory/msg_dispatch/produce_response_processor.cc leaves alone, by the action that it
-- asks for.
use dory.Common.{
  ℕ, ◌+◌, ◌≡◌, ◌⊎◌, inl, inr, refl, ◌∙◌, Bool, Bool-cases, Option-cases, true, false, not, ◌||◌,
  List, [], ◌∷◌, Option, none, some, arith,
}
use dory.Common.Int.{ℤ, eq_ℤ}
use dory.Msg.{Msg}
use dory.MsgDispatch.Ack.{
  AckResultAction, ok, resend, discard, pause, discard_and_pause, process_ack,
}
use dory.MsgDispatch.Request.{
  MultiPartitionGroup, AllTopics, ProduceRequest, find_partition, erase_partition, find_group,
  erase_topic, set_group,
}
use dory.MsgDispatch.Processor.{
  Processor, is_nil, discard_msgs, count_attempt, count_failed_delivery_attempt,
  process_immediate_resend_msg_set, process_pause_and_resend_msg_set, act_on_ack, process_one_ack,
}
use dory.MsgDispatch.Response.{
  TopicAcks, Response, keep_running, pause_and_defer_finish, pause_and_finish_now, Processed, acts,
  throws, is_unexpected, is_bad_response, process_partitions, finish, process_topics,
  process_response,
}
use dory.MsgDispatch.Steps.{process_partitions-found, process_partitions-missing}

-- Nothing waits without an acknowledgement, and nothing for a pause unless one was asked for.
abbrev pub IsQuiet : Bool → Processor → Type 0
IsQuiet got p = (p.msgs_without_acks ≡ []) × ((got ≡ true) ⊎ (p.pause_and_resend ≡ []))

-- The same at the end of a response.
abbrev pub EndsQuiet : Processed → Type 0
EndsQuiet (acts keep_running p) = IsQuiet false p
EndsQuiet (acts pause_and_defer_finish p) = IsQuiet true p
EndsQuiet (acts pause_and_finish_now p) = Unit {0}
EndsQuiet (throws p left) = IsQuiet true p

finish-EndsQuiet :
    (p : Processor) (topics : AllTopics) (got bad : Bool)
    → IsQuiet got p
    → EndsQuiet (finish p topics got bad)
unfolding finish
finish-EndsQuiet p [] true false h = h
finish-EndsQuiet p [] false false h = h
finish-EndsQuiet p (t ∷ topics) got false h = tt
finish-EndsQuiet p topics got true h = tt

module _ (limit : ℕ) where
  count_attempt-lists :
      (p : Processor) (m : Msg)
      → let q = (count_attempt limit p m).0 in
        (q.msgs_without_acks ≡ p.msgs_without_acks) × (q.pause_and_resend ≡ p.pause_and_resend)
  unfolding count_attempt discard_msgs
  count_attempt-lists p m = ground arith

  count_failed_delivery_attempt-lists :
      (p : Processor) (ms : List Msg)
      → let q = (count_failed_delivery_attempt limit p ms).0 in
        (q.msgs_without_acks ≡ p.msgs_without_acks) × (q.pause_and_resend ≡ p.pause_and_resend)
  unfolding count_failed_delivery_attempt
  count_failed_delivery_attempt-lists p [] = (refl, refl)
  count_failed_delivery_attempt-lists p (m ∷ ms) =
      let (a, b) = count_attempt-lists p m in
      let (c, d) = count_failed_delivery_attempt-lists (count_attempt limit p m).0 ms in
      (c ∙ a, d ∙ b)

  act_on_ack-IsQuiet :
      (action : AckResultAction) (got : Bool) (p : Processor) (ms : List Msg)
      → IsQuiet got p
      → let r = act_on_ack limit action p ms in IsQuiet (got || not r.1) r.0
  unfolding act_on_ack process_immediate_resend_msg_set process_pause_and_resend_msg_set
      discard_msgs
  act_on_ack-IsQuiet ok got p ms h = ground arith
  act_on_ack-IsQuiet resend got p ms h = ground (arith, count_failed_delivery_attempt-lists p ms)
  act_on_ack-IsQuiet discard got p ms h = ground arith
  act_on_ack-IsQuiet pause got p ms h = ground (arith, count_failed_delivery_attempt-lists p ms)
  act_on_ack-IsQuiet discard_and_pause got p ms h = ground arith

  process_partitions-IsQuiet :
      (p : Processor) (group : MultiPartitionGroup) (got : Bool) (acks : List (ℤ × ℤ))
      (truncated : Bool)
      → IsQuiet got p
      → let r = process_partitions limit p group got acks truncated in
        IsQuiet r.got_pause_ack r.processor
  process_partitions-IsQuiet p group got [] truncated h = unfold process_partitions in h
  process_partitions-IsQuiet p group got ((id, code) ∷ acks) truncated h =
      elim (Option-cases (find_partition id group)) [
        | inl e ↦ rw (process_partitions-missing limit p group got id code acks truncated e) h
        | inr (ms, e) ↦
            let q = process_one_ack limit p ms code in
            let quiet : IsQuiet (got || not q.1) q.0 =
              unfold process_one_ack in
              act_on_ack-IsQuiet (process_ack code) got (record p { ack_count = p.ack_count + 1 })
                ms h in
            rw (process_partitions-found limit p group got id code acks truncated ms e) (
              process_partitions-IsQuiet q.0 (erase_partition id group) (got || not q.1) acks
                truncated quiet)
      ]

  process_topics-EndsQuiet :
      (p : Processor) (all_topics : AllTopics) (got bad : Bool) (topics : List TopicAcks)
      (truncated : Bool)
      → IsQuiet got p
      → EndsQuiet (process_topics limit p all_topics got bad topics truncated)
  unfolding process_topics
  process_topics-EndsQuiet p all_topics got bad [] true h = (h.0, inl refl)
  process_topics-EndsQuiet p all_topics got bad [] false h = finish-EndsQuiet p all_topics got bad h
  process_topics-EndsQuiet p all_topics got bad (t ∷ topics) truncated h =
      elim (Option-cases (find_group t.topic all_topics)) [
        | inl e ↦ rw (e, process_topics) (finish-EndsQuiet p all_topics got true h)
        | inr (group, e) ↦
            let r = process_partitions limit p group got t.acks t.truncated in
            let rest = erase_topic t.topic all_topics in
            let bad' = bad || is_unexpected r.end in
            let left = set_group t.topic r.group all_topics in
            let quiet = process_partitions-IsQuiet p group got t.acks t.truncated h in
            rw (e, process_topics)
              (elim (Bool-cases (is_bad_response r.end)) [
                | inl b ↦ rw b (quiet.0, inl refl)
                | inr b ↦ elim (Bool-cases (is_nil r.group)) [
                  | inl n ↦
                      rw (b, n)
                        (process_topics-EndsQuiet r.processor rest r.got_pause_ack bad' topics
                          truncated quiet)
                  | inr n ↦ rw (b, n) (finish-EndsQuiet r.processor left r.got_pause_ack true quiet)
                ]
              ])
      ]

  -- If the processor begins with no message without an acknowledgement and none to be sent again
  -- after a pause, then when ProcessResponse asks to keep running it ends so, and when it asks for
  -- a deferred pause or the reader throws it ends with no message without an acknowledgement: the
  -- lists that the connector does not take are empty.
  pub process_response-EndsQuiet :
      (p : Processor) (request : ProduceRequest) (response : Option Response)
      → IsQuiet false p
      → EndsQuiet (process_response limit p request response)
  unfolding process_response
  process_response-EndsQuiet p request none h = (h.0, inl refl)
  process_response-EndsQuiet p request (some response) h =
      elim (Bool-cases (eq_ℤ response.corr_id request.corr_id)) [
        | inl e ↦ rw e (
            process_topics-EndsQuiet p request.all_topics false false response.topics
              response.truncated h)
        | inr e ↦ rw e tt
      ]
