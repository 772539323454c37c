-- ===== src/MsgDispatch/Whole.antt =====
-- Responses that the reader of the Kafka protocol reads to their end, and those that it rejects, in
-- src/dory/msg_dispatch/produce_response_processor.cc and connector.cc.
use dory.Common.{
  ℕ, ◌+◌, ◌≡◌, refl, ap, ◌∙◌, inl, inr, Bool, Bool-cases, Option-cases, true, false, not, ◌||◌,
  List, [], ◌∷◌, none, some, arith, All,
}
use dory.Common.Int.{ℤ, eq_ℤ}
use dory.Msg.{Msg}
use dory.MsgDispatch.Request.{
  MultiPartitionGroup, AllTopics, ProduceRequest, find_partition, erase_partition, find_group,
  erase_topic, set_group,
}
use dory.MsgDispatch.Processor.{Processor, is_nil, process_one_ack}
use dory.MsgDispatch.Response.{
  TopicAcks, Response, keep_running, pause_and_defer_finish, pause_and_finish_now, Processed, acts,
  throws, is_unexpected, is_bad_response, process_partitions, process_topics, process_response,
  finish,
}
use dory.MsgDispatch.Steps.{process_partitions-found, process_partitions-missing}
use dory.MsgDispatch.Count.{count_topics}
use dory.MsgDispatch.Connector.{
  Connector, MsgDeliveryConf, new_processor, act_on_processed, process_single_produce_response,
}
use dory.MsgDispatch.Keeps.{count_connector, process_single_produce_response-count, IsWhole}

abbrev is_thrown : Processed → Bool
is_thrown (acts action p) = false
is_thrown (throws p left) = true

finish-not_thrown :
    (p : Processor) (topics : AllTopics) (got bad : Bool)
    → is_thrown (finish p topics got bad) ≡ false
unfolding finish
finish-not_thrown p topics got bad = ground arith

module _ (limit : ℕ) where
  process_partitions-whole :
      (p : Processor) (group : MultiPartitionGroup) (got : Bool) (acks : List (ℤ × ℤ))
      → is_bad_response (process_partitions limit p group got acks false).end ≡ false
  process_partitions-whole p group got [] = unfold process_partitions in refl
  process_partitions-whole p group got ((id, code) ∷ acks) =
      elim (Option-cases (find_partition id group)) [
        | inl e ↦ rw (process_partitions-missing limit p group got id code acks false e) refl
        | inr (ms, e) ↦
            let q = process_one_ack limit p ms code in
            rw (process_partitions-found limit p group got id code acks false ms e)
              (process_partitions-whole q.0 (erase_partition id group) (got || not q.1) acks)
      ]

  process_topics-whole :
      (p : Processor) (all_topics : AllTopics) (got bad : Bool) (topics : List TopicAcks)
      → All (λ (t : TopicAcks). t.truncated ≡ false) topics
      → is_thrown (process_topics limit p all_topics got bad topics false) ≡ false
  unfolding process_topics
  process_topics-whole p all_topics got bad [] h = finish-not_thrown p all_topics got bad
  process_topics-whole p all_topics got bad (t ∷ topics) h =
      elim (Option-cases (find_group t.topic all_topics)) [
        | inl e ↦ rw (e, process_topics) (finish-not_thrown p all_topics got true)
        | inr (group, e) ↦
            let r = process_partitions limit p group got t.acks t.truncated in
            let rest = erase_topic t.topic all_topics in
            let bad' = bad || is_unexpected r.end in
            let left = set_group t.topic r.group all_topics in
            let good : is_bad_response r.end ≡ false =
              ap (λ b. is_bad_response (process_partitions limit p group got t.acks b).end) h.0
              ∙ process_partitions-whole p group got t.acks in
            rw (e, process_topics)
              (elim (Bool-cases (is_nil r.group)) [
                | inl n ↦
                    rw (good, n)
                      (process_topics-whole r.processor rest r.got_pause_ack bad' topics h.1)
                | inr n ↦ rw (good, n) (finish-not_thrown r.processor left r.got_pause_ack true)
              ])
      ]

  process_response-whole :
      (p : Processor) (request : ProduceRequest) (response : Response)
      → IsWhole response
      → is_thrown (process_response limit p request (some response)) ≡ false
  unfolding process_response
  process_response-whole p request response h =
      elim (Bool-cases (eq_ℤ response.corr_id request.corr_id)) [
        | inl e ↦
            rw (e, h.0) (process_topics-whole p request.all_topics false false response.topics h.1)
        | inr e ↦ rw e refl
      ]

module _ (conf : MsgDeliveryConf) (now : ℕ) where
  act_on_processed-destroys_none :
      (c : Connector) (r : Processed)
      → is_thrown r ≡ false
      → (act_on_processed conf now c r).destroyed ≡ []
  unfolding act_on_processed
  act_on_processed-destroys_none c (acts keep_running p) h = refl
  act_on_processed-destroys_none c (acts pause_and_defer_finish p) h = refl
  act_on_processed-destroys_none c (acts pause_and_finish_now p) h = refl
  act_on_processed-destroys_none c (throws p left) h = absurd cc

  destroys_none :
      (c : Connector) (request : ProduceRequest) (later : List ProduceRequest) (response : Response)
      → IsWhole response
      → (process_single_produce_response conf now c request later (some response)).destroyed ≡ []
  unfolding process_single_produce_response
  destroys_none c request later response whole =
      let limit = conf.max_failed_delivery_attempts in
      let d = record c { ack_wait_queue = later } in
      act_on_processed-destroys_none d
        (process_response limit (new_processor d) request (some response))
        (process_response-whole limit (new_processor d) request response whole)

  -- If the request is the front of the queue of those that wait for a response, and the reader
  -- reads the response to its end, then for every test on messages ProcessSingleProduceResponse
  -- leaves as many messages that pass it with the connector, counting those acknowledged,
  -- discarded, waiting for a response or to be sent again, as before.
  pub process_single_produce_response-keeps :
      (test : Msg → Bool) (c : Connector) (request : ProduceRequest) (later : List ProduceRequest)
      (response : Response)
      → c.ack_wait_queue ≡ request ∷ later
      → IsWhole response
      → count_connector test
          (process_single_produce_response conf now c request later (some response)).connector
        ≡ count_connector test c
  process_single_produce_response-keeps test c request later response front whole = omega (
    arith,
    process_single_produce_response-count test conf now c request later (some response) front,
    ap (count_topics test) (destroys_none c request later response whole),
  )

  -- If the request is the front of the queue of those that wait for a response and the reader
  -- rejects the response at once, ProcessSingleProduceResponse asks the connector to stop, and for
  -- every test on messages the connector, counting those acknowledged, discarded, waiting for a
  -- response or to be sent again, has fewer messages that pass it than before by all those of the
  -- request.
  pub process_single_produce_response-loses :
      (test : Msg → Bool) (c : Connector) (request : ProduceRequest) (later : List ProduceRequest)
      → c.ack_wait_queue ≡ request ∷ later
      → let h = process_single_produce_response conf now c request later none in
        (h.keep_running ≡ false)
        × (count_connector test h.connector + count_topics test request.all_topics
            ≡ count_connector test c)
  unfolding process_single_produce_response act_on_processed process_response
  process_single_produce_response-loses test c request later front =
      (refl, process_single_produce_response-count test conf now c request later none front)
