-- ===== src/MsgDispatch/Keeps.antt =====
-- The messages of a connector through ProcessSingleProduceResponse of src/dory/msg_dispatch/connector.cc.
use dory.Common.{
  ℕ, ◌+◌, ◌≡◌, refl, ap, inl, inr, Bool, false, List, [], ◌∷◌, Option, arith, All, count_if,
  count_all, count_all-append,
}
use dory.Msg.{Msg}
use dory.MsgDispatch.Request.{ProduceRequest}
use dory.MsgDispatch.Processor.{Processor}
use dory.MsgDispatch.Response.{
  TopicAcks, Response, keep_running, pause_and_defer_finish, pause_and_finish_now, Processed, acts,
  throws, process_response,
}
use dory.MsgDispatch.Count.{count_topics}
use dory.MsgDispatch.Conserve.{count_processed, process_response-count}
use dory.MsgDispatch.Quiet.{IsQuiet, EndsQuiet, process_response-EndsQuiet}
use dory.MsgDispatch.Connector.{
  Connector, MsgDeliveryConf, new_processor, share, take_resends, set_pause_in_progress,
  set_fast_shutdown_state, act_on_processed, process_single_produce_response,
}

no_pause : (p : Processor) → IsQuiet false p → p.pause_and_resend ≡ []
no_pause p (w, inl e) = absurd cc
no_pause p (w, inr e) = e

module _ (test : Msg → Bool) where
  abbrev pub count_requests : List ProduceRequest → ℕ
  count_requests [] = 0
  count_requests (r ∷ rs) = count_topics test r.all_topics + count_requests rs

  -- How many messages of a connector pass a test: acknowledged, discarded, waiting for a response, or to
  -- be sent again.
  abbrev pub count_connector : Connector → ℕ
  count_connector c =
      count_if test c.acked
      + count_if test c.discarded
      + count_requests c.ack_wait_queue
      + count_all test c.no_ack_after_pause
      + count_all test c.got_ack_after_pause
      + count_all test c.request_factory

  module _ (conf : MsgDeliveryConf) (now : ℕ) where
    act_on_processed-count :
        (c : Connector) (r : Processed)
        → EndsQuiet r
        → let h = act_on_processed conf now c r in
          count_connector h.connector
            + count_topics test h.destroyed
            + count_if test c.acked
            + count_if test c.discarded
          ≡ count_connector c + count_processed test r
    unfolding act_on_processed share take_resends set_pause_in_progress set_fast_shutdown_state
    act_on_processed-count c (acts keep_running p) h = omega (
      arith,
      ap (count_all test) h.0,
      ap (count_all test) (no_pause p h),
      count_all-append test p.immediate_resend c.request_factory,
    )
    act_on_processed-count c (acts pause_and_defer_finish p) h = omega (
      arith,
      ap (count_all test) h.0,
      count_all-append test p.immediate_resend c.request_factory,
      count_all-append test c.got_ack_after_pause p.pause_and_resend,
    )
    act_on_processed-count c (acts pause_and_finish_now p) h = omega (
      arith,
      count_all-append test p.immediate_resend c.request_factory,
      count_all-append test c.got_ack_after_pause p.pause_and_resend,
      count_all-append test c.no_ack_after_pause p.msgs_without_acks,
    )
    act_on_processed-count c (throws p left) h = omega (
      arith,
      ap (count_all test) h.0,
      count_all-append test p.immediate_resend c.request_factory,
      count_all-append test c.got_ack_after_pause p.pause_and_resend,
    )

    -- A response neither adds a message to those that the connector holds and those destroyed nor
    -- takes one away, for each test of messages.
    pub process_single_produce_response-count :
        (c : Connector) (request : ProduceRequest) (later : List ProduceRequest)
        (response : Option Response)
        → c.ack_wait_queue ≡ request ∷ later
        → let h = process_single_produce_response conf now c request later response in
          count_connector h.connector + count_topics test h.destroyed ≡ count_connector c
    unfolding process_single_produce_response new_processor
    process_single_produce_response-count c request later response front =
        let limit = conf.max_failed_delivery_attempts in
        let d = record c { ack_wait_queue = later } in
        let p = new_processor d in
        let r = process_response limit p request response in
        omega (
          arith,
          act_on_processed-count d r
              (process_response-EndsQuiet limit p request response (refl, inr refl)),
          process_response-count test limit p request response,
          ap count_requests front,
        )

-- No topic of the response ends early, and neither does the response.
abbrev pub IsWhole : Response → Type 0
IsWhole response =
    (response.truncated ≡ false) × All (λ (t : TopicAcks). t.truncated ≡ false) response.topics
