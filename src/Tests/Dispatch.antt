-- ===== src/Tests/Dispatch.antt =====
-- Runs of produce responses against their requests.
use dory.Common.{◌+◌, ◌≡◌, inr, refl, [], ◌∷◌, some, none, false}
use dory.Common.Int.{pos}
use dory.Common.Bytes.{bytes_eq}
use dory.MsgDispatch.Ack.{process_ack}
use dory.Msg.{ack_wait}
use dory.MsgStateTracker.{MsgStateTracker}
use dory.MsgDispatch.Request.{ProduceRequest}
use dory.MsgDispatch.Response.{Response, process_response}
use dory.MsgDispatch.Connector.{
  Connector, MsgDeliveryConf, process_single_produce_response, new_processor,
}
use dory.MsgDispatch.Count.{count_topics}
use dory.MsgDispatch.Conserve.{count_processor, count_processed, process_response-count}
use dory.MsgDispatch.Keeps.{count_connector}
use dory.MsgDispatch.Quiet.{EndsQuiet, process_response-EndsQuiet}
use dory.MsgDispatch.Whole.{
  process_single_produce_response-keeps, process_single_produce_response-loses,
}
use dory.Tests.Data.{topic_a, topic_b, msg_1, msg_2, msg_3, is_msg_1}

abbrev sent : MsgStateTracker
sent = record { states = λ a. ack_wait; topic_stats = []; new_count = pos 0 }

abbrev two_topics : ProduceRequest
two_topics = record {
  corr_id = pos 7;
  all_topics =
      (topic_a, (pos 0, msg_1 ∷ msg_2 ∷ []) ∷ []) ∷ (topic_b, (pos 1, msg_3 ∷ []) ∷ []) ∷ [];
}

-- An acknowledgement, and an error that asks for a pause.
abbrev half_acked : Response
half_acked = record {
  corr_id = pos 7;
  topics =
      record { topic = topic_a; acks = (pos 0, pos 0) ∷ []; truncated = false }
      ∷ record { topic = topic_b; acks = (pos 1, pos 6) ∷ []; truncated = false }
      ∷ [];
  truncated = false;
}

abbrev waiting : Connector
waiting = record {
  tracker = sent;
  failed_delivery_attempts = λ a. 0;
  ack_count = 0;
  acked = [];
  discarded = [];
  ack_wait_queue = two_topics ∷ [];
  no_ack_after_pause = [];
  got_ack_after_pause = [];
  request_factory = [];
  pause_in_progress = false;
  opt_in_progress_shutdown = none;
  pause_button = 0;
}

abbrev conf : MsgDeliveryConf
conf = record { max_failed_delivery_attempts = 5; dispatcher_restart_max_delay = 5000 }

process_response-count_example :
    count_processed is_msg_1
      (process_response 5 (new_processor waiting) two_topics (some half_acked))
    ≡ count_processor is_msg_1 (new_processor waiting) + count_topics is_msg_1 two_topics.all_topics
process_response-count_example =
    process_response-count is_msg_1 5 (new_processor waiting) two_topics (some half_acked)

process_response-EndsQuiet_example :
    EndsQuiet (process_response 5 (new_processor waiting) two_topics (some half_acked))
unfolding new_processor
process_response-EndsQuiet_example =
    process_response-EndsQuiet 5 (new_processor waiting) two_topics (some half_acked)
      (refl, inr refl)

process_single_produce_response-keeps_example :
    count_connector is_msg_1
      (process_single_produce_response conf 1000 waiting two_topics [] (some half_acked)).connector
    ≡ count_connector is_msg_1 waiting
process_single_produce_response-keeps_example =
    process_single_produce_response-keeps conf 1000 is_msg_1 waiting two_topics [] half_acked refl
      (refl, (refl, (refl, tt)))

process_single_produce_response-loses_example :
    ((process_single_produce_response conf 1000 waiting two_topics [] none).keep_running ≡ false)
    × (count_connector is_msg_1
            (process_single_produce_response conf 1000 waiting two_topics [] none).connector
          + count_topics is_msg_1 two_topics.all_topics
        ≡ count_connector is_msg_1 waiting)
process_single_produce_response-loses_example =
    process_single_produce_response-loses conf 1000 is_msg_1 waiting two_topics [] refl

-- The acknowledged messages are done, and the third waits for the pause.
half_acked_run :
    (process_single_produce_response conf 1000 waiting two_topics []
      (some half_acked)).connector.got_ack_after_pause
    ≡ (msg_3 ∷ []) ∷ []
unfolding process_single_produce_response bytes_eq process_ack
half_acked_run = refl
