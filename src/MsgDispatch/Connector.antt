-- ===== src/MsgDispatch/Connector.antt =====
-- src/dory/msg_dispatch/connector.cc: what a connector does with a produce response. Of the connector
-- there are the lists that hold messages after they are sent, and what it shares with the
-- dispatcher; now is the wall clock in milliseconds.
use dory.Common.{ℕ, ◌+◌, Bool, true, false, List, [], ◌++◌, Option, none, some, min, if◌then◌else◌}
use dory.Common.Word.{add_u64}
use dory.Msg.{Msg}
use dory.MsgStateTracker.{MsgStateTracker}
use dory.MsgDispatch.Request.{AllTopics, ProduceRequest}
use dory.MsgDispatch.Processor.{Processor}
use dory.MsgDispatch.Response.{
  Response, keep_running, pause_and_defer_finish, pause_and_finish_now, Processed, acts, throws,
  process_response,
}

pub record InProgressShutdown : Type 0 where
  pub deadline : ℕ
  pub fast_shutdown : Bool

pub record Connector : Type 0 where
  pub tracker : MsgStateTracker
  pub failed_delivery_attempts : ℕ → ℕ
  pub ack_count : ℕ
  pub acked : List Msg
  pub discarded : List Msg
  pub ack_wait_queue : List ProduceRequest
  pub no_ack_after_pause : List (List Msg)
  pub got_ack_after_pause : List (List Msg)
  pub request_factory : List (List Msg)
  pub pause_in_progress : Bool
  pub opt_in_progress_shutdown : Option InProgressShutdown
  pub pause_button : ℕ

pub record MsgDeliveryConf : Type 0 where
  pub max_failed_delivery_attempts : ℕ
  pub dispatcher_restart_max_delay : ℕ

unfoldable pub set_fast_shutdown_state : MsgDeliveryConf → ℕ → Connector → Connector
set_fast_shutdown_state conf now c =
    let deadline = add_u64 now conf.dispatcher_restart_max_delay in
    record c {
      opt_in_progress_shutdown = some (elim c.opt_in_progress_shutdown [
        | none ↦ record { deadline = deadline; fast_shutdown = true }
        | some s ↦ record { deadline = min s.deadline deadline; fast_shutdown = true }
      ]);
    }

unfoldable pub set_pause_in_progress : MsgDeliveryConf → ℕ → Connector → Connector
unfolding set_fast_shutdown_state
set_pause_in_progress conf now c =
    set_fast_shutdown_state conf now (record c { pause_in_progress = true })

unfoldable pub new_processor : Connector → Processor
new_processor c = record {
  tracker = c.tracker;
  failed_delivery_attempts = c.failed_delivery_attempts;
  ack_count = c.ack_count;
  acked = c.acked;
  discarded = c.discarded;
  msgs_without_acks = [];
  immediate_resend = [];
  pause_and_resend = [];
}

-- The connector after the processor's work on what they share.
unfoldable pub share : Connector → Processor → Connector
share c p = record c {
  tracker = p.tracker;
  failed_delivery_attempts = p.failed_delivery_attempts;
  ack_count = p.ack_count;
  acked = p.acked;
  discarded = p.discarded;
}

-- What a response comes to: whether to go on, and what the request holds when it goes out of scope,
-- whose messages are destroyed.
pub record Handled : Type 0 where
  pub connector : Connector
  pub keep_running : Bool
  pub destroyed : AllTopics

-- `if (pause)`, and PutFront of what may be sent again at once.
unfoldable pub take_resends : Bool → Connector → Processor → Connector
take_resends pause c p =
    let paused = record c {
      pause_button = c.pause_button + 1;
      got_ack_after_pause = c.got_ack_after_pause ++ p.pause_and_resend;
    } in
    let d = if pause then paused else c in
    record d { request_factory = p.immediate_resend ++ d.request_factory }

module _ (conf : MsgDeliveryConf) (now : ℕ) where
  unfoldable pub act_on_processed : Connector → Processed → Handled
  unfolding share take_resends set_pause_in_progress
  act_on_processed c (acts keep_running p) = record {
    connector = take_resends false (share c p) p;
    keep_running = true;
    destroyed = [];
  }
  act_on_processed c (acts pause_and_defer_finish p) = record {
    connector = take_resends true (set_pause_in_progress conf now (share c p)) p;
    keep_running = true;
    destroyed = [];
  }
  act_on_processed c (acts pause_and_finish_now p) =
      let d = share c p in
      let e = record d { no_ack_after_pause = d.no_ack_after_pause ++ p.msgs_without_acks } in
      record { connector = take_resends true e p; keep_running = false; destroyed = [] }
  act_on_processed c (throws p left) = record {
    connector = take_resends true (share c p) p;
    keep_running = false;
    destroyed = left;
  }

  -- ProcessSingleProduceResponse, which asserts that a request waits.
  unfoldable pub process_single_produce_response :
      Connector → ProduceRequest → List ProduceRequest → Option Response → Handled
  unfolding act_on_processed process_response new_processor
  process_single_produce_response c request later response =
      let d = record c { ack_wait_queue = later } in
      act_on_processed d
        (process_response conf.max_failed_delivery_attempts (new_processor d) request response)
