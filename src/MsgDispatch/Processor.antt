-- ===== src/MsgDispatch/Processor.antt =====
-- src/dory/msg_dispatch/produce_response_processor.*: what one acknowledgement does to the messages of
-- its partition. Log lines and counters are left out.
use dory.Common.{ℕ, ◌+◌, ◌%◌, ◌^◌, Bool, true, false, List, [], ◌∷◌, ◌++◌, ltb, ◌==◌, if◌then◌else◌}
use dory.Common.Int.{ℤ}
use dory.Msg.{Msg}
use dory.MsgStateTracker.{
  MsgStateTracker, msg_enter_send_wait, lists_enter_send_wait, msg_enter_processed,
}
use dory.MsgDispatch.Ack.{
  AckResultAction, ok, resend, discard, pause, discard_and_pause, process_ack,
}
use dory.MsgDispatch.Request.{AllTopics, empty_all_topics}

-- The processor with what it shares with the dispatcher: the tracker, the failed delivery attempts
-- counted in each message by its address, the messages reported as acknowledged to the debug
-- logger, and those reported as discarded to the anomaly tracker.
pub record Processor : Type 0 where
  pub tracker : MsgStateTracker
  pub failed_delivery_attempts : ℕ → ℕ
  pub ack_count : ℕ
  pub acked : List Msg
  pub discarded : List Msg
  pub msgs_without_acks : List (List Msg)
  pub immediate_resend : List (List Msg)
  pub pause_and_resend : List (List Msg)

abbrev pub is_nil {ℓ} : {A : Type ℓ} → List A → Bool
is_nil [] = true
is_nil (x ∷ xs) = false

unfoldable pub discard_msgs : Processor → List Msg → Processor
discard_msgs p ms = record p {
  tracker = msg_enter_processed p.tracker ms;
  discarded = p.discarded ++ ms;
}

unfoldable pub process_no_ack_msgs : Processor → AllTopics → Processor
process_no_ack_msgs p all_topics =
    let lists = empty_all_topics all_topics in
    if is_nil lists then p else record p {
      tracker = lists_enter_send_wait p.tracker lists;
      msgs_without_acks = p.msgs_without_acks ++ lists;
    }

module _ (max_failed_delivery_attempts : ℕ) where
  -- One message of the loop: its new count, and whether it is over the limit.
  unfoldable pub count_attempt : Processor → Msg → Processor × Bool
  unfolding discard_msgs
  count_attempt p m =
      let n = (p.failed_delivery_attempts m.addr + 1) % 2 ^ 64 in
      let counted = record p {
        failed_delivery_attempts = λ a. if a == m.addr then n else p.failed_delivery_attempts a;
      } in
      if ltb max_failed_delivery_attempts n
      then (discard_msgs counted (m ∷ []), true)
      else (counted, false)

  -- The messages that stay in the set.
  unfoldable pub count_failed_delivery_attempt : Processor → List Msg → Processor × List Msg
  unfolding count_attempt
  count_failed_delivery_attempt p [] = (p, [])
  count_failed_delivery_attempt p (m ∷ ms) =
      let (counted, over) = count_attempt p m in
      let (rest, kept) = count_failed_delivery_attempt counted ms in
      (rest, if over then kept else m ∷ kept)

  unfoldable pub process_immediate_resend_msg_set : Processor → List Msg → Processor
  unfolding count_failed_delivery_attempt
  process_immediate_resend_msg_set p ms =
      let (q, kept) = count_failed_delivery_attempt p ms in
      if is_nil kept then q else record q {
        tracker = msg_enter_send_wait q.tracker kept;
        immediate_resend = q.immediate_resend ++ (kept ∷ []);
      }

  unfoldable pub process_pause_and_resend_msg_set : Processor → List Msg → Processor
  unfolding count_failed_delivery_attempt
  process_pause_and_resend_msg_set p ms =
      let (q, kept) = count_failed_delivery_attempt p ms in
      if is_nil kept then q else record q {
        tracker = msg_enter_send_wait q.tracker kept;
        pause_and_resend = q.pause_and_resend ++ (kept ∷ []);
      }

  -- The switch of ProcessOneAck; false asks for a pause.
  unfoldable pub act_on_ack : AckResultAction → Processor → List Msg → Processor × Bool
  unfolding process_immediate_resend_msg_set process_pause_and_resend_msg_set discard_msgs
  act_on_ack ok p ms =
      (record p { tracker = msg_enter_processed p.tracker ms; acked = p.acked ++ ms }, true)
  act_on_ack resend p ms = (process_immediate_resend_msg_set p ms, true)
  act_on_ack discard p ms = (discard_msgs p ms, true)
  act_on_ack pause p ms = (process_pause_and_resend_msg_set p ms, false)
  act_on_ack discard_and_pause p ms = (discard_msgs p ms, false)

  unfoldable pub process_one_ack : Processor → List Msg → ℤ → Processor × Bool
  unfolding act_on_ack
  process_one_ack p ms ack =
      act_on_ack (process_ack ack) (record p { ack_count = p.ack_count + 1 }) ms
