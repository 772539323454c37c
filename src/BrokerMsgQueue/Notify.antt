-- ===== src/BrokerMsgQueue/Notify.antt =====
-- When the queue wakes the broker's thread, as the comments on GetSenderNotifyFd and Put say.
use dory.Common.{
  ◌+◌, ◌≡◌, refl, sym, ap, ◌∙◌, Bool, true, false, not, ◌&&◌, ◌||◌, Option, none, some, arith,
  one_if, ◌⊎◌, Bool-cases, inl, inr, List,
}
use dory.Common.Int.{ℤ}
use dory.Msg.{Msg}
use dory.Batch.PerTopic.{is_enabled}
use dory.Batch.PerTopic
use dory.Batch.CombinedTopics
use dory.Batch.Core
use dory.Batch.Core.{clear_state}
use dory.Batch.PerTopic.{PerTopicBatcher}
use dory.Batch.CombinedTopics.{CombinedTopicsBatcher}
use mathlib.Core.Path.{ap₂}
use dory.BrokerMsgQueue.{
  check_per_topic, check_combined_topics, check_both_batchers, nonblocking_get, BrokerMsgQueue,
  Tried, ExpiryStatus, min_opt_ts, is_nil, batch_per_topic, try_batch_per_topic,
  try_batch_combined_topics, queue_alone, place_left, place, expires_earlier, needs_notify,
  notify_if, put,
}

-- When the next pending batch is due.
pub next_deadline : BrokerMsgQueue → Option ℤ
next_deadline q =
    min_opt_ts (PerTopic.get_next_complete_time q.per_topic_batcher)
      (CombinedTopics.get_next_complete_time q.combined_topics_batcher)

-- The two conditions of the header: the ready list becomes nonempty, or the next deadline is set or
-- moves to an earlier time.
pub wakes : BrokerMsgQueue → BrokerMsgQueue → Bool
wakes q q' =
    (is_nil q.ready_list && not (is_nil q'.ready_list))
    || expires_earlier (next_deadline q') (next_deadline q)

-- What the deadlines and the semaphore of a placed queue have to be.
record IsPlaced (q q' : BrokerMsgQueue) (per_topic combined : ExpiryStatus) : Type 0 where
  per_topic_initial :
      per_topic.opt_initial_expiry ≡ PerTopic.get_next_complete_time q.per_topic_batcher
  per_topic_final :
      per_topic.opt_final_expiry ≡ PerTopic.get_next_complete_time q'.per_topic_batcher
  combined_initial :
      combined.opt_initial_expiry ≡ CombinedTopics.get_next_complete_time q.combined_topics_batcher
  combined_final :
      combined.opt_final_expiry ≡ CombinedTopics.get_next_complete_time q'.combined_topics_batcher
  same_notify : q'.sender_notify ≡ q.sender_notify

record IsTried (q : BrokerMsgQueue) (t : Tried) : Type 0 where
  initial : t.status.opt_initial_expiry ≡ PerTopic.get_next_complete_time q.per_topic_batcher
  final : t.status.opt_final_expiry ≡ PerTopic.get_next_complete_time t.queue.per_topic_batcher
  same_combined : t.queue.combined_topics_batcher ≡ q.combined_topics_batcher
  same_notify : t.queue.sender_notify ≡ q.sender_notify

-- A batcher that is not enabled has no pending batch.
abbrev pub IsIdleIfDisabled : BrokerMsgQueue → Type 0
IsIdleIfDisabled q =
    (is_enabled q.per_topic_batcher ≡ true)
    ⊎ (PerTopic.get_next_complete_time q.per_topic_batcher ≡ none)

try_batch_per_topic-IsTried :
    (q : BrokerMsgQueue) (now : ℤ) (m : Msg)
    → IsIdleIfDisabled q
    → IsTried q (try_batch_per_topic q now m)
unfolding try_batch_per_topic batch_per_topic
try_batch_per_topic-IsTried q now m idle = ground arith

queue_alone-keeps :
    (q : BrokerMsgQueue) (left : Option Msg)
    → let q' = queue_alone q left in
      (q'.per_topic_batcher ≡ q.per_topic_batcher)
      × (q'.combined_topics_batcher ≡ q.combined_topics_batcher)
      × (q'.sender_notify ≡ q.sender_notify)
unfolding queue_alone
queue_alone-keeps q none = (refl, refl, refl)
queue_alone-keeps q (some m) = (refl, refl, refl)

place_left-IsPlaced :
    (q : BrokerMsgQueue) (t : Tried) (now : ℤ) (left : Option Msg)
    → IsTried q t
    → let p = place_left t.queue now left t.status in
      IsPlaced q p.queue p.per_topic_status p.combined_topics_status
unfolding place_left try_batch_combined_topics
place_left-IsPlaced q t now none v = record {
  per_topic_initial = v.initial;
  per_topic_final = v.final;
  combined_initial = ap CombinedTopics.get_next_complete_time v.same_combined;
  combined_final = refl;
  same_notify = v.same_notify;
}
place_left-IsPlaced q t now (some m) v =
    let tried = try_batch_combined_topics t.queue now m in
    let kept = queue_alone-keeps tried.queue tried.left in
    record {
      per_topic_initial = v.initial;
      per_topic_final = v.final ∙ ap PerTopic.get_next_complete_time (sym kept.0);
      combined_initial = ap CombinedTopics.get_next_complete_time v.same_combined;
      combined_final = ap CombinedTopics.get_next_complete_time (sym kept.1);
      same_notify = kept.2 ∙ v.same_notify;
    }

wakes-notify_if : (b : Bool) (q q' : BrokerMsgQueue) → wakes q (notify_if b q') ≡ wakes q q'
unfolding wakes next_deadline notify_if
wakes-notify_if true q q' = refl
wakes-notify_if false q q' = refl

sender_notify-notify_if :
    (b : Bool) (q : BrokerMsgQueue) → (notify_if b q).sender_notify ≡ q.sender_notify + one_if b
unfolding notify_if
sender_notify-notify_if true q = omega arith
sender_notify-notify_if false q = omega arith

needs_notify-wakes :
    (q q' : BrokerMsgQueue) (per_topic combined : ExpiryStatus)
    → IsPlaced q q' per_topic combined
    → needs_notify (is_nil q.ready_list) (is_nil q'.ready_list) per_topic combined ≡ wakes q q'
unfolding needs_notify wakes next_deadline
needs_notify-wakes q q' per_topic combined v =
    rw (v.per_topic_initial, v.per_topic_final, v.combined_initial, v.combined_final)

-- If the per-topic batcher is enabled or has no pending deadline, Put pushes the semaphore exactly
-- once when the ready list becomes nonempty or when the earlier deadline of the two batchers is set
-- or moves to an earlier time, and otherwise leaves it.
pub put-wakes :
    (q : BrokerMsgQueue) (now : ℤ) (m : Msg)
    → IsIdleIfDisabled q
    → let q' = put q now m in q'.sender_notify ≡ q.sender_notify + one_if (wakes q q')
unfolding put place
put-wakes q now m idle =
    let t = try_batch_per_topic q now m in
    let p = place_left t.queue now t.left t.status in
    let placed = place_left-IsPlaced q t now t.left (try_batch_per_topic-IsTried q now m idle) in
    let b =
      needs_notify (is_nil q.ready_list) (is_nil p.queue.ready_list) p.per_topic_status
        p.combined_topics_status in
    rw (wakes-notify_if b q p.queue, ← needs_notify-wakes q p.queue _ _ placed)
      (omega (arith, sender_notify-notify_if b p.queue, placed.same_notify))

take_batch-deadline :
    (b : CombinedTopicsBatcher)
    → CombinedTopics.get_next_complete_time (CombinedTopics.take_batch b).0 ≡ none
unfolding CombinedTopics.get_next_complete_time CombinedTopics.take_batch
    Core.get_next_complete_time clear_state
take_batch-deadline b = ground arith

check_per_topic-final :
    (b : PerTopicBatcher) (now : ℤ)
    → (check_per_topic b now).status.opt_final_expiry
      ≡ PerTopic.get_next_complete_time (check_per_topic b now).batcher
unfolding check_per_topic
check_per_topic-final b now =
    elim (Bool-cases (CombinedTopics.is_due (PerTopic.get_next_complete_time b) now)) [
      | inl e ↦ rw e refl
      | inr e ↦ rw e refl
    ]

check_combined_topics-final :
    (b : CombinedTopicsBatcher) (now : ℤ)
    → (check_combined_topics b now).status.opt_final_expiry
      ≡ CombinedTopics.get_next_complete_time (check_combined_topics b now).batcher
unfolding check_combined_topics
check_combined_topics-final b now =
    elim (Bool-cases (CombinedTopics.is_due (CombinedTopics.get_next_complete_time b) now)) [
      | inl e ↦ rw e (sym (take_batch-deadline b))
      | inr e ↦ rw e refl
    ]

-- The next batch completion time that NonblockingGet returns is the earlier one of the two
-- batchers' deadlines as they are after the call, or none if neither has one.
pub nonblocking_get-next_deadline :
    (q : BrokerMsgQueue) (now : ℤ) (ready_msgs : List (List Msg))
    → (nonblocking_get q now ready_msgs).next_batch_complete_time
      ≡ next_deadline (nonblocking_get q now ready_msgs).queue
unfolding nonblocking_get check_both_batchers next_deadline
nonblocking_get-next_deadline q now ready_msgs =
    ap₂ min_opt_ts (check_per_topic-final q.per_topic_batcher now)
      (check_combined_topics-final q.combined_topics_batcher now)
