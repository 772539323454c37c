-- ===== src/BrokerMsgQueue.antt =====
-- src/dory/msg_dispatch/broker_msg_queue.cc: the queue between the router thread and the thread of
-- one broker. Each method holds the mutex while it works on the lists, so it is one step here. The
-- semaphore SenderNotify is the number of its pending pushes. The monitoring counters are left out.
pub mod Conserve
pub mod Notify
use dory.Common.{
  ℕ, zero, suc, ◌+◌, ◌-◌, Bool, true, false, not, ◌&&◌, ◌||◌, List, [], ◌∷◌, ◌++◌, Option, none,
  some, if◌then◌else◌,
}
use dory.Common.Int.{ℤ, ltb_ℤ, leb_ℤ, min_ℤ}
use dory.Msg.{Msg, RoutingType, any_partition, partition_key}
use dory.MsgStateTracker.{
  MsgStateTracker, msg_enter_batching, msg_enter_send_wait, lists_enter_send_wait,
}
use dory.Batch.PerTopic.{PerTopicBatcher, is_enabled}
use dory.Batch.PerTopic
use dory.Batch.CombinedTopics.{CombinedTopicsBatcher}
use dory.Batch.CombinedTopics

pub record BrokerMsgQueue : Type 0 where
  pub sender_notify : ℕ
  pub per_topic_batcher : PerTopicBatcher
  pub combined_topics_batcher : CombinedTopicsBatcher
  pub ready_list : List (List Msg)
  pub msg_state_tracker : MsgStateTracker

pub record ExpiryStatus : Type 0 where
  pub opt_initial_expiry : Option ℤ
  pub opt_final_expiry : Option ℤ

abbrev pub cleared : ExpiryStatus
cleared = record { opt_initial_expiry = none; opt_final_expiry = none }

unfoldable pub min_opt_ts : Option ℤ → Option ℤ → Option ℤ
min_opt_ts (some t1) (some t2) = some (min_ℤ t1 t2)
min_opt_ts (some t1) none = some t1
min_opt_ts none (some t2) = some t2
min_opt_ts none none = none

abbrev pub is_nil {ℓ} : {A : Type ℓ} → List A → Bool
is_nil [] = true
is_nil (x ∷ xs) = false

-- What a try to batch a message leaves: the queue, the message if it was not taken, the deadlines.
pub record Tried : Type 0 where
  pub queue : BrokerMsgQueue
  pub left : Option Msg
  pub status : ExpiryStatus

-- If the message's pointer is empty now, the batcher holds the message, or has put it into a batch.
unfoldable pub note_batched : MsgStateTracker → Msg → Option Msg → MsgStateTracker
note_batched s m none = msg_enter_batching s m
note_batched s m (some left) = s

pub batch_per_topic : BrokerMsgQueue → ℤ → Msg → Tried
batch_per_topic q now m =
    let a = PerTopic.add_msg q.per_topic_batcher m now in
    record {
      queue = record q {
        per_topic_batcher = a.batcher;
        ready_list = q.ready_list ++ a.batches;
        msg_state_tracker =
            lists_enter_send_wait (note_batched q.msg_state_tracker m a.left) a.batches;
      };
      left = a.left;
      status = record {
        opt_initial_expiry = PerTopic.get_next_complete_time q.per_topic_batcher;
        opt_final_expiry = PerTopic.get_next_complete_time a.batcher;
      };
    }

abbrev skip_per_topic : BrokerMsgQueue → Msg → Tried
skip_per_topic q m = record {
  queue = q;
  left = some m;
  status = record {
    opt_initial_expiry = PerTopic.get_next_complete_time q.per_topic_batcher;
    opt_final_expiry = PerTopic.get_next_complete_time q.per_topic_batcher;
  };
}

pub try_batch_per_topic : BrokerMsgQueue → ℤ → Msg → Tried
try_batch_per_topic q now m =
    if not (is_enabled q.per_topic_batcher)
    then record { queue = q; left = some m; status = cleared }
    else elim m.routing_type [
      | partition_key ↦ batch_per_topic q now m
      | any_partition ↦ skip_per_topic q m
    ]

pub try_batch_combined_topics : BrokerMsgQueue → ℤ → Msg → Tried
try_batch_combined_topics q now m =
    let a = CombinedTopics.add_msg q.combined_topics_batcher m now in
    record {
      queue = record q {
        combined_topics_batcher = a.batcher;
        ready_list = q.ready_list ++ a.batches;
        msg_state_tracker =
            lists_enter_send_wait (note_batched q.msg_state_tracker m a.left) a.batches;
      };
      left = a.left;
      status = record {
        opt_initial_expiry = CombinedTopics.get_next_complete_time q.combined_topics_batcher;
        opt_final_expiry = CombinedTopics.get_next_complete_time a.batcher;
      };
    }

-- A message that no batcher took goes to the ready list by itself.
pub queue_alone : BrokerMsgQueue → Option Msg → BrokerMsgQueue
queue_alone q none = q
queue_alone q (some m) = record q {
  ready_list = q.ready_list ++ ((m ∷ []) ∷ []);
  msg_state_tracker = msg_enter_send_wait q.msg_state_tracker (m ∷ []);
}

-- The part of Put under the mutex: the queue and the deadlines of both batchers.
pub record Placed : Type 0 where
  pub queue : BrokerMsgQueue
  pub per_topic_status : ExpiryStatus
  pub combined_topics_status : ExpiryStatus

pub place_left : BrokerMsgQueue → ℤ → Option Msg → ExpiryStatus → Placed
place_left q now none status =
    let nct = CombinedTopics.get_next_complete_time q.combined_topics_batcher in
    record {
      queue = q;
      per_topic_status = status;
      combined_topics_status = record { opt_initial_expiry = nct; opt_final_expiry = nct };
    }
place_left q now (some m) status =
    let t = try_batch_combined_topics q now m in
    record {
      queue = queue_alone t.queue t.left;
      per_topic_status = status;
      combined_topics_status = t.status;
    }

pub place : BrokerMsgQueue → ℤ → Msg → Placed
place q now m = let t = try_batch_per_topic q now m in place_left t.queue now t.left t.status

-- Whether a deadline is defined now and was not, or is earlier than it was.
unfoldable pub expires_earlier : Option ℤ → Option ℤ → Bool
expires_earlier final none = elim final [ none ↦ false | some f ↦ true ]
expires_earlier final (some i) = elim final [ none ↦ false | some f ↦ ltb_ℤ f i ]

pub needs_notify : Bool → Bool → ExpiryStatus → ExpiryStatus → Bool
needs_notify empty_initial empty_final per_topic combined =
    (empty_initial && not empty_final)
    || expires_earlier (min_opt_ts per_topic.opt_final_expiry combined.opt_final_expiry)
        (min_opt_ts per_topic.opt_initial_expiry combined.opt_initial_expiry)

unfoldable pub notify_if : Bool → BrokerMsgQueue → BrokerMsgQueue
notify_if notify q = if notify then record q { sender_notify = suc q.sender_notify } else q

pub put : BrokerMsgQueue → ℤ → Msg → BrokerMsgQueue
put q now m =
    let p = place q now m in
    notify_if
      (needs_notify (is_nil q.ready_list) (is_nil p.queue.ready_list) p.per_topic_status
        p.combined_topics_status)
      p.queue

pub record Checked {ℓ} (B : Type ℓ) : Type ℓ where
  pub batcher : B
  pub batches : List (List Msg)
  pub status : ExpiryStatus

pub check_per_topic : PerTopicBatcher → ℤ → Checked PerTopicBatcher
check_per_topic b now =
    let initial = PerTopic.get_next_complete_time b in
    if CombinedTopics.is_due initial now
    then (let (b', batches) = PerTopic.get_complete_batches b now in
        record {
          batcher = b';
          batches = batches;
          status = record {
            opt_initial_expiry = initial;
            opt_final_expiry = PerTopic.get_next_complete_time b';
          };
        })
    else record {
      batcher = b;
      batches = [];
      status = record { opt_initial_expiry = initial; opt_final_expiry = initial };
    }

pub check_combined_topics : CombinedTopicsBatcher → ℤ → Checked CombinedTopicsBatcher
check_combined_topics b now =
    let initial = CombinedTopics.get_next_complete_time b in
    if CombinedTopics.is_due initial now
    then (let (b', batches) = CombinedTopics.take_batch b in
        record {
          batcher = b';
          batches = batches;
          status = record { opt_initial_expiry = initial; opt_final_expiry = none };
        })
    else record {
      batcher = b;
      batches = [];
      status = record { opt_initial_expiry = initial; opt_final_expiry = initial };
    }

-- The batches of the batcher with the earlier deadline come first.
pub in_order : Option ℤ → Option ℤ → List (List Msg) → List (List Msg) → List (List Msg)
in_order (some t1) (some t2) per_topic combined =
    if ltb_ℤ t1 t2 then per_topic ++ combined else combined ++ per_topic
in_order none t2 per_topic combined = per_topic ++ combined
in_order (some t1) none per_topic combined = per_topic ++ combined

pub check_both_batchers : BrokerMsgQueue → ℤ → Placed
check_both_batchers q now =
    let p = check_per_topic q.per_topic_batcher now in
    let c = check_combined_topics q.combined_topics_batcher now in
    record {
      queue = record q {
        per_topic_batcher = p.batcher;
        combined_topics_batcher = c.batcher;
        ready_list =
            q.ready_list
            ++ in_order p.status.opt_initial_expiry c.status.opt_initial_expiry p.batches c.batches;
        msg_state_tracker =
            lists_enter_send_wait (lists_enter_send_wait q.msg_state_tracker p.batches) c.batches;
      };
      per_topic_status = p.status;
      combined_topics_status = c.status;
    }

-- PutNow for a list of batches; the one for a message is that for a list of one.
pub put_now : BrokerMsgQueue → ℤ → List (List Msg) → BrokerMsgQueue
put_now q now [] = q
put_now q now (b ∷ bs) =
    let entered = record q {
      msg_state_tracker = lists_enter_send_wait q.msg_state_tracker (b ∷ bs);
    } in
    let checked = (check_both_batchers entered now).queue in
    notify_if (is_nil q.ready_list) (record checked { ready_list = checked.ready_list ++ (b ∷ bs) })

pub put_msg_now : BrokerMsgQueue → ℤ → Msg → BrokerMsgQueue
put_msg_now q now m =
    let entered = record q {
      msg_state_tracker = msg_enter_send_wait q.msg_state_tracker (m ∷ []);
    } in
    let checked = (check_both_batchers entered now).queue in
    notify_if (is_nil q.ready_list)
      (record checked { ready_list = checked.ready_list ++ ((m ∷ []) ∷ []) })

pub record Got : Type 0 where
  pub queue : BrokerMsgQueue
  pub ready_msgs : List (List Msg)
  pub next_batch_complete_time : Option ℤ

-- The caller's list gets the whole ready list appended; `none` is the return value false.
pub nonblocking_get : BrokerMsgQueue → ℤ → List (List Msg) → Got
nonblocking_get q now ready_msgs =
    let c = check_both_batchers q now in
    record {
      queue = record c.queue { ready_list = [] };
      ready_msgs = ready_msgs ++ c.queue.ready_list;
      next_batch_complete_time =
          min_opt_ts c.per_topic_status.opt_final_expiry c.combined_topics_status.opt_final_expiry;
    }

-- Get pops the semaphore first.
pub get : BrokerMsgQueue → ℤ → List (List Msg) → Got
get q now ready_msgs =
    nonblocking_get (record q { sender_notify = q.sender_notify - 1 }) now ready_msgs

pub combined_first : Option ℤ → Option ℤ → Bool
combined_first (some p) (some c) = ltb_ℤ c p
combined_first none c = false
combined_first (some p) none = false

pub get_all_msgs : BrokerMsgQueue → BrokerMsgQueue × List (List Msg)
get_all_msgs q =
    let per_topic_expiry = PerTopic.get_next_complete_time q.per_topic_batcher in
    let combined_expiry = CombinedTopics.get_next_complete_time q.combined_topics_batcher in
    let (p, per_topic) = PerTopic.get_all_batches q.per_topic_batcher in
    let (c, combined) = CombinedTopics.take_batch q.combined_topics_batcher in
    (
      record q {
        per_topic_batcher = p;
        combined_topics_batcher = c;
        ready_list = [];
        msg_state_tracker =
            lists_enter_send_wait (lists_enter_send_wait q.msg_state_tracker per_topic) combined;
      },
      q.ready_list
          ++ (if combined_first per_topic_expiry combined_expiry
              then combined ++ per_topic
              else per_topic ++ combined),
    )

-- Reset also clears the semaphore.
pub reset : BrokerMsgQueue → BrokerMsgQueue × List (List Msg)
reset q = get_all_msgs (record q { sender_notify = 0 })
