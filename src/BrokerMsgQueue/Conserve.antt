-- ===== src/BrokerMsgQueue/Conserve.antt =====
-- Counting the messages of src/dory/msg_dispatch/broker_msg_queue.cc through its methods.
use dory.Common.{
  ℕ, ◌+◌, ◌≡◌, refl, ◌∙◌, Bool, true, false, List, [], ◌∷◌, ◌++◌, Option, none, some, arith,
  count_if, count_all, count_all-append, one_if, to_list, if◌then◌else◌,
}
use dory.Common.Int.{ℤ}
use dory.Msg.{Msg}
use dory.Batch.PerTopic.{PerTopicBatcher, is_enabled}
use dory.Batch.PerTopic
use dory.Batch.PerTopic.Conserve.{
  count_entries, add_msg-count, get_complete_batches-count, get_all_batches-count,
}
use dory.Batch.CombinedTopics.{CombinedTopicsBatcher}
use dory.Batch.CombinedTopics
use dory.Batch.TopicMap.{count_map}
use dory.MsgStateTracker.{MsgStateTracker, lists_enter_send_wait, msg_enter_send_wait}
use dory.BrokerMsgQueue.{
  BrokerMsgQueue, ExpiryStatus, batch_per_topic, try_batch_per_topic, try_batch_combined_topics,
  queue_alone, place_left, place, notify_if, put, check_per_topic, check_combined_topics, in_order,
  check_both_batchers, put_now, put_msg_now, nonblocking_get, get_all_msgs, is_nil,
}

-- How many messages of the queue pass a test, in the ready list and in both batchers.
pub count_queue : (Msg → Bool) → BrokerMsgQueue → ℕ
count_queue p q =
    count_all p q.ready_list
    + count_entries p q.per_topic_batcher.batch_map
    + count_map p q.combined_topics_batcher.topic_map

module _ (p : Msg → Bool) where
  batch_per_topic-count :
      (q : BrokerMsgQueue) (now : ℤ) (m : Msg)
      → let t = batch_per_topic q now m in
        count_queue p t.queue + count_if p (to_list t.left) ≡ count_queue p q + one_if (p m)
  unfolding batch_per_topic count_queue
  batch_per_topic-count q now m = omega (
    arith,
    add_msg-count p q.per_topic_batcher m now,
    count_all-append p q.ready_list (PerTopic.add_msg q.per_topic_batcher m now).batches,
  )

  try_batch_per_topic-count :
      (q : BrokerMsgQueue) (now : ℤ) (m : Msg)
      → let t = try_batch_per_topic q now m in
        count_queue p t.queue + count_if p (to_list t.left) ≡ count_queue p q + one_if (p m)
  unfolding try_batch_per_topic
  try_batch_per_topic-count q now m = ground (arith, batch_per_topic-count q now m)

  try_batch_combined_topics-count :
      (q : BrokerMsgQueue) (now : ℤ) (m : Msg)
      → let t = try_batch_combined_topics q now m in
        count_queue p t.queue + count_if p (to_list t.left) ≡ count_queue p q + one_if (p m)
  unfolding try_batch_combined_topics count_queue
  try_batch_combined_topics-count q now m = omega (
    arith,
    CombinedTopics.add_msg-count_topics p q.combined_topics_batcher m now,
    count_all-append p q.ready_list
        (CombinedTopics.add_msg q.combined_topics_batcher m now).batches,
  )

  queue_alone-count :
      (q : BrokerMsgQueue) (left : Option Msg)
      → count_queue p (queue_alone q left) ≡ count_queue p q + count_if p (to_list left)
  unfolding queue_alone count_queue
  queue_alone-count q none = omega arith
  queue_alone-count q (some m) = omega (arith, count_all-append p q.ready_list ((m ∷ []) ∷ []))

  place_left-count :
      (q : BrokerMsgQueue) (now : ℤ) (left : Option Msg) (status : ExpiryStatus)
      → count_queue p (place_left q now left status).queue
        ≡ count_queue p q + count_if p (to_list left)
  unfolding place_left
  place_left-count q now none status = omega arith
  place_left-count q now (some m) status =
      let t = try_batch_combined_topics q now m in
      omega (arith, queue_alone-count t.queue t.left, try_batch_combined_topics-count q now m)

  notify_if-count :
      (notify : Bool) (q : BrokerMsgQueue) → count_queue p (notify_if notify q) ≡ count_queue p q
  unfolding notify_if count_queue
  notify_if-count true q = refl
  notify_if-count false q = refl

  -- For every test on messages, the number of messages in the queue (the ready list and both
  -- batchers) that pass it grows by one with Put if the new message passes it, and else stays: Put
  -- adds the message once and neither loses nor repeats another.
  pub put-count :
      (q : BrokerMsgQueue) (now : ℤ) (m : Msg)
      → count_queue p (put q now m) ≡ count_queue p q + one_if (p m)
  unfolding put place
  put-count q now m =
      let t = try_batch_per_topic q now m in
      omega (
        arith,
        notify_if-count _ (place q now m).queue,
        place_left-count t.queue now t.left t.status,
        try_batch_per_topic-count q now m,
      )

  check_per_topic-count :
      (b : PerTopicBatcher) (now : ℤ)
      → let c = check_per_topic b now in
        count_all p c.batches + count_entries p c.batcher.batch_map ≡ count_entries p b.batch_map
  unfolding check_per_topic
  check_per_topic-count b now = ground (arith, get_complete_batches-count p b now)

  check_combined_topics-count :
      (b : CombinedTopicsBatcher) (now : ℤ)
      → let c = check_combined_topics b now in
        count_all p c.batches + count_map p c.batcher.topic_map ≡ count_map p b.topic_map
  unfolding check_combined_topics
  check_combined_topics-count b now = ground (arith, CombinedTopics.take_batch-count p b)

  in_order-count :
      (t1 t2 : Option ℤ) (xs ys : List (List Msg))
      → count_all p (in_order t1 t2 xs ys) ≡ count_all p xs + count_all p ys
  unfolding in_order
  in_order-count none t2 xs ys = count_all-append p xs ys
  in_order-count (some t1) none xs ys = count_all-append p xs ys
  in_order-count (some t1) (some t2) xs ys =
      ground (arith, count_all-append p xs ys, count_all-append p ys xs)

  check_both_batchers-count :
      (q : BrokerMsgQueue) (now : ℤ)
      → count_queue p (check_both_batchers q now).queue ≡ count_queue p q
  unfolding check_both_batchers count_queue
  check_both_batchers-count q now =
      let x = check_per_topic q.per_topic_batcher now in
      let y = check_combined_topics q.combined_topics_batcher now in
      let i = x.status.opt_initial_expiry in
      let j = y.status.opt_initial_expiry in
      omega (
        arith,
        check_per_topic-count q.per_topic_batcher now,
        check_combined_topics-count q.combined_topics_batcher now,
        in_order-count i j x.batches y.batches,
        count_all-append p q.ready_list (in_order i j x.batches y.batches),
      )

  ready-append-count :
      (q : BrokerMsgQueue) (batches : List (List Msg))
      → count_queue p (record q { ready_list = q.ready_list ++ batches })
        ≡ count_queue p q + count_all p batches
  unfolding count_queue
  ready-append-count q batches = omega (arith, count_all-append p q.ready_list batches)

  tracked-count :
      (q : BrokerMsgQueue) (s : MsgStateTracker)
      → count_queue p (record q { msg_state_tracker = s }) ≡ count_queue p q
  unfolding count_queue
  tracked-count q s = refl

  emptied-count :
      (q : BrokerMsgQueue)
      → count_queue p (record q { ready_list = [] }) + count_all p q.ready_list ≡ count_queue p q
  unfolding count_queue
  emptied-count q = omega arith

  either_order-count :
      (b : Bool) (xs ys : List (List Msg))
      → count_all p (if b then ys ++ xs else xs ++ ys) ≡ count_all p xs + count_all p ys
  either_order-count true xs ys = omega (arith, count_all-append p ys xs)
  either_order-count false xs ys = count_all-append p xs ys

  taken-empty :
      (b : CombinedTopicsBatcher) → count_map p (CombinedTopics.take_batch b).0.topic_map ≡ 0
  unfolding CombinedTopics.take_batch count_map
  taken-empty b = refl

  -- For every test on messages, PutNow of a list of batches adds to the queue as many messages that
  -- pass it as the batches have.
  pub put_now-count :
      (q : BrokerMsgQueue) (now : ℤ) (batches : List (List Msg))
      → count_queue p (put_now q now batches) ≡ count_queue p q + count_all p batches
  unfolding put_now
  put_now-count q now [] = omega arith
  put_now-count q now (b ∷ bs) =
      let s = lists_enter_send_wait q.msg_state_tracker (b ∷ bs) in
      let checked = (check_both_batchers (record q { msg_state_tracker = s }) now).queue in
      omega (
        arith,
        notify_if-count (is_nil q.ready_list)
            (record checked { ready_list = checked.ready_list ++ (b ∷ bs) }),
        ready-append-count checked (b ∷ bs),
        check_both_batchers-count (record q { msg_state_tracker = s }) now,
        tracked-count q s,
      )

  -- PutNow of one message adds it to the queue.
  pub put_msg_now-count :
      (q : BrokerMsgQueue) (now : ℤ) (m : Msg)
      → count_queue p (put_msg_now q now m) ≡ count_queue p q + one_if (p m)
  unfolding put_msg_now
  put_msg_now-count q now m =
      let s = msg_enter_send_wait q.msg_state_tracker (m ∷ []) in
      let checked = (check_both_batchers (record q { msg_state_tracker = s }) now).queue in
      omega (
        arith,
        notify_if-count (is_nil q.ready_list)
            (record checked { ready_list = checked.ready_list ++ ((m ∷ []) ∷ []) }),
        ready-append-count checked ((m ∷ []) ∷ []),
        check_both_batchers-count (record q { msg_state_tracker = s }) now,
        tracked-count q s,
      )

  -- For every test on messages, what NonblockingGet adds to the caller's list and what stays in the
  -- queue have together as many messages that pass it as the queue had, and the ready list is empty
  -- afterwards.
  pub nonblocking_get-count :
      (q : BrokerMsgQueue) (now : ℤ) (ready_msgs : List (List Msg))
      → let g = nonblocking_get q now ready_msgs in
        (count_all p g.ready_msgs + count_queue p g.queue
          ≡ count_all p ready_msgs + count_queue p q)
        × (g.queue.ready_list ≡ [])
  unfolding nonblocking_get
  nonblocking_get-count q now ready_msgs =
      let checked = (check_both_batchers q now).queue in
      (
        omega (
          arith,
          count_all-append p ready_msgs checked.ready_list,
          emptied-count checked,
          check_both_batchers-count q now,
        ),
        refl,
      )

  -- For every test on messages, GetAllMsgs returns as many messages that pass it as the queue had,
  -- and the queue has none left.
  pub get_all_msgs-count :
      (q : BrokerMsgQueue)
      → let (q', batches) = get_all_msgs q in
        (count_all p batches ≡ count_queue p q) × (count_queue p q' ≡ 0)
  unfolding get_all_msgs count_queue
  get_all_msgs-count q =
      let xs = (PerTopic.get_all_batches q.per_topic_batcher).1 in
      let ys = (CombinedTopics.take_batch q.combined_topics_batcher).1 in
      let all = get_all_batches-count p q.per_topic_batcher in
      let none_left = taken-empty q.combined_topics_batcher in
      let taken = CombinedTopics.take_batch-count p q.combined_topics_batcher in
      (
        count_all-append p q.ready_list _
            ∙ omega (arith, either_order-count _ xs ys, all, none_left, taken),
        omega (arith, all, none_left),
      )
