-- ===== src/Tests/Queue.antt =====
-- Concrete runs of src/dory/msg_dispatch/broker_msg_queue.cc.
use dory.Common.{◌+◌, ◌≡◌, refl, [], ◌∷◌, count_all, one_if, inl}
use dory.Common.Int.{pos}
use dory.BrokerMsgQueue.{put, nonblocking_get, get_all_msgs}
use dory.BrokerMsgQueue.Conserve.{count_queue, put-count, nonblocking_get-count, get_all_msgs-count}
use dory.BrokerMsgQueue.Notify.{next_deadline, nonblocking_get-next_deadline, wakes, put-wakes}
use dory.Tests.Data.{queue, msg_2, msg_3, is_msg_1}

put-count_example :
    count_queue is_msg_1 (put queue (pos 1100) msg_2)
    ≡ count_queue is_msg_1 queue + one_if (is_msg_1 msg_2)
put-count_example = put-count is_msg_1 queue (pos 1100) msg_2

nonblocking_get-count_example :
    let g = nonblocking_get queue (pos 1600) ((msg_3 ∷ []) ∷ []) in
    (count_all is_msg_1 g.ready_msgs + count_queue is_msg_1 g.queue
      ≡ count_all is_msg_1 ((msg_3 ∷ []) ∷ []) + count_queue is_msg_1 queue)
    × (g.queue.ready_list ≡ [])
nonblocking_get-count_example = nonblocking_get-count is_msg_1 queue (pos 1600) ((msg_3 ∷ []) ∷ [])

get_all_msgs-count_example :
    (count_all is_msg_1 (get_all_msgs queue).1 ≡ count_queue is_msg_1 queue)
    × (count_queue is_msg_1 (get_all_msgs queue).0 ≡ 0)
get_all_msgs-count_example = get_all_msgs-count is_msg_1 queue

put-wakes_example :
    (put queue (pos 1100) msg_2).sender_notify
    ≡ queue.sender_notify + one_if (wakes queue (put queue (pos 1100) msg_2))
put-wakes_example = put-wakes queue (pos 1100) msg_2 (inl refl)

nonblocking_get-next_deadline_example :
    (nonblocking_get queue (pos 1600) []).next_batch_complete_time
    ≡ next_deadline (nonblocking_get queue (pos 1600) []).queue
nonblocking_get-next_deadline_example = nonblocking_get-next_deadline queue (pos 1600) []
