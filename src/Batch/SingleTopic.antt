-- ===== src/Batch/SingleTopic.antt =====
-- src/dory/batch/single_topic_batcher.cc: the batch of one topic. A message that the batcher does
-- not take is left with the caller, who handed over the unique_ptr by reference: `left` is what the
-- pointer holds after the call.
use dory.Common.{
  ◌+◌, ◌≡◌, refl, ap, Bool, not, List, [], ◌∷◌, ◌++◌, Option, none, some, if◌then◌else◌, arith,
  count_if, count_if-append, length, length-append, one_if, to_list, append-nil, Bool-cases, inl,
  inr,
}
use dory.Common.Int.{ℤ}
use dory.Msg.{Msg}
use dory.Batch.Core
use dory.Batch.Core.{
  BatchConfig, BatcherCore, Action, leave_msg_and_return_batch, return_batch_and_take_msg,
  take_msg_and_return_batch, take_msg_and_leave_batch, new_core, clear_state, process_new_msg,
  batching_is_enabled, counted_size,
}
use dory.Batch.Core.Limits.{process_new_msg-accounts, HasRoom, IsPending, process_new_msg-IsPending}

pub record SingleTopicBatcher : Type 0 where
  pub core_state : BatcherCore
  pub msg_list : List Msg

unfoldable pub new_batcher : BatchConfig → SingleTopicBatcher
new_batcher c = record { core_state = new_core c; msg_list = [] }

pub record Added : Type 0 where
  pub batcher : SingleTopicBatcher
  pub batch : List Msg
  pub left : Option Msg

-- The switch of DoAddMsg on the action that the core chose.
pub act_on : List Msg → Msg → BatcherCore × Action → Added
act_on msgs m (core, leave_msg_and_return_batch) = record {
  batcher = record { core_state = core; msg_list = [] };
  batch = msgs;
  left = some m;
}
act_on msgs m (core, return_batch_and_take_msg) = record {
  batcher = record { core_state = core; msg_list = m ∷ [] };
  batch = msgs;
  left = none;
}
act_on msgs m (core, take_msg_and_return_batch) = record {
  batcher = record { core_state = core; msg_list = [] };
  batch = msgs ++ (m ∷ []);
  left = none;
}
act_on msgs m (core, take_msg_and_leave_batch) = record {
  batcher = record { core_state = core; msg_list = msgs ++ (m ∷ []) };
  batch = [];
  left = none;
}

pub add_msg : SingleTopicBatcher → Msg → ℤ → Added
add_msg b m now =
    if not (batching_is_enabled b.core_state.config)
    then record { batcher = b; batch = []; left = some m }
    else act_on b.msg_list m (process_new_msg b.core_state now m)

-- Empty out the batcher, and return all messages it contained.
unfoldable pub take_batch : SingleTopicBatcher → SingleTopicBatcher × List Msg
take_batch b = (record { core_state = clear_state b.core_state; msg_list = [] }, b.msg_list)

unfoldable pub get_next_complete_time : SingleTopicBatcher → Option ℤ
get_next_complete_time b = Core.get_next_complete_time b.core_state

act_on-order :
    (msgs : List Msg) (m : Msg) (r : BatcherCore × Action)
    → let a = act_on msgs m r in
      a.batch ++ (a.batcher.msg_list ++ to_list a.left) ≡ msgs ++ (m ∷ [])
unfolding act_on
act_on-order msgs m (core, leave_msg_and_return_batch) = refl
act_on-order msgs m (core, return_batch_and_take_msg) = refl
act_on-order msgs m (core, take_msg_and_return_batch) = append-nil _
act_on-order msgs m (core, take_msg_and_leave_batch) = append-nil _

-- The batch that the single topic batcher's AddMsg returns, its list afterwards and what is left
-- with the caller are, in this order, its list before followed by the new message: nothing is lost,
-- repeated or overtaken.
pub add_msg-order :
    (b : SingleTopicBatcher) (m : Msg) (now : ℤ)
    → let a = add_msg b m now in
      a.batch ++ (a.batcher.msg_list ++ to_list a.left) ≡ b.msg_list ++ (m ∷ [])
unfolding add_msg
add_msg-order b m now = elim (Bool-cases (batching_is_enabled b.core_state.config)) [
  | inl e ↦ rw e (act_on-order b.msg_list m (process_new_msg b.core_state now m))
  | inr e ↦ rw e
]

pub count_if-add_msg :
    (p : Msg → Bool) (b : SingleTopicBatcher) (m : Msg) (now : ℤ)
    → let a = add_msg b m now in
      count_if p a.batch + (count_if p a.batcher.msg_list + count_if p (to_list a.left))
      ≡ count_if p b.msg_list + one_if (p m)
count_if-add_msg p b m now =
    let a = add_msg b m now in
    omega (
      arith,
      ap (count_if p) (add_msg-order b m now),
      count_if-append p a.batch (a.batcher.msg_list ++ to_list a.left),
      count_if-append p a.batcher.msg_list (to_list a.left),
      count_if-append p b.msg_list (m ∷ []),
    )

-- The core's counter is the length of the list, as the assertion of AddMsg says.
abbrev pub IsCounted : SingleTopicBatcher → Type 0
IsCounted b = b.core_state.msg_count ≡ length b.msg_list

act_on-IsCounted :
    (b : SingleTopicBatcher) (m : Msg) (r : BatcherCore × Action)
    → IsCounted b
    → r.0.msg_count
        + (Core.Limits.returned b.core_state (counted_size m) r.1).msgs
        + (Core.Limits.left (counted_size m) r.1).msgs
      ≡ b.core_state.msg_count + 1
    → IsCounted (act_on b.msg_list m r).batcher
unfolding act_on
act_on-IsCounted b m (core, leave_msg_and_return_batch) c h = omega arith
act_on-IsCounted b m (core, return_batch_and_take_msg) c h = omega arith
act_on-IsCounted b m (core, take_msg_and_return_batch) c h = omega arith
act_on-IsCounted b m (core, take_msg_and_leave_batch) c h =
    omega (arith, length-append b.msg_list (m ∷ []))

-- If the core's message count is the length of the list, and neither the message count nor the byte
-- count wraps with the new message, the count is the length of the list after AddMsg too.
pub add_msg-IsCounted :
    (b : SingleTopicBatcher) (m : Msg) (now : ℤ)
    → IsCounted b
    → HasRoom b.core_state (counted_size m)
    → IsCounted (add_msg b m now).batcher
unfolding add_msg
add_msg-IsCounted b m now c room = elim (Bool-cases (batching_is_enabled b.core_state.config)) [
  | inl e ↦ rw e (
      act_on-IsCounted b m (process_new_msg b.core_state now m) c
        (process_new_msg-accounts b.core_state now m e room).0)
  | inr e ↦ rw e c
]
