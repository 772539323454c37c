-- ===== src/Tests/Tracker.antt =====
-- A message's life in src/dory/msg_state_tracker.cc.
use dory.Common.{inl, refl, [], ◌∷◌}
use dory.Common.Int.{pos}
use dory.Msg.{new}
use dory.MsgStateTracker.{
  MsgStateTracker, DeltaComputer, set_state, msg_enter_new, msg_enter_batching,
}
use dory.MsgStateTracker.Stats.{stats_of}
use dory.MsgStateTracker.History.{IsSynced}
use dory.MsgStateTracker.Calls.{creates, batches, Reaches, here, next, Reaches-IsSynced}
use dory.Tests.Data.{empty_tracker, msg_1}

abbrev created : MsgStateTracker
created = set_state (msg_enter_new empty_tracker) msg_1 new

empty-IsSynced : IsSynced empty_tracker []
unfolding stats_of
empty-IsSynced = record {
  unique = tt;
  new_ok = refl;
  batching_ok = λ t. refl;
  send_wait_ok = λ t. refl;
  ack_wait_ok = λ t. refl;
}

created-batched : Reaches empty_tracker [] (msg_enter_batching created msg_1) (msg_1 ∷ [])
unfolding set_state msg_enter_new
created-batched =
    next (next here (creates empty_tracker [] msg_1 tt))
      (batches created (msg_1 ∷ []) msg_1 (inl (refl, tt)) refl)

Reaches-IsSynced_example : IsSynced (msg_enter_batching created msg_1) (msg_1 ∷ [])
Reaches-IsSynced_example = Reaches-IsSynced created-batched empty-IsSynced

abbrev one_batching : DeltaComputer
one_batching = record {
  new_delta = pos 0;
  batching_delta = pos 1;
  send_wait_delta = pos 0;
  ack_wait_delta = pos 0;
}
