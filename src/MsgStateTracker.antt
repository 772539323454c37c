-- ===== src/MsgStateTracker.antt =====
-- src/dory/msg_state_tracker.cc: how many messages of each topic are in each state. The state of a
-- message object is kept by its address. The counts are `long`, whose overflow C++ leaves undefined;
-- they are unbounded integers here. A transition that the code reports as a bug and asserts against
-- changes no count, as in a build without assertions. The mutex makes each call one step.
pub mod Stats
pub mod Sync
pub mod History
pub mod Calls
use dory.Common.{
  ℕ, Bool, true, false, not, ◌&&◌, ◌||◌, List, [], ◌∷◌, Option, none, some, if◌then◌else◌, ◌==◌,
}
use dory.Common.Int.{ℤ, pos, negsuc, ◌+ℤ◌, eq_ℤ}
use dory.Common.Bytes.{Bytes, bytes_eq}
use dory.Msg.{Msg, MsgState, new, batching, send_wait, ack_wait, processed}

pub record TopicStats : Type 0 where
  pub batching_count : ℤ
  pub send_wait_count : ℤ
  pub ack_wait_count : ℤ

pub record StatsWrapper : Type 0 where
  pub topic_stats : TopicStats
  pub ok_to_delete : Bool

abbrev pub StatsMap : Type 0
StatsMap = List (Bytes × StatsWrapper)

pub record MsgStateTracker : Type 0 where
  pub states : ℕ → MsgState
  pub topic_stats : StatsMap
  pub new_count : ℤ

pub record DeltaComputer : Type 0 where
  pub new_delta : ℤ
  pub batching_delta : ℤ
  pub send_wait_delta : ℤ
  pub ack_wait_delta : ℤ

abbrev pub no_delta : DeltaComputer
no_delta = record {
  new_delta = pos 0;
  batching_delta = pos 0;
  send_wait_delta = pos 0;
  ack_wait_delta = pos 0;
}

abbrev pub inc : ℤ → ℤ
inc n = n +ℤ pos 1

abbrev pub dec : ℤ → ℤ
dec n = n +ℤ negsuc 0

unfoldable pub count_batching_entered : MsgState → DeltaComputer → DeltaComputer
count_batching_entered new d = record d {
  new_delta = dec d.new_delta;
  batching_delta = inc d.batching_delta;
}
count_batching_entered batching d = d
count_batching_entered send_wait d = d
count_batching_entered ack_wait d = d
count_batching_entered processed d = d

unfoldable pub count_send_wait_entered : MsgState → DeltaComputer → DeltaComputer
count_send_wait_entered new d = record d {
  new_delta = dec d.new_delta;
  send_wait_delta = inc d.send_wait_delta;
}
count_send_wait_entered batching d = record d {
  batching_delta = dec d.batching_delta;
  send_wait_delta = inc d.send_wait_delta;
}
count_send_wait_entered send_wait d = d
count_send_wait_entered ack_wait d = record d {
  ack_wait_delta = dec d.ack_wait_delta;
  send_wait_delta = inc d.send_wait_delta;
}
count_send_wait_entered processed d = d

unfoldable pub count_ack_wait_entered : MsgState → DeltaComputer → DeltaComputer
count_ack_wait_entered new d = d
count_ack_wait_entered batching d = d
count_ack_wait_entered send_wait d = record d {
  send_wait_delta = dec d.send_wait_delta;
  ack_wait_delta = inc d.ack_wait_delta;
}
count_ack_wait_entered ack_wait d = d
count_ack_wait_entered processed d = d

unfoldable pub count_processed_entered : MsgState → DeltaComputer → DeltaComputer
count_processed_entered new d = record d { new_delta = dec d.new_delta }
count_processed_entered batching d = d
count_processed_entered send_wait d = record d { send_wait_delta = dec d.send_wait_delta }
count_processed_entered ack_wait d = record d { ack_wait_delta = dec d.ack_wait_delta }
count_processed_entered processed d = d

unfoldable pub add_stats : TopicStats → DeltaComputer → TopicStats
add_stats s d = record {
  batching_count = s.batching_count +ℤ d.batching_delta;
  send_wait_count = s.send_wait_count +ℤ d.send_wait_delta;
  ack_wait_count = s.ack_wait_count +ℤ d.ack_wait_delta;
}

abbrev pub no_stats : TopicStats
no_stats = record { batching_count = pos 0; send_wait_count = pos 0; ack_wait_count = pos 0 }

unfoldable pub all_zero : TopicStats → Bool
all_zero s =
    eq_ℤ s.batching_count (pos 0) && eq_ℤ s.send_wait_count (pos 0) && eq_ℤ s.ack_wait_count (pos 0)

-- Put back the counts of a topic, or drop the entry if it may be deleted and they are all zero.
unfoldable pub put_stats : Bytes → StatsWrapper → StatsMap → StatsMap
put_stats t w rest = if w.ok_to_delete && all_zero w.topic_stats then rest else (t, w) ∷ rest

unfoldable pub update_map : StatsMap → Bytes → DeltaComputer → StatsMap
update_map [] topic d =
    put_stats topic (record { topic_stats = add_stats no_stats d; ok_to_delete = false }) []
update_map ((t, w) ∷ rest) topic d =
    if bytes_eq t topic
    then put_stats t (record w { topic_stats = add_stats w.topic_stats d }) rest
    else (t, w) ∷ update_map rest topic d

abbrev pub changes_stats : DeltaComputer → Bool
changes_stats d =
    not (eq_ℤ d.batching_delta (pos 0))
    || not (eq_ℤ d.send_wait_delta (pos 0))
    || not (eq_ℤ d.ack_wait_delta (pos 0))

pub update_stats : MsgStateTracker → Bytes → DeltaComputer → MsgStateTracker
update_stats s topic d = record s {
  topic_stats = if changes_stats d then update_map s.topic_stats topic d else s.topic_stats;
  new_count = s.new_count +ℤ d.new_delta;
}

unfoldable pub set_state : MsgStateTracker → Msg → MsgState → MsgStateTracker
set_state s m state = record s { states = λ a. if a == m.addr then state else s.states a }

-- The loop over the messages of a list, with the counting function of the state they enter.
pub enter_each :
    (MsgState → DeltaComputer → DeltaComputer)
    → MsgState
    → MsgStateTracker
    → DeltaComputer
    → List Msg
    → MsgStateTracker × DeltaComputer
enter_each count state s d [] = (s, d)
enter_each count state s d (m ∷ ms) =
    enter_each count state (set_state s m state) (count (s.states m.addr) d) ms

pub enter_list :
    (MsgState → DeltaComputer → DeltaComputer)
    → MsgState
    → MsgStateTracker
    → List Msg
    → MsgStateTracker
enter_list count state s [] = s
enter_list count state s (m ∷ ms) =
    let (s', d) = enter_each count state s no_delta (m ∷ ms) in update_stats s' m.topic d

pub enter_lists :
    (MsgState → DeltaComputer → DeltaComputer)
    → MsgState
    → MsgStateTracker
    → List (List Msg)
    → MsgStateTracker
enter_lists count state s [] = s
enter_lists count state s (msgs ∷ rest) =
    enter_lists count state (enter_list count state s msgs) rest

unfoldable pub msg_enter_new : MsgStateTracker → MsgStateTracker
msg_enter_new s = record s { new_count = inc s.new_count }

unfoldable pub msg_enter_batching : MsgStateTracker → Msg → MsgStateTracker
msg_enter_batching s m = enter_list count_batching_entered batching s (m ∷ [])

unfoldable pub msg_enter_send_wait : MsgStateTracker → List Msg → MsgStateTracker
msg_enter_send_wait s msgs = enter_list count_send_wait_entered send_wait s msgs

unfoldable pub lists_enter_send_wait : MsgStateTracker → List (List Msg) → MsgStateTracker
lists_enter_send_wait s lists = enter_lists count_send_wait_entered send_wait s lists

unfoldable pub msg_enter_ack_wait : MsgStateTracker → List Msg → MsgStateTracker
msg_enter_ack_wait s msgs = enter_list count_ack_wait_entered ack_wait s msgs

unfoldable pub msg_enter_processed : MsgStateTracker → List Msg → MsgStateTracker
msg_enter_processed s msgs = enter_list count_processed_entered processed s msgs

-- The topics with a count that is not zero, and the number of new messages.
pub get_stats : StatsMap → List (Bytes × TopicStats)
get_stats [] = []
get_stats ((t, w) ∷ rest) =
    if all_zero w.topic_stats then get_stats rest else (t, w.topic_stats) ∷ get_stats rest

unfoldable pub prune_map : (Bytes → Bool) → StatsMap → StatsMap
prune_map exists [] = []
prune_map exists ((t, w) ∷ rest) =
    put_stats t (record w { ok_to_delete = not (exists t) }) (prune_map exists rest)

pub prune_topics : (Bytes → Bool) → MsgStateTracker → MsgStateTracker
prune_topics exists s = record s { topic_stats = prune_map exists s.topic_stats }
