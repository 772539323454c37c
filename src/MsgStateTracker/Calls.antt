-- ===== src/MsgStateTracker/Calls.antt =====
-- Histories of calls of the tracker: creation of messages and legal changes of their states.
use dory.Common.{ℕ, ◌+◌, ◌≡◌, ◌≢◌, refl, sym, ap, ◌∙◌, Bool, true, false, List, [], ◌∷◌, arith, All}
use dory.Common.Int.{ℤ, pos, ◌+ℤ◌}
use dory.Common.Bytes.{Bytes}
use dory.Msg.{Msg, MsgState, new, batching, send_wait, ack_wait, processed, same_topic}
use dory.MsgStateTracker.{
  MsgStateTracker, set_state, msg_enter_new, msg_enter_batching, msg_enter_send_wait,
  msg_enter_ack_wait, msg_enter_processed, count_batching_entered, count_send_wait_entered,
  count_ack_wait_entered, count_processed_entered,
}
use dory.MsgStateTracker.Sync.{
  is_new, is_batching, is_send_wait, is_ack_wait, Has, count_in, count_in-fresh,
}
use dory.MsgStateTracker.History.{
  IsSynced, IsBatchOf, AllFrom, enter_list-IsSynced, count_batching_entered-Shifts,
  count_send_wait_entered-Shifts, count_ack_wait_entered-Shifts, count_processed_entered-Shifts,
}

-- The calls that the program makes: a message is created, enters a state that its own state allows,
-- alone or with a list of its topic.
pub data Step : MsgStateTracker → List Msg → MsgStateTracker → List Msg → Type 0 where
  creates :
      (s : MsgStateTracker) (live : List Msg) (m : Msg)
      → All (λ (y : Msg). y.addr ≢ m.addr) live
      → Step s live (set_state (msg_enter_new s) m new) (m ∷ live)
  batches :
      (s : MsgStateTracker) (live : List Msg) (m : Msg)
      → Has live m
      → s.states m.addr ≡ new
      → Step s live (msg_enter_batching s m) live
  waits_to_send :
      (s : MsgStateTracker) (live : List Msg) (topic : Bytes) (ms : List Msg)
      → IsBatchOf live topic ms
      → AllFrom (λ prev. prev ≢ processed) s.states ms
      → Step s live (msg_enter_send_wait s ms) live
  waits_for_ack :
      (s : MsgStateTracker) (live : List Msg) (topic : Bytes) (ms : List Msg)
      → IsBatchOf live topic ms
      → AllFrom (λ prev. prev ≡ send_wait) s.states ms
      → Step s live (msg_enter_ack_wait s ms) live
  processes :
      (s : MsgStateTracker) (live : List Msg) (topic : Bytes) (ms : List Msg)
      → IsBatchOf live topic ms
      → AllFrom (λ prev. (prev ≢ batching) × (prev ≢ processed)) s.states ms
      → Step s live (msg_enter_processed s ms) live

inc_count : (x : ℤ) (n : ℕ) → x ≡ pos n → x +ℤ pos 1 ≡ pos (1 + n)
unfolding ◌+ℤ◌
inc_count x n h = ground arith

module _ (s : MsgStateTracker) (live : List Msg) (m : Msg)
    (fresh : All (λ (y : Msg). y.addr ≢ m.addr) live) where
  created_count :
      (test : MsgState → Bool) (among : Msg → Bool)
      → count_in test among (set_state (msg_enter_new s) m new).states live
        ≡ count_in test among s.states live
  unfolding msg_enter_new
  created_count test among = count_in-fresh test among (msg_enter_new s) m new live fresh

  created_others :
      (test : MsgState → Bool) (among : Msg → Bool)
      → test new ≡ false
      → count_in test among (set_state (msg_enter_new s) m new).states (m ∷ live)
        ≡ count_in test among s.states live
  created_others test among h =
      let same = created_count test among in unfold set_state in (ground (arith, same, h))

  creates-IsSynced : IsSynced s live → IsSynced (set_state (msg_enter_new s) m new) (m ∷ live)
  unfolding set_state msg_enter_new
  creates-IsSynced v = record {
    unique = v.unique;
    new_ok =
        inc_count s.new_count _ v.new_ok
        ∙ (let same = created_count is_new (λ _. true) in ground (arith, same));
    batching_ok =
        λ t. v.batching_ok t ∙ ap pos (sym (created_others is_batching (same_topic t) refl));
    send_wait_ok =
        λ t. v.send_wait_ok t ∙ ap pos (sym (created_others is_send_wait (same_topic t) refl));
    ack_wait_ok =
        λ t. v.ack_wait_ok t ∙ ap pos (sym (created_others is_ack_wait (same_topic t) refl));
  }

-- Every legal call keeps each count equal to the number of messages in its state.
pub Step-IsSynced :
    {s s' : MsgStateTracker} {live live' : List Msg}
    → Step s live s' live'
    → IsSynced s live
    → IsSynced s' live'
unfolding msg_enter_batching msg_enter_send_wait msg_enter_ack_wait msg_enter_processed
Step-IsSynced (creates s live m fresh) v = creates-IsSynced s live m fresh v
Step-IsSynced (batches s live m has h) v =
    enter_list-IsSynced count_batching_entered batching (λ prev. prev ≡ new)
      (λ prev d. count_batching_entered-Shifts d prev) live (m ∷ []) s m.topic (has, refl, tt, tt)
      (h, tt) v
Step-IsSynced (waits_to_send s live topic ms b k) v =
    enter_list-IsSynced count_send_wait_entered send_wait (λ prev. prev ≢ processed)
      (λ prev d. count_send_wait_entered-Shifts d prev) live ms s topic b k v
Step-IsSynced (waits_for_ack s live topic ms b k) v =
    enter_list-IsSynced count_ack_wait_entered ack_wait (λ prev. prev ≡ send_wait)
      (λ prev d. count_ack_wait_entered-Shifts d prev) live ms s topic b k v
Step-IsSynced (processes s live topic ms b k) v =
    enter_list-IsSynced count_processed_entered processed
      (λ prev. (prev ≢ batching) × (prev ≢ processed))
      (λ prev d. count_processed_entered-Shifts d prev) live ms s topic b k v

pub data Reaches (s : MsgStateTracker) (live : List Msg) : MsgStateTracker → List Msg → Type 0 where
  here : Reaches s live s live
  next :
      {t u : MsgStateTracker} {alive alive' : List Msg}
      → Reaches s live t alive
      → Step t alive u alive'
      → Reaches s live u alive'

-- If the new count and each topic's batching, send-wait and ack-wait counts are the numbers of live
-- messages in those states, they still are after any sequence of calls that create messages at
-- fresh addresses and move them, alone or in lists of one topic, by transitions that the tracker
-- allows.
pub Reaches-IsSynced :
    {s : MsgStateTracker} {live : List Msg} {t : MsgStateTracker} {alive : List Msg}
    → Reaches s live t alive
    → IsSynced s live
    → IsSynced t alive
Reaches-IsSynced here v = v
Reaches-IsSynced (next r step) v = Step-IsSynced step (Reaches-IsSynced r v)
