-- ===== src/MsgStateTracker/History.antt =====
-- The invariant between the tracker's counts and the live messages, through a list of messages.
use dory.Common.{
  ℕ, ◌≡◌, ◌≢◌, inl, inr, refl, sym, subst, ◌∙◌, Bool, true, false, List, [], ◌∷◌, if◌then◌else◌,
  arith, All, Bool-cases,
}
use dory.Common.Int.{ℤ, pos, ◌+ℤ◌}
use dory.Common.Bytes.{Bytes, bytes_eq}
use dory.Msg.{Msg, MsgState, new, batching, send_wait, ack_wait, processed, same_topic}
use dory.MsgStateTracker.{
  MsgStateTracker, DeltaComputer, no_delta, add_stats, update_stats, set_state, enter_each,
  enter_list, count_batching_entered, count_send_wait_entered, count_ack_wait_entered,
  count_processed_entered,
}
use dory.MsgStateTracker.Stats.{stats_of, IsUnique, stats_of-update_stats, IsUnique-update_stats}
use dory.MsgStateTracker.Sync.{
  is_new, is_batching, is_send_wait, is_ack_wait, Has, count_in, Shifts, Pending, Pending-set_state,
}

-- Each count is the number of messages alive in that state, by topic, or in all for the new ones.
pub record IsSynced (s : MsgStateTracker) (live : List Msg) : Type 0 where
  pub unique : IsUnique s.topic_stats
  pub new_ok : s.new_count ≡ pos (count_in is_new (λ _. true) s.states live)
  pub batching_ok :
      (t : Bytes)
      → (stats_of s.topic_stats t).batching_count
        ≡ pos (count_in is_batching (same_topic t) s.states live)
  pub send_wait_ok :
      (t : Bytes)
      → (stats_of s.topic_stats t).send_wait_count
        ≡ pos (count_in is_send_wait (same_topic t) s.states live)
  pub ack_wait_ok :
      (t : Bytes)
      → (stats_of s.topic_stats t).ack_wait_count
        ≡ pos (count_in is_ack_wait (same_topic t) s.states live)

+ℤ-zero : (x : ℤ) → x +ℤ pos 0 ≡ x
unfolding ◌+ℤ◌
+ℤ-zero x = ground arith

same_if : (b : Bool) (x : ℤ) → (x +ℤ (if b then pos 0 else pos 0)) ≡ x
same_if true x = +ℤ-zero x
same_if false x = +ℤ-zero x

begin :
    (s : MsgStateTracker) (topic : Bytes) (live : List Msg)
    → IsSynced s live
    → Pending s topic no_delta live
begin s topic live v = record {
  unique = v.unique;
  new_ok = +ℤ-zero s.new_count ∙ v.new_ok;
  batching_ok = λ t. same_if (bytes_eq topic t) _ ∙ v.batching_ok t;
  send_wait_ok = λ t. same_if (bytes_eq topic t) _ ∙ v.send_wait_ok t;
  ack_wait_ok = λ t. same_if (bytes_eq topic t) _ ∙ v.ack_wait_ok t;
}

update_stats-fields :
    (s : MsgStateTracker) (topic : Bytes) (d : DeltaComputer) (t : Bytes)
    → IsUnique s.topic_stats
    → let old = stats_of s.topic_stats t in
      let now = stats_of (update_stats s topic d).topic_stats t in
      (now.batching_count
        ≡ old.batching_count +ℤ (if bytes_eq topic t then d.batching_delta else pos 0))
      × (now.send_wait_count
          ≡ old.send_wait_count +ℤ (if bytes_eq topic t then d.send_wait_delta else pos 0))
      × (now.ack_wait_count
          ≡ old.ack_wait_count +ℤ (if bytes_eq topic t then d.ack_wait_delta else pos 0))
unfolding add_stats
update_stats-fields s topic d t u = elim (Bool-cases (bytes_eq topic t)) [
  | inl b ↦ rw (stats_of-update_stats s topic d t u) (rw b (refl, refl, refl))
  | inr b ↦
      rw (stats_of-update_stats s topic d t u)
        (rw b (sym (+ℤ-zero _), sym (+ℤ-zero _), sym (+ℤ-zero _)))
]

finish :
    (s : MsgStateTracker) (topic : Bytes) (d : DeltaComputer) (live : List Msg)
    → Pending s topic d live
    → IsSynced (update_stats s topic d) live
finish s topic d live v = record {
  unique = IsUnique-update_stats s topic d v.unique;
  new_ok = unfold update_stats in v.new_ok;
  batching_ok =
      λ t. (update_stats-fields s topic d t v.unique).0 ∙ unfold update_stats in (v.batching_ok t);
  send_wait_ok =
      λ t. (update_stats-fields s topic d t v.unique).1 ∙ unfold update_stats in (v.send_wait_ok t);
  ack_wait_ok =
      λ t. (update_stats-fields s topic d t v.unique).2 ∙ unfold update_stats in (v.ack_wait_ok t);
}

-- A list whose messages are distinct objects, all alive, of one topic.
abbrev pub IsBatchOf : List Msg → Bytes → List Msg → Type 0
IsBatchOf live topic [] = Unit {0}
IsBatchOf live topic (m ∷ ms) =
    Has live m × (m.topic ≡ topic) × All (λ (y : Msg). y.addr ≢ m.addr) ms × IsBatchOf live topic ms

-- The counting function is right for each state that a message of the list is in.
abbrev pub AllFrom : (MsgState → Type 0) → (ℕ → MsgState) → List Msg → Type 0
AllFrom Legal states [] = Unit {0}
AllFrom Legal states (m ∷ ms) = Legal (states m.addr) × AllFrom Legal states ms

states-set_state_ne :
    (s : MsgStateTracker) (m x : Msg) (state : MsgState)
    → x.addr ≢ m.addr
    → (set_state s m state).states x.addr ≡ s.states x.addr
unfolding set_state
states-set_state_ne s m x state h = ground arith

AllFrom-set_state :
    (Legal : MsgState → Type 0) (s : MsgStateTracker) (m : Msg) (state : MsgState) (ms : List Msg)
    → All (λ (y : Msg). y.addr ≢ m.addr) ms
    → AllFrom Legal s.states ms
    → AllFrom Legal (set_state s m state).states ms
AllFrom-set_state Legal s m state [] h k = tt
AllFrom-set_state Legal s m state (x ∷ xs) h k =
    (rw (states-set_state_ne s m x state h.0) k.0, AllFrom-set_state Legal s m state xs h.1 k.1)

-- A counting function, and the states that a message may enter `state` from.
module _ (count : MsgState → DeltaComputer → DeltaComputer) (state : MsgState)
    (Legal : MsgState → Type 0)
    (shifts : (prev : MsgState) (d : DeltaComputer)
      → Legal prev
      → Shifts prev state d (count prev d))
    (live : List Msg) where
  enter_each-Pending :
      (ms : List Msg) (s : MsgStateTracker) (topic : Bytes) (d : DeltaComputer)
      → IsBatchOf live topic ms
      → AllFrom Legal s.states ms
      → Pending s topic d live
      → Pending (enter_each count state s d ms).0 topic (enter_each count state s d ms).1 live
  unfolding enter_each
  enter_each-Pending [] s topic d b k v = v
  enter_each-Pending (m ∷ ms) s topic d b k v =
      enter_each-Pending ms (set_state s m state) topic (count (s.states m.addr) d) b.3
        (AllFrom-set_state Legal s m state ms b.2 k.1)
        (Pending-set_state s topic d _ live m state b.0 b.1 (shifts (s.states m.addr) d k.0) v)

  pub enter_list-IsSynced :
      (ms : List Msg) (s : MsgStateTracker) (topic : Bytes)
      → IsBatchOf live topic ms
      → AllFrom Legal s.states ms
      → IsSynced s live
      → IsSynced (enter_list count state s ms) live
  unfolding enter_list
  enter_list-IsSynced [] s topic b k v = v
  enter_list-IsSynced (m ∷ ms) s topic b k v = finish _ m.topic _ live (
      enter_each-Pending (m ∷ ms) s m.topic no_delta
        (subst (λ t. IsBatchOf live t (m ∷ ms)) (sym b.1) b) k (begin s m.topic live v))

module _ (d : DeltaComputer) where
  pub count_batching_entered-Shifts :
      (prev : MsgState) → prev ≡ new → Shifts prev batching d (count_batching_entered prev d)
  unfolding count_batching_entered ◌+ℤ◌
  count_batching_entered-Shifts new h = ground arith
  count_batching_entered-Shifts _ h = cc

  pub count_send_wait_entered-Shifts :
      (prev : MsgState)
      → prev ≢ processed
      → Shifts prev send_wait d (count_send_wait_entered prev d)
  unfolding count_send_wait_entered ◌+ℤ◌
  count_send_wait_entered-Shifts new h = ground arith
  count_send_wait_entered-Shifts processed h = absurd (h refl)
  count_send_wait_entered-Shifts _ h = ground arith

  pub count_ack_wait_entered-Shifts :
      (prev : MsgState) → prev ≡ send_wait → Shifts prev ack_wait d (count_ack_wait_entered prev d)
  unfolding count_ack_wait_entered ◌+ℤ◌
  count_ack_wait_entered-Shifts send_wait h = ground arith
  count_ack_wait_entered-Shifts _ h = cc

  pub count_processed_entered-Shifts :
      (prev : MsgState)
      → (prev ≢ batching) × (prev ≢ processed)
      → Shifts prev processed d (count_processed_entered prev d)
  unfolding count_processed_entered ◌+ℤ◌
  count_processed_entered-Shifts batching h = absurd (h.0 refl)
  count_processed_entered-Shifts processed h = absurd (h.1 refl)
  count_processed_entered-Shifts _ h = ground arith
