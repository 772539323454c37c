-- ===== src/MsgStateTracker/Sync.antt =====
-- The states of the live messages, counted, and how a change of state shifts the counts.
use dory.Common.{
  ℕ, ◌+◌, ◌≡◌, ◌≢◌, ◌⊎◌, inl, inr, refl, sym, ap, ◌∙◌, Bool, true, false, List, [], ◌∷◌, ◌&&◌,
  if◌then◌else◌, arith, count_if, one_if, All, Bool-cases,
}
use dory.Common.Int.{ℤ, pos, ◌+ℤ◌}
use dory.Common.Bytes.{Bytes, bytes_eq}
use dory.Msg.{Msg, MsgState, new, batching, send_wait, ack_wait, processed, same_topic}
use dory.MsgStateTracker.{MsgStateTracker, DeltaComputer, set_state}
use dory.MsgStateTracker.Stats.{stats_of, IsUnique}

abbrev pub is_new : MsgState → Bool
is_new new = true
is_new batching = false
is_new send_wait = false
is_new ack_wait = false
is_new processed = false

abbrev pub is_batching : MsgState → Bool
is_batching new = false
is_batching batching = true
is_batching send_wait = false
is_batching ack_wait = false
is_batching processed = false

abbrev pub is_send_wait : MsgState → Bool
is_send_wait new = false
is_send_wait batching = false
is_send_wait send_wait = true
is_send_wait ack_wait = false
is_send_wait processed = false

abbrev pub is_ack_wait : MsgState → Bool
is_ack_wait new = false
is_ack_wait batching = false
is_ack_wait send_wait = false
is_ack_wait ack_wait = true
is_ack_wait processed = false

-- The object of `m` is one of the list, and no other of the list has its address.
abbrev pub Has : List Msg → Msg → Type 0
Has [] m = ⊥
Has (x ∷ xs) m = ((x ≡ m) × All (λ (y : Msg). y.addr ≢ m.addr) xs) ⊎ ((x.addr ≢ m.addr) × Has xs m)

-- How many of the messages are in a state that passes the test, among those of a topic or among all.
abbrev pub count_in : (MsgState → Bool) → (Msg → Bool) → (ℕ → MsgState) → List Msg → ℕ
count_in test among states live = count_if (λ m. among m && test (states m.addr)) live

module _ (test : MsgState → Bool) (among : Msg → Bool) (s : MsgStateTracker) (m : Msg)
    (state : MsgState) where
  pub count_in-fresh :
      (live : List Msg)
      → All (λ (y : Msg). y.addr ≢ m.addr) live
      → count_in test among (set_state s m state).states live ≡ count_in test among s.states live
  unfolding set_state
  count_in-fresh [] h = refl
  count_in-fresh (x ∷ xs) h = ground (arith, h.0, count_in-fresh xs h.1)

  -- Changing one object's state moves it from the count of the old state to that of the new one.
  pub count_in-set_state :
      (live : List Msg)
      → Has live m
      → count_in test among (set_state s m state).states live
          + one_if (among m && test (s.states m.addr))
        ≡ count_in test among s.states live + one_if (among m && test state)
  unfolding set_state
  count_in-set_state (x ∷ xs) (inl (e, fresh)) = rw e (ground (arith, count_in-fresh xs fresh))
  count_in-set_state (x ∷ xs) (inr (e, has)) = ground (arith, e, count_in-set_state xs has)
  count_in-set_state [] h = absurd h

shift_count :
    (x d d' : ℤ) (c c' p q : ℕ)
    → x +ℤ d ≡ pos c
    → d' +ℤ pos p ≡ d +ℤ pos q
    → c' + p ≡ c + q
    → x +ℤ d' ≡ pos c'
unfolding ◌+ℤ◌
shift_count x d d' c c' p q h k e = ground arith

module _ (test : MsgState → Bool) (x d d' : ℤ) (topic t : Bytes) (s : MsgStateTracker) (m : Msg)
    (state : MsgState) (live : List Msg) where
  topic_count :
      Has live m
      → m.topic ≡ topic
      → d' +ℤ pos (one_if (test (s.states m.addr))) ≡ d +ℤ pos (one_if (test state))
      → x +ℤ (if bytes_eq topic t then d else pos 0)
        ≡ pos (count_in test (same_topic t) s.states live)
      → x +ℤ (if bytes_eq topic t then d' else pos 0)
        ≡ pos (count_in test (same_topic t) (set_state s m state).states live)
  topic_count has e shift h =
      let moved = count_in-set_state test (same_topic t) s m state live has in
      elim (Bool-cases (bytes_eq topic t)) [
        | inl b ↦
            let key : same_topic t m ≡ true = rw e b in
            rw b (shift_count x d d' _ _ _ _ (rw b at h) shift (rw key at moved))
        | inr b ↦
            let key : same_topic t m ≡ false = rw e b in
            let same : count_in test (same_topic t) (set_state s m state).states live
                ≡ count_in test (same_topic t) s.states live =
              (let moved' = rw key at moved in omega (arith, moved')) in
            rw b (rw b at h ∙ ap pos (sym same))
      ]

-- What a counting function has to do when a message enters a state.
pub record Shifts (prev state : MsgState) (d d' : DeltaComputer) : Type 0 where
  pub shift_new :
      d'.new_delta +ℤ pos (one_if (is_new prev)) ≡ d.new_delta +ℤ pos (one_if (is_new state))
  pub shift_batching :
      d'.batching_delta +ℤ pos (one_if (is_batching prev))
      ≡ d.batching_delta +ℤ pos (one_if (is_batching state))
  pub shift_send_wait :
      d'.send_wait_delta +ℤ pos (one_if (is_send_wait prev))
      ≡ d.send_wait_delta +ℤ pos (one_if (is_send_wait state))
  pub shift_ack_wait :
      d'.ack_wait_delta +ℤ pos (one_if (is_ack_wait prev))
      ≡ d.ack_wait_delta +ℤ pos (one_if (is_ack_wait state))

-- The counts of the tracker, with the deltas that are not yet added to one topic's.
pub record Pending (s : MsgStateTracker) (topic : Bytes) (d : DeltaComputer) (live : List Msg)
    : Type 0 where
  pub unique : IsUnique s.topic_stats
  pub new_ok : s.new_count +ℤ d.new_delta ≡ pos (count_in is_new (λ _. true) s.states live)
  pub batching_ok :
      (t : Bytes)
      → (stats_of s.topic_stats t).batching_count
          +ℤ (if bytes_eq topic t then d.batching_delta else pos 0)
        ≡ pos (count_in is_batching (same_topic t) s.states live)
  pub send_wait_ok :
      (t : Bytes)
      → (stats_of s.topic_stats t).send_wait_count
          +ℤ (if bytes_eq topic t then d.send_wait_delta else pos 0)
        ≡ pos (count_in is_send_wait (same_topic t) s.states live)
  pub ack_wait_ok :
      (t : Bytes)
      → (stats_of s.topic_stats t).ack_wait_count
          +ℤ (if bytes_eq topic t then d.ack_wait_delta else pos 0)
        ≡ pos (count_in is_ack_wait (same_topic t) s.states live)

pub Pending-set_state :
    (s : MsgStateTracker) (topic : Bytes) (d d' : DeltaComputer) (live : List Msg) (m : Msg)
    (state : MsgState)
    → Has live m
    → m.topic ≡ topic
    → Shifts (s.states m.addr) state d d'
    → Pending s topic d live
    → Pending (set_state s m state) topic d' live
unfolding set_state
Pending-set_state s topic d d' live m state has e shifts v = record {
  unique = v.unique;
  new_ok =
      shift_count s.new_count d.new_delta d'.new_delta _ _ _ _ v.new_ok shifts.shift_new
        (count_in-set_state is_new (λ _. true) s m state live has);
  batching_ok = λ t.
      topic_count is_batching _ d.batching_delta d'.batching_delta topic t s m state live has e
        shifts.shift_batching (v.batching_ok t);
  send_wait_ok = λ t.
      topic_count is_send_wait _ d.send_wait_delta d'.send_wait_delta topic t s m state live has e
        shifts.shift_send_wait (v.send_wait_ok t);
  ack_wait_ok = λ t.
      topic_count is_ack_wait _ d.ack_wait_delta d'.ack_wait_delta topic t s m state live has e
        shifts.shift_ack_wait (v.ack_wait_ok t);
}
