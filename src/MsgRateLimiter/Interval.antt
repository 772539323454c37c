-- ===== src/MsgRateLimiter/Interval.antt =====
-- How many messages of a topic the rate limiter lets through within an interval.
use dory.Common.{
  ℕ, ◌+◌, ◌-◌, ◌^◌, ◌≤◌, ◌<◌, ◌≡◌, refl, true, false, not, List, [], ◌∷◌, some, ltb, Bool-cases,
  inl, inr, arith, length, min, All, one_if,
}
use dory.Common.Word.{add_u64}
use dory.Common.Bytes.{Bytes, bytes_eq, bytes_eq_sound}
use dory.MsgRateLimiter.{
  MsgRateLimiter, TopicState, find_topic, store_topic, move_interval, get_topic_state,
  would_exceed_limit, find_topic-store_topic,
}
use native.Mathlib.Nat.{div-add-mod', mod-lt}

-- The number of messages let through, of messages of the topic with these timestamps.
pub passed : MsgRateLimiter → Bytes → List ℕ → ℕ
passed r topic [] = 0
passed r topic (ts ∷ rest) =
    let (r', exceeds) = would_exceed_limit r topic ts in one_if (not exceeds) + passed r' topic rest

move_interval-within :
    (s : TopicState) (ts : ℕ) → ts < add_u64 s.interval_start s.interval → move_interval s ts ≡ s
unfolding move_interval
move_interval-within s ts h = ground (arith, h)

module _ (r : MsgRateLimiter) (topic : Bytes) (s : TopicState) (ts : ℕ) where
  abbrev counted : TopicState
  counted = record s { count = add_u64 s.count 1 }

  abbrev after_one : MsgRateLimiter
  after_one = record r { topic_state_map = store_topic r.topic_state_map topic counted }

  get_topic_state-within :
      find_topic r.topic_state_map topic ≡ some s
      → ts < add_u64 s.interval_start s.interval
      → get_topic_state r topic ts ≡ s
  unfolding get_topic_state
  get_topic_state-within found within =
      rw (found, get_topic_state) (move_interval-within s ts within)

  would_exceed_limit-within :
      r.is_enabled ≡ true
      → find_topic r.topic_state_map topic ≡ some s
      → s.enable ≡ true
      → ts < add_u64 s.interval_start s.interval
      → would_exceed_limit r topic ts ≡ (after_one, ltb s.max_count counted.count)
  unfolding would_exceed_limit
  would_exceed_limit-within on found enabled within =
      rw (get_topic_state-within found within) (ground (arith, on, enabled))

-- If rate limiting is on, the topic has a state with a limit, all timestamps are before the end of
-- its interval, and its count does not wrap, then of messages of the topic with these timestamps,
-- checked one after the other, the number let through is the smaller of their number and the limit
-- less the count.
pub passed-min :
    (r : MsgRateLimiter) (topic : Bytes) (s : TopicState) (times : List ℕ)
    → r.is_enabled ≡ true
    → find_topic r.topic_state_map topic ≡ some s
    → s.enable ≡ true
    → All (λ ts. ts < add_u64 s.interval_start s.interval) times
    → s.count + length times < 2 ^ 64
    → passed r topic times ≡ min (length times) (s.max_count - s.count)
unfolding passed
passed-min r topic s [] on found enabled within room = omega arith
passed-min r topic s (ts ∷ rest) on found enabled within room =
    let next =
      passed-min (after_one r topic s ts) topic (counted r topic s ts) rest on
        (find_topic-store_topic r.topic_state_map topic (counted r topic s ts)) enabled within.1
        (omega arith) in
    rw (would_exceed_limit-within r topic s ts on found enabled within.0) (ground (arith, next))

-- If the interval is not 0, the timestamp is not before the state's interval and nothing wraps, the
-- interval of the state that is used contains the timestamp.
pub move_interval-current :
    (s : TopicState) (ts : ℕ)
    → 0 < s.interval
    → s.interval_start ≤ ts
    → ts + s.interval < 2 ^ 64
    → let s' = move_interval s ts in
      (s'.interval_start ≤ ts) × (ts < add_u64 s'.interval_start s'.interval)
unfolding move_interval
move_interval-current s ts positive past room =
    let d = ts - s.interval_start in ground (arith, div-add-mod' d s.interval, mod-lt d positive)

find_topic-store_topic_other :
    (map : List (Bytes × TopicState)) (topic other : Bytes) (s : TopicState)
    → bytes_eq topic other ≡ false
    → find_topic (store_topic map topic s) other ≡ find_topic map other
unfolding find_topic store_topic
find_topic-store_topic_other [] topic other s ne = rw ne refl
find_topic-store_topic_other ((t, x) ∷ rest) topic other s ne =
    elim (Bool-cases (bytes_eq t topic)) [
      | inl e ↦ let same : t ≡ topic = bytes_eq_sound t topic e in rw (e, same, ne) refl
      | inr e ↦ rw e (elim (Bool-cases (bytes_eq t other)) [
        | inl f ↦ rw f refl
        | inr f ↦ rw f (find_topic-store_topic_other rest topic other s ne)
      ])
    ]

-- Checking a message of one topic leaves the state of every other topic as it is.
pub would_exceed_limit-other :
    (r : MsgRateLimiter) (topic other : Bytes) (ts : ℕ)
    → bytes_eq topic other ≡ false
    → find_topic (would_exceed_limit r topic ts).0.topic_state_map other
      ≡ find_topic r.topic_state_map other
unfolding would_exceed_limit
would_exceed_limit-other r topic other ts ne = elim (Bool-cases r.is_enabled) [
  | inl e ↦ rw e (find_topic-store_topic_other r.topic_state_map topic other _ ne)
  | inr e ↦ rw e refl
]
