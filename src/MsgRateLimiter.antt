-- ===== src/MsgRateLimiter.antt =====
-- src/dory/msg_rate_limiter.cc: a limit for each topic on the messages in an interval of time. A
-- map is a list in its iteration order. The configuration rejects an interval of 0.
pub mod Interval
use dory.Common.{
  ℕ, ◌+◌, ◌-◌, ◌*◌, ◌/◌, ◌^◌, ◌≡◌, refl, Bool, true, false, not, ◌&&◌, ◌||◌, List, [], ◌∷◌, Option,
  none, some, leb, ltb, if◌then◌else◌, Bool-cases, inl, inr,
}
use dory.Common.Word.{add_u64}
use dory.Common.Bytes.{Bytes, bytes_eq, bytes_eq_refl}

pub record TopicRateConf : Type 0 where
  pub interval : ℕ
  pub max_count : Option ℕ

pub record RateConf : Type 0 where
  pub default_topic : TopicRateConf
  pub topic_configs : List (Bytes × TopicRateConf)

pub record TopicState : Type 0 where
  pub enable : Bool
  pub interval : ℕ
  pub max_count : ℕ
  pub interval_start : ℕ
  pub count : ℕ

pub record MsgRateLimiter : Type 0 where
  pub conf : RateConf
  pub is_enabled : Bool
  pub topic_state_map : List (Bytes × TopicState)

unfoldable pub find_topic {ℓ} : {A : Type ℓ} → List (Bytes × A) → Bytes → Option A
find_topic [] topic = none
find_topic ((t, a) ∷ rest) topic = if bytes_eq t topic then some a else find_topic rest topic

-- Change the entry of the topic, or add one.
unfoldable pub store_topic {ℓ} : {A : Type ℓ} → List (Bytes × A) → Bytes → A → List (Bytes × A)
store_topic [] topic a = (topic, a) ∷ []
store_topic ((t, x) ∷ rest) topic a =
    if bytes_eq t topic then (t, a) ∷ rest else (t, x) ∷ store_topic rest topic a

abbrev pub has_limit : TopicRateConf → Bool
has_limit c = elim c.max_count [ none ↦ false | some n ↦ true ]

abbrev any_has_limit : List (Bytes × TopicRateConf) → Bool
any_has_limit [] = false
any_has_limit ((t, c) ∷ rest) = has_limit c || any_has_limit rest

pub rate_limiting_is_enabled : RateConf → Bool
rate_limiting_is_enabled c = has_limit c.default_topic || any_has_limit c.topic_configs

pub new_rate_limiter : RateConf → MsgRateLimiter
unfolding rate_limiting_is_enabled
new_rate_limiter c = record {
  conf = c;
  is_enabled = rate_limiting_is_enabled c;
  topic_state_map = [];
}

-- The state of a topic that has no limit keeps its initializers.
pub new_topic_state : TopicRateConf → ℕ → TopicState
new_topic_state c timestamp = elim c.max_count [
  | none ↦ record { enable = false; interval = 1; max_count = 0; interval_start = 0; count = 0 }
  | some n ↦ record {
    enable = true;
    interval = c.interval;
    max_count = n;
    interval_start = timestamp;
    count = 0;
  }
]

-- A state that is found moves on to the interval of the timestamp, if its own is over.
pub move_interval : TopicState → ℕ → TopicState
move_interval s timestamp =
    let interval_delta = (timestamp - s.interval_start) / s.interval in
    if leb (add_u64 s.interval_start s.interval) timestamp
    then record s {
      interval_start = add_u64 s.interval_start (interval_delta * s.interval);
      count = 0;
    }
    else s

unfoldable pub get_topic_state : MsgRateLimiter → Bytes → ℕ → TopicState
unfolding find_topic new_topic_state move_interval
get_topic_state r topic timestamp = elim (find_topic r.topic_state_map topic) [
  | some s ↦ move_interval s timestamp
  | none ↦
      new_topic_state
        (elim (find_topic r.conf.topic_configs topic) [ none ↦ r.conf.default_topic | some c ↦ c ])
        timestamp
]

-- The limiter afterwards, and whether the message is over the limit.
pub would_exceed_limit : MsgRateLimiter → Bytes → ℕ → MsgRateLimiter × Bool
unfolding get_topic_state store_topic
would_exceed_limit r topic timestamp =
    let s = get_topic_state r topic timestamp in
    let count = add_u64 s.count 1 in
    let s' : TopicState = record s { count = count } in
    if r.is_enabled
    then (
      record r { topic_state_map = store_topic r.topic_state_map topic s' },
      s.enable && ltb s.max_count count,
    )
    else (r, false)

pub find_topic-store_topic :
    {A : Type 0} (map : List (Bytes × A)) (topic : Bytes) (a : A)
    → find_topic (store_topic map topic a) topic ≡ some a
unfolding find_topic store_topic
find_topic-store_topic [] topic a = rw (bytes_eq_refl topic) refl
find_topic-store_topic ((t, x) ∷ rest) topic a = elim (Bool-cases (bytes_eq t topic)) [
  | inl e ↦ rw (e, e) refl
  | inr e ↦ rw (e, e) (find_topic-store_topic rest topic a)
]
