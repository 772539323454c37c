-- ===== src/Tests/RateLimit.antt =====
-- A topic of two messages in 100 milliseconds.
use dory.Common.{ℕ, ◌-◌, ◌≡◌, refl, true, List, [], ◌∷◌, some, arith, length, min}
use dory.Common.Bytes.{bytes_eq}
use dory.MsgRateLimiter.{MsgRateLimiter, TopicState, find_topic}
use dory.MsgRateLimiter.Interval.{passed, passed-min}
use dory.Tests.Data.{topic_a}

abbrev state : TopicState
state = record { enable = true; interval = 100; max_count = 2; interval_start = 1000; count = 1 }

abbrev limiter : MsgRateLimiter
limiter = record {
  conf = record {
    default_topic = record { interval = 100; max_count = some 2 };
    topic_configs = [];
  };
  is_enabled = true;
  topic_state_map = (topic_a, state) ∷ [];
}

abbrev times : List ℕ
times = 1010 ∷ 1020 ∷ 1099 ∷ []

passed-min_example :
    passed limiter topic_a times ≡ min (length times) (state.max_count - state.count)
unfolding find_topic bytes_eq
passed-min_example =
    passed-min limiter topic_a state times refl refl refl
      (omega arith, (omega arith, (omega arith, tt))) (omega arith)
