-- ===== src/Tests/Anomalies.antt =====
-- Runs of the anomaly tracker.
use dory.Common.{◌+◌, ◌-◌, ◌*◌, ◌/◌, ◌≤◌, ◌<◌, ◌≡◌, refl, arith, List, [], ◌∷◌, take}
use dory.Common.Bytes.{Bytes, bytes_eq}
use dory.AnomalyTracker.{new_tracker, update_lru_list, advance_report_period, contains}
use dory.AnomalyTracker.Lru.{without, update_lru_list-eq-take}
use dory.AnomalyTracker.Periods.{advance_report_period-IsCurrent}
use dory.AnomalyTracker.Bounded.{
  gets_malformed, gets_bad_topic, asks, calls, IsSound, calls-IsSound,
}
use dory.Tests.Data.{topic_a, topic_b}

abbrev three_topics : List Bytes
three_topics = topic_a ∷ topic_b ∷ (99 ∷ []) ∷ []

update_lru_list-eq-take_example :
    update_lru_list (100 ∷ []) three_topics 3
    ≡ take 3 ((100 ∷ []) ∷ without (100 ∷ []) three_topics)
unfolding contains bytes_eq
update_lru_list-eq-take_example =
    update_lru_list-eq-take (100 ∷ []) three_topics 3 (omega arith) (refl, (refl, (refl, tt)))

advance_report_period-IsCurrent_example :
    let u = advance_report_period 1250 (new_tracker 100 64 1000) in
    let periods = (1250 - 1000) / 100 in
    (u.filling_report.start_time ≤ 1250)
    × (1250 < u.filling_report.start_time + 100)
    × (u.filling_report.report_id ≡ 0 + periods)
    × (u.filling_report.start_time ≡ 1000 + periods * 100)
unfolding new_tracker
advance_report_period-IsCurrent_example =
    advance_report_period-IsCurrent 1250 (new_tracker 100 64 1000) (omega arith) (omega arith)
      (omega arith) (omega arith)

calls-IsSound_example : IsSound (
    calls
      ((1000, gets_malformed (1 ∷ 2 ∷ [])) ∷ (1150, gets_bad_topic topic_a) ∷ (1400, asks) ∷ [])
      (new_tracker 100 64 1000))
calls-IsSound_example =
    calls-IsSound
      ((1000, gets_malformed (1 ∷ 2 ∷ [])) ∷ (1150, gets_bad_topic topic_a) ∷ (1400, asks) ∷ []) 100
      64 1000

-- The sample seen last is moved to the front; a new one drops the oldest of a full list.
moved_to_front : update_lru_list topic_b three_topics 3 ≡ topic_b ∷ topic_a ∷ (99 ∷ []) ∷ []
unfolding update_lru_list bytes_eq
moved_to_front = refl

oldest_dropped : update_lru_list (100 ∷ []) three_topics 3 ≡ (100 ∷ []) ∷ topic_a ∷ topic_b ∷ []
unfolding update_lru_list bytes_eq
oldest_dropped = refl
