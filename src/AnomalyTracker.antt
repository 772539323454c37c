-- ===== src/AnomalyTracker.antt =====
-- src/dory/anomaly_tracker.*: counts and samples of discarded messages, in reports that each cover an
-- interval of time. A std::map is the list of its items; their order is left out. The file that
-- discards are logged to is left out; now is what ClockFn yields, in seconds. The mutex makes each
-- call one step.
pub mod Track
pub mod Lru
pub mod Periods
pub mod Samples
pub mod Bounded
use dory.Common.{
  ℕ, zero, suc, ◌+◌, ◌-◌, ◌*◌, ◌/◌, ◌%◌, ◌^◌, min, Bool, true, false, List, [], ◌∷◌, ◌++◌, Option,
  none, some, length, take, drop, ltb, leb, ◌==◌, if◌then◌else◌,
}
use dory.Common.Int.{ℤ, ltb_ℤ, eq_ℤ}
use dory.Common.Bytes.{Bytes, bytes_eq}
use dory.Common.Word.{add_u64}
use dory.Msg.{Msg}

pub record TopicInfo : Type 0 where
  pub first : ℤ
  pub last : ℤ
  pub count : ℕ

pub record Info : Type 0 where
  pub report_id : ℕ
  pub start_time : ℕ
  pub discard_topic_map : List (Bytes × TopicInfo)
  pub duplicate_topic_map : List (Bytes × TopicInfo)
  pub rate_limit_discard_map : List (Bytes × ℕ)
  pub malformed_msgs : List Bytes
  pub unix_stream_unclean_disconnect_msgs : List Bytes
  pub tcp_unclean_disconnect_msgs : List Bytes
  pub unsupported_version_msgs : List (ℤ × ℕ)
  pub long_msgs : List Bytes
  pub bad_topics : List Bytes
  pub malformed_msg_count : ℕ
  pub unix_stream_unclean_disconnect_count : ℕ
  pub tcp_unclean_disconnect_count : ℕ
  pub unsupported_api_key_msg_count : ℕ
  pub unsupported_version_msg_count : ℕ
  pub bad_topic_msg_count : ℕ

abbrev pub new_info : ℕ → ℕ → Info
new_info report_id start_time = record {
  report_id = report_id;
  start_time = start_time;
  discard_topic_map = [];
  duplicate_topic_map = [];
  rate_limit_discard_map = [];
  malformed_msgs = [];
  unix_stream_unclean_disconnect_msgs = [];
  tcp_unclean_disconnect_msgs = [];
  unsupported_version_msgs = [];
  long_msgs = [];
  bad_topics = [];
  malformed_msg_count = 0;
  unix_stream_unclean_disconnect_count = 0;
  tcp_unclean_disconnect_count = 0;
  unsupported_api_key_msg_count = 0;
  unsupported_version_msg_count = 0;
  bad_topic_msg_count = 0;
}

pub record AnomalyTracker : Type 0 where
  pub report_interval : ℕ
  pub max_msg_prefix_len : ℕ
  pub filling_report : Info
  pub last_full_report : Option Info
  pub last_get_info_time : ℕ

unfoldable pub new_tracker : ℕ → ℕ → ℕ → AnomalyTracker
new_tracker report_interval max_msg_prefix_len now = record {
  report_interval = report_interval;
  max_msg_prefix_len = max_msg_prefix_len;
  filling_report = new_info 0 now;
  last_full_report = none;
  last_get_info_time = now;
}

abbrev pub max_malformed_msgs : ℕ
max_malformed_msgs = 25

abbrev pub max_bad_topics : ℕ
max_bad_topics = 25

abbrev pub max_unclean_disconnect_msgs : ℕ
max_unclean_disconnect_msgs = 25

abbrev pub max_long_msgs : ℕ
max_long_msgs = 25

-- std::find, and what splice leaves of the rest of the list.
unfoldable pub contains : Bytes → List Bytes → Bool
contains s [] = false
contains s (x ∷ xs) = if bytes_eq x s then true else contains s xs

unfoldable pub remove_first : Bytes → List Bytes → List Bytes
remove_first s [] = []
remove_first s (x ∷ xs) = if bytes_eq x s then xs else x ∷ remove_first s xs

unfoldable pub pop_back : List Bytes → List Bytes
pop_back [] = []
pop_back (x ∷ []) = []
pop_back (x ∷ y ∷ ys) = x ∷ pop_back (y ∷ ys)

unfoldable pub update_lru_list : Bytes → List Bytes → ℕ → List Bytes
unfolding contains remove_first pop_back
update_lru_list s lru_list max_list_size =
    if contains s lru_list
    then s ∷ remove_first s lru_list
    else if ltb max_list_size (length (s ∷ lru_list))
    then pop_back (s ∷ lru_list)
    else s ∷ lru_list

-- The update of an item that is there.
unfoldable pub widen : TopicInfo → ℤ → TopicInfo
widen info timestamp = record {
  first = if ltb_ℤ timestamp info.first then timestamp else info.first;
  last =
      if ltb_ℤ timestamp info.first
      then info.last
      else if ltb_ℤ info.last timestamp
      then timestamp
      else info.last;
  count = add_u64 info.count 1;
}

unfoldable pub update_topic_map : List (Bytes × TopicInfo) → Bytes → ℤ → List (Bytes × TopicInfo)
unfolding widen
update_topic_map [] topic timestamp =
    (topic, record { first = timestamp; last = timestamp; count = 1 }) ∷ []
update_topic_map ((t, info) ∷ rest) topic timestamp =
    if bytes_eq t topic
    then (t, widen info timestamp) ∷ rest
    else (t, info) ∷ update_topic_map rest topic timestamp

unfoldable pub count_topic : List (Bytes × ℕ) → Bytes → List (Bytes × ℕ)
count_topic [] topic = (topic, 1) ∷ []
count_topic ((t, n) ∷ rest) topic =
    if bytes_eq t topic then (t, add_u64 n 1) ∷ rest else (t, n) ∷ count_topic rest topic

unfoldable pub count_version : List (ℤ × ℕ) → ℤ → List (ℤ × ℕ)
count_version [] version = (version, 1) ∷ []
count_version ((v, n) ∷ rest) version =
    if eq_ℤ v version then (v, add_u64 n 1) ∷ rest else (v, n) ∷ count_version rest version

-- The switch of AdvanceReportPeriod on the number of periods gone by.
unfoldable pub move_reports : ℕ → AnomalyTracker → AnomalyTracker
move_reports zero t = t
move_reports (suc zero) t = record t {
  last_full_report = some t.filling_report;
  filling_report =
      new_info (add_u64 t.filling_report.report_id 1)
        (add_u64 t.filling_report.start_time t.report_interval);
}
move_reports (suc (suc n)) t =
    let prev_id = add_u64 t.filling_report.report_id (suc n) in
    let prev_start = add_u64 t.filling_report.start_time (suc n * t.report_interval % 2 ^ 64) in
    record t {
      last_full_report = some (new_info prev_id prev_start);
      filling_report = new_info (add_u64 prev_id 1) (add_u64 prev_start t.report_interval);
    }

unfoldable pub advance_report_period : ℕ → AnomalyTracker → AnomalyTracker
unfolding move_reports
advance_report_period now t =
    let current_start = t.filling_report.start_time in
    let now_offset = if leb current_start now then now - current_start else 0 in
    if t.report_interval == 0 then t else move_reports (now_offset / t.report_interval) t

-- EnforceMaxPrefixLen
unfoldable pub msg_prefix : AnomalyTracker → Bytes → Bytes
msg_prefix t bytes = take (min (length bytes) t.max_msg_prefix_len) bytes
