-- ===== src/AnomalyTracker/Track.antt =====
-- The Track methods and GetInfo of src/dory/anomaly_tracker.cc.
use dory.Common.{ℕ, Bool, true, false, ◌∷◌, ◌++◌, Option, drop, if◌then◌else◌}
use dory.Common.Int.{ℤ}
use dory.Common.Bytes.{Bytes}
use dory.Common.Word.{add_u64}
use dory.Msg.{Msg}
use dory.AnomalyTracker.{
  AnomalyTracker, Info, update_lru_list, update_topic_map, count_topic, count_version,
  advance_report_period, msg_prefix, max_malformed_msgs, max_bad_topics,
  max_unclean_disconnect_msgs, max_long_msgs,
}

-- TDiscardReason, of which only one is told apart here.
pub data DiscardReason : Type 0 where
  bug failed_delivery_attempt_limit kafka_error_ack server_shutdown : DiscardReason
  no_available_partitions rate_limit failed_topic_autocreate : DiscardReason

abbrev pub is_rate_limit : DiscardReason → Bool
is_rate_limit rate_limit = true
is_rate_limit bug = false
is_rate_limit failed_delivery_attempt_limit = false
is_rate_limit kafka_error_ack = false
is_rate_limit server_shutdown = false
is_rate_limit no_available_partitions = false
is_rate_limit failed_topic_autocreate = false

-- AdvanceReportPeriod, and an update of the filling report.
unfoldable pub update_report : ℕ → (Info → Info) → AnomalyTracker → AnomalyTracker
unfolding advance_report_period
update_report now f t =
    let u = advance_report_period now t in record u { filling_report = f u.filling_report }

-- What each method writes in the filling report.
unfoldable pub note_discard : Msg → DiscardReason → Info → Info
unfolding update_topic_map count_topic
note_discard m reason r = record r {
  discard_topic_map = update_topic_map r.discard_topic_map m.topic m.timestamp;
  rate_limit_discard_map =
      if is_rate_limit reason
      then count_topic r.rate_limit_discard_map m.topic
      else r.rate_limit_discard_map;
}

unfoldable pub note_duplicate : Msg → Info → Info
unfolding update_topic_map
note_duplicate m r = record r {
  duplicate_topic_map = update_topic_map r.duplicate_topic_map m.topic m.timestamp;
}

unfoldable pub note_no_mem_discard : ℤ → Bytes → Info → Info
unfolding update_topic_map
note_no_mem_discard timestamp topic r = record r {
  discard_topic_map = update_topic_map r.discard_topic_map topic timestamp;
}

unfoldable pub note_malformed_msg : Bytes → Info → Info
unfolding update_lru_list
note_malformed_msg prefix r = record r {
  malformed_msg_count = add_u64 r.malformed_msg_count 1;
  malformed_msgs = update_lru_list prefix r.malformed_msgs max_malformed_msgs;
}

unfoldable pub note_unclean_disconnect : Bool → Bytes → Info → Info
unfolding update_lru_list
note_unclean_disconnect true prefix r = record r {
  tcp_unclean_disconnect_count = add_u64 r.tcp_unclean_disconnect_count 1;
  tcp_unclean_disconnect_msgs =
      update_lru_list prefix r.tcp_unclean_disconnect_msgs max_unclean_disconnect_msgs;
}
note_unclean_disconnect false prefix r = record r {
  unix_stream_unclean_disconnect_count = add_u64 r.unix_stream_unclean_disconnect_count 1;
  unix_stream_unclean_disconnect_msgs =
      update_lru_list prefix r.unix_stream_unclean_disconnect_msgs max_unclean_disconnect_msgs;
}

unfoldable pub note_unsupported_api_key : Info → Info
note_unsupported_api_key r = record r {
  unsupported_api_key_msg_count = add_u64 r.unsupported_api_key_msg_count 1;
}

unfoldable pub note_unsupported_version : ℤ → Info → Info
unfolding count_version
note_unsupported_version version r = record r {
  unsupported_version_msg_count = add_u64 r.unsupported_version_msg_count 1;
  unsupported_version_msgs = count_version r.unsupported_version_msgs version;
}

unfoldable pub note_bad_topic : Bytes → Info → Info
unfolding update_lru_list
note_bad_topic topic r = record r {
  bad_topic_msg_count = add_u64 r.bad_topic_msg_count 1;
  bad_topics = update_lru_list topic r.bad_topics max_bad_topics;
}

unfoldable pub note_long_msg : Msg → Bytes → Info → Info
unfolding update_lru_list update_topic_map
note_long_msg m prefix r = record r {
  long_msgs = update_lru_list prefix r.long_msgs max_long_msgs;
  discard_topic_map = update_topic_map r.discard_topic_map m.topic m.timestamp;
}

unfoldable pub track_discard : ℕ → Msg → DiscardReason → AnomalyTracker → AnomalyTracker
unfolding update_report note_discard
track_discard now m reason t = update_report now (note_discard m reason) t

unfoldable pub track_duplicate : ℕ → Msg → AnomalyTracker → AnomalyTracker
unfolding update_report note_duplicate
track_duplicate now m t = update_report now (note_duplicate m) t

unfoldable pub track_no_mem_discard : ℕ → ℤ → Bytes → AnomalyTracker → AnomalyTracker
unfolding update_report note_no_mem_discard
track_no_mem_discard now timestamp topic t =
    update_report now (note_no_mem_discard timestamp topic) t

unfoldable pub track_malformed_msg_discard : ℕ → Bytes → AnomalyTracker → AnomalyTracker
unfolding update_report note_malformed_msg msg_prefix
track_malformed_msg_discard now bytes t =
    update_report now (note_malformed_msg (msg_prefix t bytes)) t

unfoldable pub track_stream_client_unclean_disconnect :
    ℕ → Bool → Bytes → AnomalyTracker → AnomalyTracker
unfolding update_report note_unclean_disconnect msg_prefix
track_stream_client_unclean_disconnect now is_tcp bytes t =
    update_report now (note_unclean_disconnect is_tcp (msg_prefix t bytes)) t

unfoldable pub track_unsupported_api_key_discard : ℕ → AnomalyTracker → AnomalyTracker
unfolding update_report note_unsupported_api_key
track_unsupported_api_key_discard now t = update_report now note_unsupported_api_key t

unfoldable pub track_unsupported_msg_version_discard : ℕ → ℤ → AnomalyTracker → AnomalyTracker
unfolding update_report note_unsupported_version
track_unsupported_msg_version_discard now version t =
    update_report now (note_unsupported_version version) t

unfoldable pub track_bad_topic_discard : ℕ → Bytes → AnomalyTracker → AnomalyTracker
unfolding update_report note_bad_topic
track_bad_topic_discard now topic t = update_report now (note_bad_topic topic) t

-- The sample is the topic, a blank, and the value, which follows the key in the blob.
unfoldable pub track_long_msg_discard : ℕ → Msg → AnomalyTracker → AnomalyTracker
unfolding update_report note_long_msg msg_prefix
track_long_msg_discard now m t =
    update_report now
      (note_long_msg m (msg_prefix t (m.topic ++ (0x20 ∷ drop m.key_size m.key_and_value)))) t

-- GetInfo: the tracker, the last full report, and a copy of the filling one.
unfoldable pub get_info : ℕ → AnomalyTracker → AnomalyTracker × Option Info × Info
unfolding advance_report_period
get_info now t =
    let u = advance_report_period now (record t { last_get_info_time = now }) in
    (u, u.last_full_report, u.filling_report)
