-- ===== src/AnomalyTracker/Samples.antt =====
-- The lists of samples of a report that each update of src/dory/anomaly_tracker.cc leaves.
use dory.Common.{ℕ, ◌≡◌, refl, Bool, true, false, [], arith}
use dory.Common.Int.{ℤ}
use dory.Common.Bytes.{Bytes}
use dory.Msg.{Msg}
use dory.AnomalyTracker.{
  Info, new_info, max_malformed_msgs, max_bad_topics, max_unclean_disconnect_msgs, max_long_msgs,
}
use dory.AnomalyTracker.Track.{
  DiscardReason, note_discard, note_duplicate, note_no_mem_discard, note_malformed_msg,
  note_unclean_disconnect, note_unsupported_api_key, note_unsupported_version, note_bad_topic,
  note_long_msg,
}
use dory.AnomalyTracker.Lru.{IsLru, update_lru_list-IsLru}

-- The lists of samples of a report: malformed messages, unclean disconnects of UNIX and of TCP stream
-- clients, long messages and bad topics.
abbrev pub IsBounded : Info → Type 0
IsBounded r =
    IsLru max_malformed_msgs r.malformed_msgs
    × IsLru max_unclean_disconnect_msgs r.unix_stream_unclean_disconnect_msgs
    × IsLru max_unclean_disconnect_msgs r.tcp_unclean_disconnect_msgs
    × IsLru max_long_msgs r.long_msgs
    × IsLru max_bad_topics r.bad_topics

pub new_info-IsBounded : (report_id start_time : ℕ) → IsBounded (new_info report_id start_time)
new_info-IsBounded report_id start_time =
    let none_yet : IsLru 25 [] = (omega arith, tt) in
    (none_yet, none_yet, none_yet, none_yet, none_yet)

-- An update keeps the period and the bounds.
abbrev pub IsSafe : (Info → Info) → Type 0
IsSafe f =
    ((r : Info) → (f r).report_id ≡ r.report_id)
    × ((r : Info) → (f r).start_time ≡ r.start_time)
    × ((r : Info) → IsBounded r → IsBounded (f r))

pub note_discard-IsSafe : (m : Msg) (reason : DiscardReason) → IsSafe (note_discard m reason)
unfolding note_discard
note_discard-IsSafe m reason = (λ r. refl, λ r. refl, λ r b. b)

pub note_duplicate-IsSafe : (m : Msg) → IsSafe (note_duplicate m)
unfolding note_duplicate
note_duplicate-IsSafe m = (λ r. refl, λ r. refl, λ r b. b)

pub note_no_mem_discard-IsSafe :
    (timestamp : ℤ) (topic : Bytes) → IsSafe (note_no_mem_discard timestamp topic)
unfolding note_no_mem_discard
note_no_mem_discard-IsSafe timestamp topic = (λ r. refl, λ r. refl, λ r b. b)

pub note_unsupported_api_key-IsSafe : IsSafe note_unsupported_api_key
unfolding note_unsupported_api_key
note_unsupported_api_key-IsSafe = (λ r. refl, λ r. refl, λ r b. b)

pub note_unsupported_version-IsSafe : (version : ℤ) → IsSafe (note_unsupported_version version)
unfolding note_unsupported_version
note_unsupported_version-IsSafe version = (λ r. refl, λ r. refl, λ r b. b)

pub note_malformed_msg-IsSafe : (prefix : Bytes) → IsSafe (note_malformed_msg prefix)
unfolding note_malformed_msg
note_malformed_msg-IsSafe prefix = (
  λ r. refl,
  λ r. refl,
  λ r b.
      let (malformed, unix, tcp, long, bad_topics) = b in
      let malformed' = update_lru_list-IsLru prefix r.malformed_msgs max_malformed_msgs malformed in
      (malformed', unix, tcp, long, bad_topics),
)

pub note_bad_topic-IsSafe : (topic : Bytes) → IsSafe (note_bad_topic topic)
unfolding note_bad_topic
note_bad_topic-IsSafe topic = (
  λ r. refl,
  λ r. refl,
  λ r b.
      let (malformed, unix, tcp, long, bad_topics) = b in
      (
        malformed,
        unix,
        tcp,
        long,
        update_lru_list-IsLru topic r.bad_topics max_bad_topics bad_topics,
      ),
)

pub note_long_msg-IsSafe : (m : Msg) (prefix : Bytes) → IsSafe (note_long_msg m prefix)
unfolding note_long_msg
note_long_msg-IsSafe m prefix = (
  λ r. refl,
  λ r. refl,
  λ r b.
      let (malformed, unix, tcp, long, bad_topics) = b in
      (
        malformed,
        unix,
        tcp,
        update_lru_list-IsLru prefix r.long_msgs max_long_msgs long,
        bad_topics,
      ),
)

pub note_unclean_disconnect-IsSafe :
    (is_tcp : Bool) (prefix : Bytes) → IsSafe (note_unclean_disconnect is_tcp prefix)
unfolding note_unclean_disconnect
note_unclean_disconnect-IsSafe true prefix = (
  λ r. refl,
  λ r. refl,
  λ r b.
      let (malformed, unix, tcp, long, bad_topics) = b in
      let tcp' =
        update_lru_list-IsLru prefix r.tcp_unclean_disconnect_msgs max_unclean_disconnect_msgs
          tcp in
      (malformed, unix, tcp', long, bad_topics),
)
note_unclean_disconnect-IsSafe false prefix = (
  λ r. refl,
  λ r. refl,
  λ r b.
      let (malformed, unix, tcp, long, bad_topics) = b in
      let unix' =
        update_lru_list-IsLru prefix r.unix_stream_unclean_disconnect_msgs
          max_unclean_disconnect_msgs unix in
      (malformed, unix', tcp, long, bad_topics),
)
