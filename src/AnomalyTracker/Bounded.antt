-- ===== src/AnomalyTracker/Bounded.antt =====
-- Every report of src/dory/anomaly_tracker.cc through all calls of the tracker.
use dory.Common.{
  ℕ, ◌≡◌, ◌∙◌, Bool, Bool-cases, inl, inr, List, [], ◌∷◌, ◌++◌, drop, ◌==◌, zero, suc, Option, none,
  some,
}
use dory.Common.Int.{ℤ}
use dory.Common.Bytes.{Bytes}
use dory.Msg.{Msg}
use dory.AnomalyTracker.{
  AnomalyTracker, Info, new_tracker, advance_report_period, move_reports, msg_prefix,
}
use dory.AnomalyTracker.Track.{
  DiscardReason, update_report, track_discard, track_duplicate, track_no_mem_discard,
  track_malformed_msg_discard, track_stream_client_unclean_disconnect,
  track_unsupported_api_key_discard, note_discard, note_duplicate, note_no_mem_discard,
  note_malformed_msg, note_unclean_disconnect, note_unsupported_api_key, note_unsupported_version,
  note_bad_topic, note_long_msg, track_unsupported_msg_version_discard, track_bad_topic_discard,
  track_long_msg_discard, get_info,
}
use dory.AnomalyTracker.Samples.{
  IsBounded, new_info-IsBounded, IsSafe, note_discard-IsSafe, note_duplicate-IsSafe,
  note_no_mem_discard-IsSafe, note_malformed_msg-IsSafe, note_unclean_disconnect-IsSafe,
  note_unsupported_api_key-IsSafe, note_unsupported_version-IsSafe, note_bad_topic-IsSafe,
  note_long_msg-IsSafe,
}
use dory.AnomalyTracker.Periods.{IsContiguous, Follows, advance_report_period-IsContiguous}

abbrev pub IsBoundedLast : Option Info → Type 0
IsBoundedLast none = Unit {0}
IsBoundedLast (some r) = IsBounded r

-- Both reports are bounded, and their periods follow one another.
pub record IsSound (t : AnomalyTracker) : Type 0 where
  pub filling_ok : IsBounded t.filling_report
  pub last_ok : IsBoundedLast t.last_full_report
  pub contiguous : IsContiguous t

-- A call of the tracker.
pub data Call : Type 0 where
  discards : Msg → DiscardReason → Call
  duplicates : Msg → Call
  has_no_mem : ℤ → Bytes → Call
  gets_malformed : Bytes → Call
  disconnects : Bool → Bytes → Call
  gets_unsupported_api_key : Call
  gets_unsupported_version : ℤ → Call
  gets_bad_topic : Bytes → Call
  gets_long : Msg → Call
  asks : Call

unfoldable pub call : ℕ → Call → AnomalyTracker → AnomalyTracker
unfolding track_discard track_duplicate track_no_mem_discard track_malformed_msg_discard
    track_stream_client_unclean_disconnect track_unsupported_api_key_discard
    track_unsupported_msg_version_discard track_bad_topic_discard track_long_msg_discard get_info
call now (discards m reason) t = track_discard now m reason t
call now (duplicates m) t = track_duplicate now m t
call now (has_no_mem timestamp topic) t = track_no_mem_discard now timestamp topic t
call now (gets_malformed bytes) t = track_malformed_msg_discard now bytes t
call now (disconnects is_tcp bytes) t = track_stream_client_unclean_disconnect now is_tcp bytes t
call now gets_unsupported_api_key t = track_unsupported_api_key_discard now t
call now (gets_unsupported_version version) t = track_unsupported_msg_version_discard now version t
call now (gets_bad_topic topic) t = track_bad_topic_discard now topic t
call now (gets_long m) t = track_long_msg_discard now m t
call now asks t = (get_info now t).0

unfoldable pub calls : List (ℕ × Call) → AnomalyTracker → AnomalyTracker
unfolding call
calls [] t = t
calls ((now, c) ∷ rest) t = calls rest (call now c t)

move_reports-IsBounded :
    (n : ℕ) (t : AnomalyTracker)
    → IsBounded t.filling_report
    → IsBoundedLast t.last_full_report
    → let u = move_reports n t in IsBounded u.filling_report × IsBoundedLast u.last_full_report
unfolding move_reports
move_reports-IsBounded zero t f l = (f, l)
move_reports-IsBounded (suc zero) t f l = (new_info-IsBounded 0 0, f)
move_reports-IsBounded (suc (suc n)) t f l = (new_info-IsBounded 0 0, new_info-IsBounded 0 0)

advance_report_period-IsSound :
    (now : ℕ) (t : AnomalyTracker) → IsSound t → IsSound (advance_report_period now t)
advance_report_period-IsSound now t h =
    let both : IsBounded (advance_report_period now t).filling_report
        × IsBoundedLast (advance_report_period now t).last_full_report =
      unfold advance_report_period in
      elim (Bool-cases (t.report_interval == 0)) [
        | inl e ↦ rw e (h.filling_ok, h.last_ok)
        | inr e ↦ rw e (move_reports-IsBounded _ t h.filling_ok h.last_ok)
      ] in
    record {
      filling_ok = both.0;
      last_ok = both.1;
      contiguous = advance_report_period-IsContiguous now t h.contiguous;
    }

Follows-same :
    (last : Option Info) (r r' : Info) (interval : ℕ)
    → r'.report_id ≡ r.report_id
    → r'.start_time ≡ r.start_time
    → Follows last r interval
    → Follows last r' interval
Follows-same none r r' interval e e' h = tt
Follows-same (some last) r r' interval e e' h = (e ∙ h.0, e' ∙ h.1)

update_report-IsSound :
    (now : ℕ) (f : Info → Info) (t : AnomalyTracker)
    → IsSafe f
    → IsSound t
    → IsSound (update_report now f t)
unfolding update_report
update_report-IsSound now f t (same_id, same_start, keep) h =
    let u = advance_report_period now t in
    let s = advance_report_period-IsSound now t h in
    record {
      filling_ok = keep u.filling_report s.filling_ok;
      last_ok = s.last_ok;
      contiguous =
          Follows-same u.last_full_report u.filling_report (f u.filling_report) u.report_interval
            (same_id u.filling_report) (same_start u.filling_report) s.contiguous;
    }

-- Every call keeps the reports sound.
call-IsSound : (now : ℕ) (c : Call) (t : AnomalyTracker) → IsSound t → IsSound (call now c t)
unfolding call
call-IsSound now (discards m reason) t h =
    update_report-IsSound now (note_discard m reason) t (note_discard-IsSafe m reason) h
call-IsSound now (duplicates m) t h =
    update_report-IsSound now (note_duplicate m) t (note_duplicate-IsSafe m) h
call-IsSound now (has_no_mem timestamp topic) t h =
    update_report-IsSound now (note_no_mem_discard timestamp topic) t
      (note_no_mem_discard-IsSafe timestamp topic) h
call-IsSound now (gets_malformed bytes) t h =
    let prefix = msg_prefix t bytes in
    update_report-IsSound now (note_malformed_msg prefix) t (note_malformed_msg-IsSafe prefix) h
call-IsSound now (disconnects is_tcp bytes) t h =
    let prefix = msg_prefix t bytes in
    update_report-IsSound now (note_unclean_disconnect is_tcp prefix) t
      (note_unclean_disconnect-IsSafe is_tcp prefix) h
call-IsSound now gets_unsupported_api_key t h =
    update_report-IsSound now note_unsupported_api_key t note_unsupported_api_key-IsSafe h
call-IsSound now (gets_unsupported_version version) t h =
    update_report-IsSound now (note_unsupported_version version) t
      (note_unsupported_version-IsSafe version) h
call-IsSound now (gets_bad_topic topic) t h =
    update_report-IsSound now (note_bad_topic topic) t (note_bad_topic-IsSafe topic) h
call-IsSound now (gets_long m) t h =
    let prefix = msg_prefix t (m.topic ++ (0x20 ∷ drop m.key_size m.key_and_value)) in
    update_report-IsSound now (note_long_msg m prefix) t (note_long_msg-IsSafe m prefix) h
call-IsSound now asks t h =
    advance_report_period-IsSound now (record t { last_get_info_time = now })
      (record { filling_ok = h.filling_ok; last_ok = h.last_ok; contiguous = h.contiguous })

calls_keep : (events : List (ℕ × Call)) (t : AnomalyTracker) → IsSound t → IsSound (calls events t)
unfolding calls
calls_keep [] t h = h
calls_keep ((now, c) ∷ events) t h = calls_keep events (call now c t) (call-IsSound now c t h)

-- After any calls of the anomaly tracker at any times, from its construction on, each list of
-- samples in the filling report and in the last full report has at most 25 samples, none of them
-- twice, and the last full report, if there is one, has the number and the start time that come one
-- and one interval before the filling report's, in 64-bit arithmetic.
pub calls-IsSound :
    (events : List (ℕ × Call)) (report_interval max_msg_prefix_len now : ℕ)
    → IsSound (calls events (new_tracker report_interval max_msg_prefix_len now))
unfolding new_tracker
calls-IsSound events report_interval max_msg_prefix_len now =
    calls_keep events (new_tracker report_interval max_msg_prefix_len now)
      (record { filling_ok = new_info-IsBounded 0 now; last_ok = tt; contiguous = tt })
