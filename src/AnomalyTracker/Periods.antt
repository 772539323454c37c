-- ===== src/AnomalyTracker/Periods.antt =====
-- The reporting periods in src/dory/anomaly_tracker.cc.
use dory.Common.{
  ℕ, zero, suc, ◌+◌, ◌-◌, ◌*◌, ◌/◌, ◌%◌, ◌^◌, ◌≤◌, ◌<◌, ◌≡◌, refl, Option, none, some, Bool-cases,
  inl, inr, arith, leb, ◌==◌, true, false,
}
use dory.Common.Word.{add_u64}
use dory.AnomalyTracker.{AnomalyTracker, Info, advance_report_period, move_reports}
use native.Mathlib.Nat.{div-add-mod', div-le_self, mod-lt}

-- A last full report, where there is one, is that of the period before the filling report's.
abbrev pub Follows : Option Info → Info → ℕ → Type 0
Follows none filling interval = Unit {0}
Follows (some r) filling interval =
    (filling.report_id ≡ add_u64 r.report_id 1)
    × (filling.start_time ≡ add_u64 r.start_time interval)

abbrev pub IsContiguous : AnomalyTracker → Type 0
IsContiguous t = Follows t.last_full_report t.filling_report t.report_interval

move_reports-IsContiguous :
    (n : ℕ) (t : AnomalyTracker) → IsContiguous t → IsContiguous (move_reports n t)
unfolding move_reports
move_reports-IsContiguous zero t h = h
move_reports-IsContiguous (suc zero) t h = (refl, refl)
move_reports-IsContiguous (suc (suc n)) t h = (refl, refl)

pub advance_report_period-IsContiguous :
    (now : ℕ) (t : AnomalyTracker) → IsContiguous t → IsContiguous (advance_report_period now t)
unfolding advance_report_period
advance_report_period-IsContiguous now t h = elim (Bool-cases (t.report_interval == 0)) [
  | inl e ↦ rw (e, advance_report_period) h
  | inr e ↦ rw (e, advance_report_period) (move_reports-IsContiguous _ t h)
]

-- The period that a number of periods later.
move_reports-period :
    (n : ℕ) (t : AnomalyTracker)
    → t.filling_report.report_id + n < 2 ^ 64
    → t.filling_report.start_time + n * t.report_interval < 2 ^ 64
    → let u = move_reports n t in
      (u.filling_report.report_id ≡ t.filling_report.report_id + n)
      × (u.filling_report.start_time ≡ t.filling_report.start_time + n * t.report_interval)
unfolding move_reports
move_reports-period zero t h k = omega arith
move_reports-period (suc zero) t h k = omega arith
move_reports-period (suc (suc n)) t h k =
    let i = t.report_interval in
    let more : suc (suc n) * i ≡ suc n * i + i = grind arith in
    let small : suc n * i % 2 ^ 64 ≡ suc n * i = omega (arith, k, more) in
    (omega (arith, h), rw small (omega (arith, k, more)))

-- If the interval is not 0, the filling report has begun, and the time and the report's number with
-- the time added are below 2^64, then after AdvanceReportPeriod the time lies in the filling
-- report's interval, and the number and the start time have gone on by the whole periods that have
-- passed.
pub advance_report_period-IsCurrent :
    (now : ℕ) (t : AnomalyTracker)
    → 0 < t.report_interval
    → t.filling_report.start_time ≤ now
    → now < 2 ^ 64
    → t.filling_report.report_id + now < 2 ^ 64
    → let u = advance_report_period now t in
      let periods = (now - t.filling_report.start_time) / t.report_interval in
      (u.filling_report.start_time ≤ now)
      × (now < u.filling_report.start_time + t.report_interval)
      × (u.filling_report.report_id ≡ t.filling_report.report_id + periods)
      × (u.filling_report.start_time ≡ t.filling_report.start_time + periods * t.report_interval)
unfolding advance_report_period
advance_report_period-IsCurrent now t pos started now_fits id_fits =
    let i = t.report_interval in
    let start = t.filling_report.start_time in
    let offset = now - start in
    let split = div-add-mod' offset i in
    let below = mod-lt offset pos in
    let some_interval : i == 0 ≡ false = ground (arith, pos) in
    let forward : leb start now ≡ true = ground (arith, started) in
    let few : offset / i ≤ offset = div-le_self offset i in
    let (id, moved) =
      move_reports-period (offset / i) t (omega (arith, few, id_fits))
        (omega (arith, split, now_fits, started)) in
    rw (some_interval, forward)
      (omega (arith, moved, split, started), omega (arith, moved, split, below, started), id, moved)
