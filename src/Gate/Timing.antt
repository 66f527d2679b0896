-- ===== src/Gate/Timing.antt =====
-- Maintenance windows: `_maintenance_window_is_open` and `timing` (trusted_change.py). `none` is an
-- exception: an unknown time zone, a start time that is no time of day.
use Prim.Native.String.{len, slice}
use text.Mathlib.Text.{find?}
use aisys_adm.Prelude.{
  ℕ, String, Bool, true, false, not, ◌+◌, ◌*◌, ◌&&◌, Option, none, some, leb, ltb, ◌is◌, mem_num,
  if◌then◌else◌, ◌>>=◌,
}
use aisys_adm.Models.Words.{
  JobStatus, ExecutionState, ExecutionTiming, execution_timing_enum, FailureCategory,
}
use aisys_adm.Models.Values.{Datetime}
use aisys_adm.Models.Hosts.{MaintenanceWindow}
use aisys_adm.Models.Remediations.{Remediation}
use aisys_adm.Gate.Decision.{GateCode, GateDecision, allow, deny}

-- What the code asks of `zoneinfo`, `datetime` and `int`. `local zone t` is the day of the week and
-- the date of `t.astimezone(ZoneInfo(zone))`; `combine zone date hour minute` is the timestamp of
-- `datetime.combine(date, time(hour, minute), ZoneInfo(zone))`, in microseconds.
pub record Calendar : Type 0 where
  pub local : String → Datetime → Option (ℕ × ℕ)
  pub combine : String → ℕ → ℕ → ℕ → Option ℕ
  pub int : String → Option ℕ

pub record TimingDecision : Type 0 where
  pub decision : GateDecision
  pub job_status : JobStatus
  pub remediation_state : ExecutionState

-- value.split(":", 1), where it has two parts
unfoldable pub split_once : String → Option (String × String)
split_once s = elim (find? s ":") [
  | none ↦ none
  | some i ↦ some (slice s 0 i, slice s (i + 1) (len s))
]

unfoldable pub window_contains : ℕ → ℕ → ℕ → Bool
window_contains start duration_minutes now =
    leb start now && ltb now (start + duration_minutes * 60 * 1000000)

module _ (calendar : Calendar) where
  unfoldable pub window_is_open : MaintenanceWindow → Datetime → Option Bool
  unfolding split_once window_contains
  window_is_open window current = do
    (weekday, date) ← calendar.local window.timezone current
    if not (mem_num weekday window.weekdays) then some false else do
      (hour_text, minute_text) ← split_once window.start_time
      hour ← calendar.int hour_text
      minute ← calendar.int minute_text
      start ← calendar.combine window.timezone date hour minute
      some (window_contains start window.duration_minutes current.instant)

  unfoldable pub maintenance_window_is_open : Remediation → Datetime → Option Bool
  maintenance_window_is_open r current =
      if r.execution_timing is ExecutionTiming.immediate
      then some true
      else elim r.maintenance_window [
        | none ↦ some false
        | some window ↦ window_is_open window current
      ]

  unfoldable pub timing : Remediation → Datetime → Option TimingDecision
  timing r current = do
    is_open ← maintenance_window_is_open r current
    some (
        if is_open
        then record {
          decision = allow;
          job_status = JobStatus.queued;
          remediation_state = ExecutionState.queued;
        }
        else record {
          decision = deny GateCode.maintenance_window_closed none FailureCategory.scheduling false;
          job_status = JobStatus.scheduled;
          remediation_state = ExecutionState.waiting_for_window;
        })
