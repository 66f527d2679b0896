-- ===== src/Gate/Windows.antt =====
-- When a plan starts: `timing` and `_maintenance_window_is_open` (trusted_change.py).
use aisys_adm.Prelude.{
  ℕ, ◌+◌, ◌*◌, ◌≤◌, ◌<◌, String, Bool, true, false, Option, none, some, ◌≡◌, ◌≢◌, ◌↔◌, ◌⊎◌, inl,
  inr, refl, mem_num, arith, ◌>>=◌, ap, not, if◌then◌else◌,
}
use aisys_adm.Models.Words.{ExecutionTiming, execution_timing_enum}
use aisys_adm.Models.Values.{Datetime}
use aisys_adm.Models.Hosts.{MaintenanceWindow}
use aisys_adm.Models.Remediations.{Remediation}
use aisys_adm.Gate.Decision.{allow, deny}
use aisys_adm.Gate.Timing.{
  Calendar, split_once, window_contains, window_is_open, maintenance_window_is_open, timing,
}

-- The window is open: in its time zone it is one of its days, and the moment is between the start of
-- the window on that date and its end, the start included and the end not.
pub record IsOpenAt (calendar : Calendar) (window : MaintenanceWindow) (now : Datetime)
    : Type 0 where
  pub weekday : ℕ
  pub date : ℕ
  pub hour_text : String
  pub minute_text : String
  pub hour : ℕ
  pub minute : ℕ
  pub start : ℕ
  pub today : calendar.local window.timezone now ≡ some (weekday, date)
  pub on_day : mem_num weekday window.weekdays ≡ true
  pub time : split_once window.start_time ≡ some (hour_text, minute_text)
  pub hour_read : calendar.int hour_text ≡ some hour
  pub minute_read : calendar.int minute_text ≡ some minute
  pub begins : calendar.combine window.timezone date hour minute ≡ some start
  pub begun : start ≤ now.instant
  pub not_over : now.instant < start + window.duration_minutes * 60 * 1000000

-- What a chain of steps that answers has found.
record Found {A B : Type 0} (a : Option A) (f : A → Option B) (b : B) : Type 0 where
  pub value : A
  pub first : a ≡ some value
  pub rest : f value ≡ some b

found : {A B : Type 0} (a : Option A) (f : A → Option B) (b : B) → (a >>= f) ≡ some b → Found a f b
found none f b e = cc
found (some x) f b e = record { value = x; first = refl; rest = e }

on_open_day :
    (c : Bool) (rest : Option Bool)
    → (if not c then some false else rest) ≡ some true
    → (c ≡ true) × (rest ≡ some true)
on_open_day true rest e = (refl, e)
on_open_day false rest e = cc

is_answer : (b : Bool) → Path (Option Bool) (some b) (some true) → b ≡ true
is_answer b e = cc

contained :
    (start minutes now : ℕ)
    → window_contains start minutes now ≡ true
    → (start ≤ now) × (now < start + minutes * 60 * 1000000)
unfolding window_contains
contained start minutes now e = ground arith

contains :
    (start minutes now : ℕ)
    → start ≤ now
    → now < start + minutes * 60 * 1000000
    → window_contains start minutes now ≡ true
unfolding window_contains
contains start minutes now h k = ground arith

-- The plan has a maintenance window, which is open.
pub record HasOpenWindow (calendar : Calendar) (r : Remediation) (now : Datetime) : Type 0 where
  pub window : MaintenanceWindow
  pub chosen : r.maintenance_window ≡ some window
  pub is_open : IsOpenAt calendar window now

module _ (calendar : Calendar) where
  open_found :
      (window : MaintenanceWindow) (now : Datetime)
      → window_is_open calendar window now ≡ some true
      → IsOpenAt calendar window now
  unfolding window_is_open
  open_found window now e =
      let day = found (calendar.local window.timezone now) _ true e in
      let read = on_open_day (mem_num day.value.0 window.weekdays) _ day.rest in
      let time = found (split_once window.start_time) _ true read.1 in
      let hour = found (calendar.int time.value.0) _ true time.rest in
      let minute = found (calendar.int time.value.1) _ true hour.rest in
      let start =
        found (calendar.combine window.timezone day.value.1 hour.value minute.value) _ true
          minute.rest in
      let inside =
        contained start.value window.duration_minutes now.instant (
          is_answer (window_contains start.value window.duration_minutes now.instant) start.rest) in
      record {
        weekday = day.value.0;
        date = day.value.1;
        hour_text = time.value.0;
        minute_text = time.value.1;
        hour = hour.value;
        minute = minute.value;
        start = start.value;
        today = day.first;
        on_day = read.0;
        time = time.first;
        hour_read = hour.first;
        minute_read = minute.first;
        begins = start.first;
        begun = inside.0;
        not_over = inside.1;
      }

  found_open :
      (window : MaintenanceWindow) (now : Datetime)
      → IsOpenAt calendar window now
      → window_is_open calendar window now ≡ some true
  unfolding window_is_open
  found_open window now x =
      rw (x.today, x.on_day, x.time, x.hour_read, x.minute_read, x.begins)
        (ap some (contains x.start window.duration_minutes now.instant x.begun x.not_over))

  abbrev chosen_is_open : Option MaintenanceWindow → Datetime → Option Bool
  chosen_is_open none now = none
  chosen_is_open (some window) now = window_is_open calendar window now

  chosen_found :
      (r : Remediation) (now : Datetime) (window : Option MaintenanceWindow)
      → r.maintenance_window ≡ window
      → chosen_is_open window now ≡ some true
      → HasOpenWindow calendar r now
  chosen_found r now none h e = cc
  chosen_found r now (some window) h e = record {
    window = window;
    chosen = h;
    is_open = open_found window now e;
  }

  found_chosen :
      (r : Remediation) (now : Datetime)
      → HasOpenWindow calendar r now
      → chosen_is_open r.maintenance_window now ≡ some true
  found_chosen r now x = rw x.chosen (found_open x.window now x.is_open)

  starts_when :
      (r : Remediation) (now : Datetime)
      → (elim (timing calendar r now) [ none ↦ false | some d ↦ d.decision.allowed ]) ≡ true ↔ (
          (r.execution_timing ≡ ExecutionTiming.immediate)
          ⊎ ((r.execution_timing ≢ ExecutionTiming.immediate)
              × (chosen_is_open r.maintenance_window now ≡ some true)))
  unfolding timing maintenance_window_is_open allow deny
  starts_when r now = ground arith

  -- A plan starts now exactly when it is immediate, or has a maintenance window and, in the time zone
  -- of the window, today is one of its days and the moment is not before its start and before its
  -- end.
  pub timing_allowed :
      (r : Remediation) (now : Datetime)
      → (elim (timing calendar r now) [ none ↦ false | some d ↦ d.decision.allowed ]) ≡ true ↔ (
          (r.execution_timing ≡ ExecutionTiming.immediate)
          ⊎ ((r.execution_timing ≢ ExecutionTiming.immediate) × HasOpenWindow calendar r now))
  timing_allowed r now = (
    λ e. elim ((starts_when r now).0 e) [
      | inl h ↦ inl h
      | inr h ↦ inr (h.0, chosen_found r now r.maintenance_window refl h.1)
    ],
    λ h.
        (starts_when r now).1
          (elim h [ inl i ↦ inl i | inr x ↦ inr (x.0, found_chosen r now x.1) ]),
  )
