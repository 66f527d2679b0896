-- ===== src/Service/Kept/Hosts.antt =====
-- Hosts, schedules, alerts and old log events (service.py): what every stable invariant withstands.
use aisys_adm.Prelude.{String}
use aisys_adm.Models.Enums.{SnapshotPlatform}
use aisys_adm.Models.Values.{Datetime}
use aisys_adm.Models.Hosts.{HostInput}
use aisys_adm.Models.Records.{HostSchedule, HostScheduleInput, SshCredential}
use aisys_adm.Service.World.{World, Environment, Raised, Action, Result, ok, err, ◌>>=◌}
use aisys_adm.Service.Hosts.{
  check_credential, validate_host_input, at_end, finally, save_schedule, create_host, update_host,
  delete_host, reschedule, create_due_scan_job, create_due_scan_jobs, acknowledge_alert,
  purge_expired_logs,
}
use aisys_adm.Service.Kept.Rules.{
  Stable, Keeps, each-Keeps, collect_each-Keeps, bind, pure-Keeps, raise-Keeps,
}
use aisys_adm.Service.Kept.Records.{
  save_host-Keeps, forget_host-Keeps, keep_schedule-Keeps, forget_schedule-Keeps, forget_log-Keeps,
  save_alert-Keeps,
}
use aisys_adm.Service.Kept.Plans.{plan_steps}
use aisys_adm.Service.Kept.Changes.{create_scan_job-Keeps}

module _ {env : Environment} {I : World → Type 0} (stable : Stable env I) where
  pub check_credential-Keeps :
      (platform : SnapshotPlatform) (x : SshCredential) → Keeps I (check_credential platform x)
  unfolding check_credential
  check_credential-Keeps platform x = search plan_steps depth 20

  pub validate_host_input-Keeps : (input : HostInput) → Keeps I (validate_host_input input)
  unfolding validate_host_input
  validate_host_input-Keeps input = search (plan_steps, check_credential-Keeps) depth 20

  pub save_schedule-Keeps :
      (host : String) (input : HostScheduleInput) (actor : String)
      → Keeps I (save_schedule env host input actor)
  unfolding save_schedule
  save_schedule-Keeps host input actor = search (plan_steps, keep_schedule-Keeps) depth 20

  pub create_host-Keeps :
      (input : HostInput) (actor : String) → Keeps I (create_host env input actor)
  unfolding create_host
  create_host-Keeps input actor =
      search (plan_steps, validate_host_input-Keeps, save_host-Keeps, save_schedule-Keeps) depth 20

  pub update_host-Keeps :
      (id : String) (input : HostInput) (actor : String) → Keeps I (update_host env id input actor)
  unfolding update_host
  update_host-Keeps id input actor =
      search (plan_steps, validate_host_input-Keeps, save_host-Keeps) depth 20

  pub delete_host-Keeps : (id actor : String) → Keeps I (delete_host env id actor)
  unfolding delete_host
  delete_host-Keeps id actor =
      search (plan_steps, forget_schedule-Keeps, forget_host-Keeps) depth 20

  reschedule-Keeps : (x : HostSchedule) (t : Datetime) → Keeps I (reschedule env x t)
  unfolding reschedule
  reschedule-Keeps x t = search (plan_steps, keep_schedule-Keeps) depth 20

  ended_kept :
      {A : Type 0} (x : Result Raised A × World) (last : Action (Unit {0}))
      → I x.1
      → Keeps I last
      → I (at_end x last).1
  unfolding at_end ◌>>=◌
  ended_kept (ok a, w) last i p = (bind p (λ u. pure-Keeps a)).runs w i
  ended_kept (err e, w) last i p = (bind p (λ u. raise-Keeps e)).runs w i

  finally-Keeps :
      {A : Type 0} {m : Action A} {last : Action (Unit {0})}
      → Keeps I m
      → Keeps I last
      → Keeps I (finally m last)
  unfolding finally
  finally-Keeps {m = m} {last = last} p q = record {
    runs = λ w i. ended_kept (m w) last (p.runs w i) q;
  }

  create_due_scan_job-Keeps :
      (t : Datetime) (x : HostSchedule) → Keeps I (create_due_scan_job env t x)
  unfolding create_due_scan_job
  create_due_scan_job-Keeps t x =
      search (plan_steps, reschedule-Keeps, finally-Keeps, create_scan_job-Keeps) depth 20

  pub create_due_scan_jobs-Keeps : (t : Datetime) → Keeps I (create_due_scan_jobs env t)
  unfolding create_due_scan_jobs
  create_due_scan_jobs-Keeps t =
      search (plan_steps, collect_each-Keeps, create_due_scan_job-Keeps) depth 20

  pub acknowledge_alert-Keeps : (id actor : String) → Keeps I (acknowledge_alert env id actor)
  unfolding acknowledge_alert
  acknowledge_alert-Keeps id actor = search (plan_steps, save_alert-Keeps) depth 20

  pub purge_expired_logs-Keeps : Keeps I (purge_expired_logs env)
  unfolding purge_expired_logs
  purge_expired_logs-Keeps = search (plan_steps, each-Keeps, forget_log-Keeps) depth 20
