-- ===== src/Service/Kept/Served.antt =====
-- What every request to the service keeps (service.py): all changes on hosts were allowed by the
-- gate, and every record is stored under its own identifier.
use aisys_adm.Prelude.{
  String, Bool, true, false, Option, none, some, List, [], ◌∷◌, ◌≡◌, sym, ◌∙◌, arith, eq_iff, ◌==◌,
  if◌then◌else◌,
}
use aisys_adm.Models.Values.{Dict, get, put}
use aisys_adm.Models.Hosts.{Host}
use aisys_adm.Service.Records.{erase}
use aisys_adm.Service.Kept.Hosts.{
  save_schedule-Keeps, create_host-Keeps, update_host-Keeps, delete_host-Keeps,
  create_due_scan_jobs-Keeps, acknowledge_alert-Keeps, purge_expired_logs-Keeps,
}
use aisys_adm.Models.Collected.{HostSnapshot}
use aisys_adm.Models.Snapshots.{RollbackSnapshot}
use aisys_adm.Models.Remediations.{Remediation, StructuredLogEvent}
use aisys_adm.Models.Jobs.{DurableJob}
use aisys_adm.Models.Campaigns.{PatchCampaign}
use aisys_adm.Models.Scans.{ScanJob}
use aisys_adm.Models.Records.{HostSchedule, Alert, AuditEvent}
use aisys_adm.Repository.Store.{get-put}
use aisys_adm.Service.World.{Store, World, Environment, Call}
use aisys_adm.Service.Requests.{Request, serve, serve_all}
use aisys_adm.Service.Kept.Rules.{Writes, IsGuarded, Stable}
use aisys_adm.Service.Kept.Changes.{
  approve_remediation_plan-Keeps, approve_remediation_reboot-Keeps, reject_remediation-Keeps,
  prepare_remediation_job-Keeps, create_scan_job-Keeps, mark_campaign_proposal_running-Keeps,
  mark_campaign_proposal_failed-Keeps, attach_campaign_proposal-Keeps, create_campaign-Keeps,
  list_campaigns-Keeps, get_campaign-Keeps, queue_campaign_proposals-Keeps,
  approve_campaign_host-Keeps, approve_campaign_host_reboot-Keeps, reject_campaign_host-Keeps,
}
use aisys_adm.Service.Kept.Rollouts.{prepare_campaign_execution-Keeps, cancel_campaign-Keeps}
use aisys_adm.Service.Kept.Scheduler.{
  recover_expired_jobs-Keeps, release_scheduled_remediation_jobs-Keeps,
  release_scheduled_snapshot_delete_jobs-Keeps,
}
use aisys_adm.Service.Kept.Workers.{process_remediation-Keeps, process_snapshot_delete-Keeps}

module _ {env : Environment} {I : World → Type 0} (stable : Stable env I) where
  served_kept : (request : Request) (w : World) → I w → I (serve env request w)
  served_kept (Request.plan_approval id request actor) =
      (approve_remediation_plan-Keeps stable id request actor).runs
  served_kept (Request.reboot_approval id request actor) =
      (approve_remediation_reboot-Keeps stable id request actor).runs
  served_kept (Request.reject id actor) = (reject_remediation-Keeps stable id actor).runs
  served_kept (Request.prepare_job id actor campaign sync) =
      (prepare_remediation_job-Keeps stable id actor campaign sync).runs
  served_kept (Request.process id worker) = (process_remediation-Keeps stable id worker).runs
  served_kept (Request.process_delete id worker) =
      (process_snapshot_delete-Keeps stable id worker).runs
  served_kept (Request.recover t) = (recover_expired_jobs-Keeps stable t).runs
  served_kept (Request.release_remediations t) =
      (release_scheduled_remediation_jobs-Keeps stable t).runs
  served_kept (Request.release_deletes t) =
      (release_scheduled_snapshot_delete_jobs-Keeps stable t).runs
  served_kept (Request.create_scan request actor campaign) =
      (create_scan_job-Keeps stable request actor campaign).runs
  served_kept (Request.proposal_running campaign host) =
      (mark_campaign_proposal_running-Keeps stable campaign host).runs
  served_kept (Request.proposal_failed campaign host error) =
      (mark_campaign_proposal_failed-Keeps stable campaign host error).runs
  served_kept (Request.attach_proposal campaign host proposal) =
      (attach_campaign_proposal-Keeps stable campaign host proposal).runs
  served_kept (Request.campaign_request request actor) =
      (create_campaign-Keeps stable request actor).runs
  served_kept Request.show_campaigns = (list_campaigns-Keeps stable).runs
  served_kept (Request.show_campaign id) = (get_campaign-Keeps stable id).runs
  served_kept (Request.queue_proposals id actor) =
      (queue_campaign_proposals-Keeps stable id actor).runs
  served_kept (Request.approve_host campaign host request actor) =
      (approve_campaign_host-Keeps stable campaign host request actor).runs
  served_kept (Request.approve_host_reboot campaign host request actor) =
      (approve_campaign_host_reboot-Keeps stable campaign host request actor).runs
  served_kept (Request.reject_host campaign host actor) =
      (reject_campaign_host-Keeps stable campaign host actor).runs
  served_kept (Request.execute_campaign id actor) =
      (prepare_campaign_execution-Keeps stable id actor).runs
  served_kept (Request.stop_campaign id actor) = (cancel_campaign-Keeps stable id actor).runs
  served_kept (Request.host_added input actor) = (create_host-Keeps stable input actor).runs
  served_kept (Request.host_changed id input actor) = (update_host-Keeps stable id input actor).runs
  served_kept (Request.host_removed id actor) = (delete_host-Keeps stable id actor).runs
  served_kept (Request.schedule_set id input actor) =
      (save_schedule-Keeps stable id input actor).runs
  served_kept (Request.due_scans t) = (create_due_scan_jobs-Keeps stable t).runs
  served_kept (Request.alert_acknowledged id actor) = (acknowledge_alert-Keeps stable id actor).runs
  served_kept Request.log_purge = (purge_expired_logs-Keeps stable).runs

  all_served_kept : (requests : List Request) (w : World) → I w → I (serve_all env requests w)
  all_served_kept [] w i = i
  all_served_kept (request ∷ requests) w i =
      all_served_kept requests (serve env request w) (served_kept request w i)

-- The invariant that says nothing, for statements on answers alone.
abbrev pub Anything : World → Type 0
Anything w = Unit {0}

pub anything : (env : Environment) → Stable env Anything
anything env = record {
  drawn = λ w n i. tt;
  called = λ w c g i. tt;
  written = λ w s write i. tt;
  opened = λ w b i. tt;
  undone = λ w v i j. tt;
}

-- Every call was made as `IsGuarded` asks.
abbrev pub AllGuarded : Environment → List (Store × Call) → Type 0
AllGuarded env [] = Unit {0}
AllGuarded env ((s, c) ∷ calls) = IsGuarded env s c × AllGuarded env calls

guarded_calls : (env : Environment) → Stable env (λ w. AllGuarded env w.calls)
guarded_calls env = record {
  drawn = λ w n i. i;
  called = λ w c g i. (g, i);
  written = λ w s write i. i;
  opened = λ w b i. i;
  undone = λ w v i j. j;
}

-- Whatever requests the service is sent, in whatever order: if every execution of a plan on a host so
-- far was asked for while the store had that plan and that host, the plan was approved with its
-- snapshot protection ready, and the stored job of the call was bound to the plan and running under
-- the lease of a worker, then so is every execution after them.
pub changes_are_approved :
    (env : Environment) (requests : List Request) (w : World)
    → AllGuarded env w.calls
    → AllGuarded env (serve_all env requests w).calls
changes_are_approved env requests w = all_served_kept (guarded_calls env) requests w

-- Every record of a dictionary is stored under its identifier.
abbrev pub HasKeys : {V : Type 0} → (V → String) → Dict V → Type 0
HasKeys {V = V} id d = (key : String) (x : V) → get d key ≡ some x → id x ≡ key

found_own_key :
    {V : Type 0} (id : V → String) (x y : V) (key : String) (rest : Option V)
    → (rest ≡ some y → id y ≡ key)
    → (if id x == key then some x else rest) ≡ some y
    → id y ≡ key
found_own_key id x y key rest h e = ground (arith, eq_iff (id x) key)

put-HasKeys :
    {V : Type 0} (id : V → String) (d : Dict V) (x : V) → HasKeys id d → HasKeys id (put d (id x) x)
put-HasKeys id d x h key y e =
    found_own_key id x y key (get d key) (h key y) (sym (get-put d (id x) x key) ∙ e)

get-erase :
    {V : Type 0} (d : Dict V) (key other : String)
    → get (erase d key) other ≡ (if key == other then none else get d other)
unfolding erase
get-erase [] key other = ground arith
get-erase ((k, v) ∷ d) key other =
    ground (arith, get-erase d key other, eq_iff k key, eq_iff k other, eq_iff key other)

kept_key :
    {V : Type 0} (c : Bool) (rest : Option V) (x : V)
    → (if c then none else rest) ≡ some x
    → rest ≡ some x
kept_key true rest x e = cc
kept_key false rest x e = e

erase-HasKeys :
    {V : Type 0} (id : V → String) (d : Dict V) (gone : String)
    → HasKeys id d
    → HasKeys id (erase d gone)
erase-HasKeys id d gone h key x e =
    h key x (kept_key (gone == key) (get d key) x (sym (get-erase d gone key) ∙ e))

pub record HasOwnKeys (s : Store) : Type 0 where
  pub hosts : HasKeys (λ (x : Host). x.id) s.hosts
  pub schedules : HasKeys (λ (x : HostSchedule). x.host_id) s.schedules
  pub snapshots : HasKeys (λ (x : HostSnapshot). x.id) s.snapshots
  pub rollback_snapshots : HasKeys (λ (x : RollbackSnapshot). x.id) s.rollback_snapshots
  pub scans : HasKeys (λ (x : ScanJob). x.id) s.scans
  pub remediations : HasKeys (λ (x : Remediation). x.id) s.remediations
  pub campaigns : HasKeys (λ (x : PatchCampaign). x.id) s.campaigns
  pub jobs : HasKeys (λ (x : DurableJob). x.id) s.jobs
  pub logs : HasKeys (λ (x : StructuredLogEvent). x.id) s.logs
  pub alerts : HasKeys (λ (x : Alert). x.id) s.alerts
  pub audits : HasKeys (λ (x : AuditEvent). x.id) s.audits

written-HasOwnKeys : {s t : Store} → Writes s t → HasOwnKeys s → HasOwnKeys t
written-HasOwnKeys {s = s} (Writes.host_record x) h =
    search (put-HasKeys (λ (y : Host). y.id) s.hosts x h.hosts)
written-HasOwnKeys {s = s} (Writes.no_host id) h =
    search (erase-HasKeys (λ (y : Host). y.id) s.hosts id h.hosts)
written-HasOwnKeys {s = s} (Writes.schedule_record x) h =
    search (put-HasKeys (λ (y : HostSchedule). y.host_id) s.schedules x h.schedules)
written-HasOwnKeys {s = s} (Writes.no_schedule id) h =
    search (erase-HasKeys (λ (y : HostSchedule). y.host_id) s.schedules id h.schedules)
written-HasOwnKeys {s = s} (Writes.no_log id) h =
    search (erase-HasKeys (λ (y : StructuredLogEvent). y.id) s.logs id h.logs)
written-HasOwnKeys {s = s} (Writes.snapshot x) h =
    search (put-HasKeys (λ (y : HostSnapshot). y.id) s.snapshots x h.snapshots)
written-HasOwnKeys {s = s} (Writes.rollback_snapshot x) h =
    search
      (put-HasKeys (λ (y : RollbackSnapshot). y.id) s.rollback_snapshots x h.rollback_snapshots)
written-HasOwnKeys {s = s} (Writes.scan x) h =
    search (put-HasKeys (λ (y : ScanJob). y.id) s.scans x h.scans)
written-HasOwnKeys {s = s} (Writes.remediation x) h =
    search (put-HasKeys (λ (y : Remediation). y.id) s.remediations x h.remediations)
written-HasOwnKeys {s = s} (Writes.campaign x) h =
    search (put-HasKeys (λ (y : PatchCampaign). y.id) s.campaigns x h.campaigns)
written-HasOwnKeys {s = s} (Writes.job x) h =
    search (put-HasKeys (λ (y : DurableJob). y.id) s.jobs x h.jobs)
written-HasOwnKeys {s = s} (Writes.log x) h =
    search (put-HasKeys (λ (y : StructuredLogEvent). y.id) s.logs x h.logs)
written-HasOwnKeys {s = s} (Writes.alert x) h =
    search (put-HasKeys (λ (y : Alert). y.id) s.alerts x h.alerts)
written-HasOwnKeys {s = s} (Writes.audit_event x) h =
    search (put-HasKeys (λ (y : AuditEvent). y.id) s.audits x h.audits)

own_keys : (env : Environment) → Stable env (λ w. HasOwnKeys w.store)
own_keys env = record {
  drawn = λ w n i. i;
  called = λ w c g i. i;
  written = λ w s write i. written-HasOwnKeys write i;
  opened = λ w b i. i;
  undone = λ w v i j. i;
}

-- Whatever requests the service is sent: where every host, snapshot, scan, plan, campaign, job, log
-- event, alert and audit event is stored under its own identifier and every schedule under that of
-- its host, it is so after them.
pub requests_keep_keys :
    (env : Environment) (requests : List Request) (w : World)
    → HasOwnKeys w.store
    → HasOwnKeys (serve_all env requests w).store
requests_keep_keys env requests w = all_served_kept (own_keys env) requests w
