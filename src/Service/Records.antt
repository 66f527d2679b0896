-- ===== src/Service/Records.antt =====
-- Looking records up, alerts, the audit trail and redaction: the private helpers of
-- `SysadminService` (service.py) and the reads and writes of the repository that they stand on.
use aisys_adm.Prelude.{
  ℕ, ◌+◌, String, Bool, false, not, ◌&&◌, ◌==◌, Option, none, some, List, [], ◌∷◌, any, clip,
  text_or, same_text, ◌is◌, if◌then◌else◌,
}
use text.Mathlib.Text.{find?}
use aisys_adm.Models.Enums.{Severity, severity_enum}
use aisys_adm.Models.Words.{JobType}
use aisys_adm.Models.Values.{Datetime, Dict, JsonDict, get, put, get?, is_some, has_text}
use aisys_adm.Models.Hosts.{Host}
use aisys_adm.Models.Collected.{HostSnapshot}
use aisys_adm.Models.Snapshots.{RollbackSnapshot}
use aisys_adm.Models.Remediations.{Remediation, StructuredLogEvent}
use aisys_adm.Models.Jobs.{DurableJob}
use aisys_adm.Models.Campaigns.{PatchCampaign, CampaignHostPlan}
use aisys_adm.Models.Scans.{ScanJob}
use aisys_adm.Models.Records.{HostSchedule, Alert, AuditEvent}
use aisys_adm.Gate.Decision.{GateDecision}
use aisys_adm.Repository.Jobs.{Jobs}
use aisys_adm.Service.World.{
  Store, Environment, Raised, Call, Action, ok, or_raise, ◌>>=◌, gets, modify, raise_if,
}

-- list(d.values())
abbrev pub dict_values {ℓ} : {V : Type ℓ} → Dict V → List V
dict_values [] = []
dict_values ((key, value) ∷ d) = value ∷ dict_values d

-- key or ""
abbrev pub or_empty : Option String → String
or_empty key = text_or key ""

unfoldable pub save_host : Host → Action (Unit {0})
save_host host = modify (λ s. record s { hosts = put s.hosts host.id host })

-- d.pop(key, None)
unfoldable pub erase {ℓ} : {V : Type ℓ} → Dict V → String → Dict V
erase [] key = []
erase ((k, value) ∷ d) key = let rest = erase d key in if k == key then rest else (k, value) ∷ rest

unfoldable pub forget_host : String → Action (Unit {0})
forget_host host_id = modify (λ s. record s { hosts = erase s.hosts host_id })

unfoldable pub keep_schedule : HostSchedule → Action (Unit {0})
keep_schedule schedule =
    modify (λ s. record s { schedules = put s.schedules schedule.host_id schedule })

unfoldable pub forget_schedule : String → Action (Unit {0})
forget_schedule host_id = modify (λ s. record s { schedules = erase s.schedules host_id })

unfoldable pub forget_log : String → Action (Unit {0})
forget_log id = modify (λ s. record s { logs = erase s.logs id })

unfoldable pub save_snapshot : HostSnapshot → Action (Unit {0})
save_snapshot snapshot = modify (λ s. record s { snapshots = put s.snapshots snapshot.id snapshot })

unfoldable pub save_rollback_snapshot : RollbackSnapshot → Action (Unit {0})
save_rollback_snapshot snapshot =
    modify (λ s. record s { rollback_snapshots = put s.rollback_snapshots snapshot.id snapshot })

unfoldable pub save_scan : ScanJob → Action (Unit {0})
save_scan scan = modify (λ s. record s { scans = put s.scans scan.id scan })

unfoldable pub save_remediation : Remediation → Action (Unit {0})
save_remediation r = modify (λ s. record s { remediations = put s.remediations r.id r })

unfoldable pub save_campaign : PatchCampaign → Action (Unit {0})
save_campaign campaign = modify (λ s. record s { campaigns = put s.campaigns campaign.id campaign })

abbrev pub put_logs : Dict StructuredLogEvent → List StructuredLogEvent → Dict StructuredLogEvent
put_logs logs [] = logs
put_logs logs (event ∷ events) = put_logs (put logs event.id event) events

unfoldable pub save_log_events : List StructuredLogEvent → Action (Unit {0})
save_log_events events = modify (λ s. record s { logs = put_logs s.logs events })

unfoldable pub save_alert : Alert → Action (Unit {0})
save_alert alert = modify (λ s. record s { alerts = put s.alerts alert.id alert })

unfoldable pub save_audit : AuditEvent → Action (Unit {0})
save_audit event = modify (λ s. record s { audits = put s.audits event.id event })

-- An operation of the repository on the jobs, as an action.
unfoldable pub on_jobs : {A : Type 0} → (Jobs → A × Jobs) → Action A
on_jobs f w =
    let (a, jobs) = f w.store.jobs in (ok a, record w { store = record w.store { jobs = jobs } })

abbrev pub get_job_by_idempotency : Jobs → String → Option DurableJob
get_job_by_idempotency [] key = none
get_job_by_idempotency ((id, job) ∷ jobs) key =
    if job.idempotency_key == key then some job else get_job_by_idempotency jobs key

unfoldable pub call : Call → Action ℕ
call c w = (ok w.ticks, record w { ticks = w.ticks + 1; calls = (w.store, c) ∷ w.calls })

unfoldable pub find_host : String → Action Host
find_host host_id = do
  found ← gets (λ s. get s.hosts host_id)
  or_raise found (Raised.value_error "Host not found")

unfoldable pub find_scan : Option String → Action ScanJob
find_scan scan_id = do
  found ← gets (λ s. get s.scans (or_empty scan_id))
  or_raise found (Raised.value_error "Scan not found")

unfoldable pub find_job : String → Action DurableJob
find_job job_id = do
  found ← gets (λ s. get s.jobs job_id)
  or_raise found (Raised.value_error "Job not found")

-- `_remediation` and `_remediation_for_update`.
unfoldable pub find_remediation : Option String → Action Remediation
find_remediation remediation_id = do
  found ← gets (λ s. get s.remediations (or_empty remediation_id))
  or_raise found (Raised.value_error "Remediation not found")

-- `_campaign` and `_campaign_for_update`.
unfoldable pub find_campaign : String → Action PatchCampaign
find_campaign campaign_id = do
  found ← gets (λ s. get s.campaigns campaign_id)
  or_raise found (Raised.value_error "Campaign not found")

abbrev pub plan_of_host : List CampaignHostPlan → String → Option CampaignHostPlan
plan_of_host [] host_id = none
plan_of_host (plan ∷ plans) host_id =
    if plan.host_id == host_id then some plan else plan_of_host plans host_id

unfoldable pub campaign_host : PatchCampaign → String → Action CampaignHostPlan
campaign_host campaign host_id =
    or_raise (plan_of_host campaign.hosts host_id)
      (Raised.value_error "Host is not selected for this campaign")

unfoldable pub raise_gate_denial : GateDecision → Action (Unit {0})
raise_gate_denial decision = raise_if (not decision.allowed) (Raised.gate_denied decision)

-- job_type.title()
abbrev pub job_title : JobType → String
job_title JobType.scan = "Scan"
job_title JobType.remediation = "Remediation"
job_title JobType.snapshot_delete = "Snapshot_Delete"

module _ (env : Environment) where
  unfoldable pub now : Action Datetime
  now w = (ok (env.utc_now w.ticks), record w { ticks = w.ticks + 1 })

  unfoldable pub fresh : String → Action String
  fresh prefix w = (ok (env.new_id prefix w.ticks), record w { ticks = w.ticks + 1 })

  unfoldable pub redact : String → Option String → Action String
  redact value host_id =
      gets (λ s. env.redact_text value (if has_text host_id then get? s.hosts host_id else none))

  unfoldable pub audit : String → String → String → Option String → JsonDict → Action (Unit {0})
  audit actor action target_type target_id details = do
    id ← fresh "audit"
    created_at ← now
    save_audit (record {
      id = id;
      actor = actor;
      action = action;
      target_type = target_type;
      target_id = target_id;
      details = env.sanitize_audit_details details;
      created_at = created_at;
    })

  unfoldable pub create_alert :
      Severity → String → String → Option String → Option String → Action (Unit {0})
  unfolding redact
  create_alert severity title message host_id job_id = do
    safe_message ← redact message host_id
    id ← fresh "alert"
    created_at ← now
    save_alert (record {
      id = id;
      severity = severity;
      title = title;
      message = clip 2000 safe_message;
      host_id = host_id;
      job_id = job_id;
      acknowledged = false;
      acknowledged_at = none;
      created_at = created_at;
    })

  -- An alert of a rollback that failed and that nobody has acknowledged.
  unfoldable pub is_rollback_failure : String → Alert → Bool
  is_rollback_failure host_id alert =
      same_text alert.host_id (some host_id)
      && not alert.acknowledged
      && alert.severity is Severity.critical
      && is_some (find? (env.lower alert.title) "rollback")

  unfoldable pub host_has_active_rollback_failure : Store → String → Bool
  host_has_active_rollback_failure s host_id =
      any (is_rollback_failure host_id) (dict_values s.alerts)
