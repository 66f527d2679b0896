-- ===== src/Service/Kept/Records.antt =====
-- The reads and writes of the service keep every stable invariant (service.py).
use aisys_adm.Models.Hosts.{Host}
use aisys_adm.Models.Records.{HostSchedule}
use aisys_adm.Service.Records.{save_host, forget_host, keep_schedule, forget_schedule, forget_log}
use aisys_adm.Prelude.{String, Option, List, [], ◌∷◌}
use aisys_adm.Models.Enums.{Severity}
use aisys_adm.Models.Words.{job_status_enum}
use aisys_adm.Models.Values.{JsonDict, put}
use aisys_adm.Models.Collected.{HostSnapshot}
use aisys_adm.Models.Snapshots.{RollbackSnapshot}
use aisys_adm.Models.Scans.{ScanJob}
use aisys_adm.Models.Records.{Alert, AuditEvent}
use aisys_adm.Models.Remediations.{Remediation, StructuredLogEvent}
use aisys_adm.Models.Campaigns.{PatchCampaign}
use aisys_adm.Gate.Decision.{GateDecision}
use aisys_adm.Service.World.{Store, World, Environment, Call, modify}
use aisys_adm.Service.Records.{
  now, fresh, redact, audit, create_alert, call, put_logs, save_log_events, find_host, find_scan,
  find_job, find_remediation, find_campaign, campaign_host, raise_gate_denial, save_snapshot,
  save_rollback_snapshot, save_scan, save_remediation, save_campaign, save_alert, save_audit,
}
use aisys_adm.Service.Kept.Rules.{
  Writes, IsGuarded, Stable, Keeps, Gives, pure-Keeps, raise-Keeps, gets-Keeps, raise_if-Keeps,
  or_raise-Keeps, bind, next, modify-Keeps, if-Keeps, when-Keeps, if_some-Keeps, each-Keeps,
  collect_each-Keeps, transaction-Keeps,
}

pub ruleset steps = (
  pure-Keeps, raise-Keeps, gets-Keeps, raise_if-Keeps, or_raise-Keeps, bind, next, if-Keeps,
  when-Keeps, if_some-Keeps,
)

module _ {I : World → Type 0} where
  pub find_host-Keeps : (id : String) → Keeps I (find_host id)
  unfolding find_host
  find_host-Keeps id = search steps

  pub find_scan-Keeps : (id : Option String) → Keeps I (find_scan id)
  unfolding find_scan
  find_scan-Keeps id = search steps

  pub find_job-Keeps : (id : String) → Keeps I (find_job id)
  unfolding find_job
  find_job-Keeps id = search steps

  pub find_remediation-Keeps : (id : Option String) → Keeps I (find_remediation id)
  unfolding find_remediation
  find_remediation-Keeps id = search steps

  pub find_campaign-Keeps : (id : String) → Keeps I (find_campaign id)
  unfolding find_campaign
  find_campaign-Keeps id = search steps

  pub campaign_host-Keeps : (c : PatchCampaign) (id : String) → Keeps I (campaign_host c id)
  unfolding campaign_host
  campaign_host-Keeps c id = search steps

  pub raise_gate_denial-Keeps : (d : GateDecision) → Keeps I (raise_gate_denial d)
  unfolding raise_gate_denial
  raise_gate_denial-Keeps d = search steps

module _ {env : Environment} {I : World → Type 0} (stable : Stable env I) where
  pub save_host-Keeps : (x : Host) → Keeps I (save_host x)
  unfolding save_host
  save_host-Keeps x = modify-Keeps stable _ (λ s. Writes.host_record x)

  pub forget_host-Keeps : (id : String) → Keeps I (forget_host id)
  unfolding forget_host
  forget_host-Keeps id = modify-Keeps stable _ (λ s. Writes.no_host id)

  pub keep_schedule-Keeps : (x : HostSchedule) → Keeps I (keep_schedule x)
  unfolding keep_schedule
  keep_schedule-Keeps x = modify-Keeps stable _ (λ s. Writes.schedule_record x)

  pub forget_schedule-Keeps : (id : String) → Keeps I (forget_schedule id)
  unfolding forget_schedule
  forget_schedule-Keeps id = modify-Keeps stable _ (λ s. Writes.no_schedule id)

  pub forget_log-Keeps : (id : String) → Keeps I (forget_log id)
  unfolding forget_log
  forget_log-Keeps id = modify-Keeps stable _ (λ s. Writes.no_log id)

  pub save_snapshot-Keeps : (x : HostSnapshot) → Keeps I (save_snapshot x)
  unfolding save_snapshot
  save_snapshot-Keeps x = modify-Keeps stable _ (λ s. Writes.snapshot x)

  pub save_rollback_snapshot-Keeps : (x : RollbackSnapshot) → Keeps I (save_rollback_snapshot x)
  unfolding save_rollback_snapshot
  save_rollback_snapshot-Keeps x = modify-Keeps stable _ (λ s. Writes.rollback_snapshot x)

  pub save_scan-Keeps : (x : ScanJob) → Keeps I (save_scan x)
  unfolding save_scan
  save_scan-Keeps x = modify-Keeps stable _ (λ s. Writes.scan x)

  pub save_remediation-Keeps : (x : Remediation) → Keeps I (save_remediation x)
  unfolding save_remediation
  save_remediation-Keeps x = modify-Keeps stable _ (λ s. Writes.remediation x)

  pub save_campaign-Keeps : (x : PatchCampaign) → Keeps I (save_campaign x)
  unfolding save_campaign
  save_campaign-Keeps x = modify-Keeps stable _ (λ s. Writes.campaign x)

  pub save_alert-Keeps : (x : Alert) → Keeps I (save_alert x)
  unfolding save_alert
  save_alert-Keeps x = modify-Keeps stable _ (λ s. Writes.alert x)

  pub save_audit-Keeps : (x : AuditEvent) → Keeps I (save_audit x)
  unfolding save_audit
  save_audit-Keeps x = modify-Keeps stable _ (λ s. Writes.audit_event x)

  logs_kept :
      (w : World) (events : List StructuredLogEvent)
      → I w
      → I (record w { store = record w.store { logs = put_logs w.store.logs events } })
  logs_kept w [] i = i
  logs_kept w (x ∷ xs) i =
      logs_kept (record w { store = record w.store { logs = put w.store.logs x.id x } }) xs
        (stable.written w _ (Writes.log x) i)

  pub save_log_events-Keeps : (events : List StructuredLogEvent) → Keeps I (save_log_events events)
  unfolding save_log_events modify
  save_log_events-Keeps events = record { runs = λ w i. logs_kept w events i }

  pub now-Keeps : Keeps I (now env)
  unfolding now
  now-Keeps = record { runs = λ w i. stable.drawn w _ i }

  pub fresh-Keeps : (prefix : String) → Keeps I (fresh env prefix)
  unfolding fresh
  fresh-Keeps prefix = record { runs = λ w i. stable.drawn w _ i }

  pub redact-Keeps : (text : String) (id : Option String) → Keeps I (redact env text id)
  unfolding redact
  redact-Keeps text id = gets-Keeps _

  pub call-Keeps : (c : Call) → ((s : Store) → IsGuarded env s c) → Keeps I (call c)
  unfolding call
  call-Keeps c g = record { runs = λ w i. stable.called w c (g w.store) i }

  pub audit-Keeps :
      (actor action target : String) (id : Option String) (details : JsonDict)
      → Keeps I (audit env actor action target id details)
  unfolding audit
  audit-Keeps actor action target id details =
      search (steps, fresh-Keeps, now-Keeps, save_audit-Keeps)

  pub create_alert-Keeps :
      (severity : Severity) (title message : String) (host job : Option String)
      → Keeps I (create_alert env severity title message host job)
  unfolding create_alert
  create_alert-Keeps severity title message host job =
      search (steps, fresh-Keeps, now-Keeps, save_alert-Keeps)

pub ruleset leaves = (
  steps, find_host-Keeps, find_scan-Keeps, find_job-Keeps, find_remediation-Keeps,
  find_campaign-Keeps, campaign_host-Keeps, raise_gate_denial-Keeps, save_snapshot-Keeps,
  save_rollback_snapshot-Keeps, save_scan-Keeps, save_remediation-Keeps, save_campaign-Keeps,
  save_log_events-Keeps, now-Keeps, fresh-Keeps, redact-Keeps, audit-Keeps, create_alert-Keeps,
)
