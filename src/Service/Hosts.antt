-- ===== src/Service/Hosts.antt =====
-- Hosts, their schedules, alerts and old log events: `create_host`, `update_host`, `delete_host`,
-- `_validate_host_input`, `save_schedule`, `create_due_scan_jobs`, `acknowledge_alert` and
-- `purge_expired_logs` (service.py), with `SNAPSHOT_CREDENTIAL_TYPES` (credentials.py).
use Prim.Native.String.{◌++◌ as append}
use aisys_adm.Prelude.{
  ℕ, String, Bool, true, false, not, ◌&&◌, ◌||◌, ◌==◌, Option, none, some, List, [], ◌∷◌, map, join,
  length, leb, ltb, ◌is◌, ◌is_in◌, if◌then◌else◌,
}
use aisys_adm.Models.Enums.{
  SnapshotPlatform, snapshot_platform_enum, CredentialType, credential_type_enum,
}
use aisys_adm.Models.Values.{Datetime, Json, get, has_text, nonempty, truthy?}
use aisys_adm.Models.Hosts.{Host, HostInput}
use aisys_adm.Models.Remediations.{StructuredLogEvent}
use aisys_adm.Models.Records.{HostSchedule, HostScheduleInput, SshCredential, Alert}
use aisys_adm.Models.Jobs.{DurableJob}
use aisys_adm.Service.World.{
  World, Environment, Raised, Action, Result, ok, err, pure, raise, or_raise, ◌>>=◌, ◌>>◌, after,
  gets, raise_if, if_some, each, collect_each, days_before,
}
use aisys_adm.Service.Records.{
  dict_values, or_empty, now, fresh, audit, find_host, save_host, forget_host, keep_schedule,
  forget_schedule, forget_log, save_alert,
}
use aisys_adm.Service.Scans.{host_has_active_scan, create_scan_job}
use aisys_adm.Service.Snapshots.{platform_value}
use aisys_adm.Service.Recovery.{somes}

abbrev pub new_host : HostInput → String → String → Datetime → Datetime → Host
new_host input id connection_status created_at updated_at = record {
  name = input.name;
  address = input.address;
  port = input.port;
  username = input.username;
  distro_family = input.distro_family;
  environment = input.environment;
  tags = input.tags;
  criticality = input.criticality;
  availability_class = input.availability_class;
  credential_id = input.credential_id;
  ssh_host_key_fingerprint = input.ssh_host_key_fingerprint;
  snapshot_platform = input.snapshot_platform;
  snapshot_credential_id = input.snapshot_credential_id;
  snapshot_target_id = input.snapshot_target_id;
  snapshot_provider_metadata = input.snapshot_provider_metadata;
  critical_service_name = input.critical_service_name;
  health_check_url = input.health_check_url;
  snapshot_retention_days = input.snapshot_retention_days;
  patch_policy = input.patch_policy;
  id = id;
  connection_status = connection_status;
  created_at = created_at;
  updated_at = updated_at;
}

-- The types that `SNAPSHOT_CREDENTIAL_TYPES` allows, in the order of their values.
abbrev pub snapshot_credential_types : SnapshotPlatform → List CredentialType
snapshot_credential_types SnapshotPlatform.none = []
snapshot_credential_types SnapshotPlatform.proxmox = CredentialType.proxmox_token ∷ []
snapshot_credential_types SnapshotPlatform.aws =
    CredentialType.aws_access_key ∷ CredentialType.aws_role ∷ []
snapshot_credential_types SnapshotPlatform.vmware = CredentialType.vmware_secret ∷ []
snapshot_credential_types SnapshotPlatform.libvirt = CredentialType.libvirt_ssh ∷ []

abbrev pub credential_value : CredentialType → String
credential_value CredentialType.ssh_private_key = "ssh_private_key"
credential_value CredentialType.proxmox_token = "proxmox_token"
credential_value CredentialType.aws_access_key = "aws_access_key"
credential_value CredentialType.aws_role = "aws_role"
credential_value CredentialType.vmware_secret = "vmware_secret"
credential_value CredentialType.libvirt_ssh = "libvirt_ssh"

abbrev pub wrong_credential : SnapshotPlatform → String
wrong_credential platform = append "Snapshot credential type must match " (
    append (platform_value platform) (
      append ". Allowed type(s): "
        (join ", " (map credential_value (snapshot_credential_types platform)))))

abbrev pub names_role : SshCredential → Bool
names_role credential =
    truthy? (get credential.metadata "roleArn") || truthy? (get credential.metadata "role_arn")

unfoldable pub check_credential : SnapshotPlatform → SshCredential → Action (Unit {0})
check_credential platform credential = do
  raise_if (not (credential.credential_type is_in snapshot_credential_types platform))
      (Raised.value_error (wrong_credential platform))
  raise_if
      (platform is SnapshotPlatform.aws
        && credential.credential_type is CredentialType.aws_role
        && not (names_role credential))
      (Raised.value_error "AWS role credentials require roleArn metadata")

unfoldable pub validate_host_input : HostInput → Action (Unit {0})
unfolding check_credential
validate_host_input input = if input.snapshot_platform is SnapshotPlatform.none then pure tt else do
  raise_if (not (has_text input.snapshot_credential_id))
      (Raised.value_error "Snapshot credential is required when rollback protection is configured")
  raise_if
      (not (has_text input.snapshot_target_id) && not (nonempty input.snapshot_provider_metadata))
      (Raised.value_error
        "Snapshot target ID or provider metadata is required when rollback protection is configured")
  found ← gets (λ s. get s.credentials (or_empty input.snapshot_credential_id))
  credential ← or_raise found (Raised.value_error "Snapshot credential not found")
  check_credential input.snapshot_platform credential

-- try: … finally: what is done at the end is done either way, and its exception comes first.
unfoldable pub at_end :
    {A : Type 0} → Result Raised A × World → Action (Unit {0}) → Result Raised A × World
at_end (ok a, w) last = after (last w) (λ u. pure a)
at_end (err e, w) last = after (last w) (λ u. raise e)

unfoldable pub finally : {A : Type 0} → Action A → Action (Unit {0}) → Action A
unfolding at_end
finally m last w = at_end (m w) last

abbrev pub is_due : Datetime → HostSchedule → Bool
is_due current schedule = elim schedule.next_run_at [
  | none ↦ false
  | some t ↦ schedule.enabled && leb t.instant current.instant
]

abbrev pub due : Datetime → List HostSchedule → List HostSchedule
due current [] = []
due current (schedule ∷ schedules) =
    let rest = due current schedules in if is_due current schedule then schedule ∷ rest else rest

abbrev pub expired : Datetime → List StructuredLogEvent → List String
expired cutoff [] = []
expired cutoff (event ∷ events) =
    let rest = expired cutoff events in
    if ltb event.timestamp.instant cutoff.instant then event.id ∷ rest else rest

abbrev pub new_schedule :
    HostScheduleInput
    → String
    → String
    → Option HostSchedule
    → Option Datetime
    → Datetime
    → HostSchedule
new_schedule input id host_id existing next_run current = record {
  enabled = input.enabled;
  timezone = input.timezone;
  cron_expression = input.cron_expression;
  overlap_policy = input.overlap_policy;
  id = id;
  host_id = host_id;
  previous_run_at = elim existing [ none ↦ none | some old ↦ old.previous_run_at ];
  next_run_at = next_run;
  created_at = elim existing [ none ↦ current | some old ↦ old.created_at ];
  updated_at = current;
}

module _ (env : Environment) where
  unfoldable pub save_schedule : String → HostScheduleInput → String → Action HostSchedule
  save_schedule host_id input actor = do
    find_host host_id
    current ← now env
    existing ← gets (λ s. get s.schedules host_id)
    next_run ←
        (if input.enabled
          then (do
            t ←
                or_raise (env.next_run input.cron_expression input.timezone current)
                  (Raised.value_error "Cron expression must have exactly five fields")
            pure (some t))
          else pure none)
    id ← if_some existing (λ schedule. pure schedule.id) (fresh env "schedule")
    let schedule = new_schedule input id host_id existing next_run current
    keep_schedule schedule
    audit env actor "schedule.updated" "host" (some host_id)
        (("enabled", Json.bool input.enabled) ∷ ("cron", Json.text input.cron_expression) ∷ [])
    pure schedule

  unfoldable pub create_host : HostInput → String → Action Host
  unfolding save_schedule validate_host_input
  create_host input actor = do
    validate_host_input input
    current ← now env
    id ← fresh env "host"
    let host = new_host input id "untested" current current
    save_host host
    save_schedule id
        (record {
          enabled = false;
          timezone = "UTC";
          cron_expression = "0 3 * * *";
          overlap_policy = "skip_if_running";
        })
        actor
    audit env actor "host.created" "host" (some id) []
    pure host

  unfoldable pub update_host : String → HostInput → String → Action Host
  unfolding validate_host_input
  update_host host_id input actor = do
    old ← find_host host_id
    validate_host_input input
    current ← now env
    let host = new_host input old.id old.connection_status old.created_at current
    save_host host
    audit env actor "host.updated" "host" (some host_id) []
    pure host

  unfoldable pub delete_host : String → String → Action (Unit {0})
  delete_host host_id actor = do
    find_host host_id
    forget_schedule host_id
    forget_host host_id
    audit env actor "host.deleted" "host" (some host_id) []

  -- The schedule after a run at `current`.
  unfoldable pub reschedule : HostSchedule → Datetime → Action (Unit {0})
  reschedule schedule current = do
    next_run ←
        or_raise (env.next_run schedule.cron_expression schedule.timezone current)
          (Raised.value_error "Cron expression must have exactly five fields")
    keep_schedule (record schedule {
      previous_run_at = some current;
      next_run_at = some next_run;
      updated_at = current;
    })

  abbrev pub time_text : Option Datetime → String
  time_text none = ""
  time_text (some t) = env.isoformat t

  unfoldable pub create_due_scan_job : Datetime → HostSchedule → Action (Option DurableJob)
  unfolding reschedule finally
  create_due_scan_job current schedule = do
    active ← gets (λ s. host_has_active_scan s.jobs schedule.host_id)
    if schedule.overlap_policy == "skip_if_running" && active
        then (do
          reschedule schedule current
          audit env "scheduler" "schedule.skipped_overlap" "host" (some schedule.host_id) []
          pure none)
        else finally
            (do
              job ←
                  create_scan_job env
                    (record {
                      host_id = schedule.host_id;
                      trigger = "scheduled";
                      idempotency_key = some (
                          append "scheduled:"
                            (append schedule.id (append ":" (time_text schedule.next_run_at))));
                    })
                    "scheduler" none
              pure (some job))
            (reschedule schedule current)

  unfoldable pub create_due_scan_jobs : Datetime → Action (List DurableJob)
  unfolding create_due_scan_job
  create_due_scan_jobs current = do
    schedules ← gets (λ s. due current (dict_values s.schedules))
    jobs ← collect_each schedules (create_due_scan_job current)
    pure (somes jobs)

  unfoldable pub acknowledge_alert : String → String → Action Alert
  acknowledge_alert alert_id actor = do
    found ← gets (λ s. get s.alerts alert_id)
    alert ← or_raise found (Raised.value_error "Alert not found")
    current ← now env
    let acknowledged = record alert { acknowledged = true; acknowledged_at = some current }
    save_alert acknowledged
    audit env actor "alert.acknowledged" "alert" (some alert_id) []
    pure acknowledged

  unfoldable pub purge_expired_logs : Action ℕ
  purge_expired_logs = do
    current ← now env
    ids ← gets (λ s. expired (days_before current env.log_retention_days) (dict_values s.logs))
    each ids forget_log
    audit env "scheduler" "logs.retention_purge" "log_event" none (
        ("deleted", Json.num (length ids))
        ∷ ("retention_days", Json.num env.log_retention_days)
        ∷ [])
    pure (length ids)
