-- ===== src/Service/Requests.antt =====
-- The public methods of `SysadminService` (service.py) that the library models, as requests to the
-- service, and the world after any number of them.
use aisys_adm.Prelude.{String, Bool, Option, List, [], ◌∷◌}
use aisys_adm.Models.Values.{Datetime}
use aisys_adm.Models.Hosts.{Host, HostInput}
use aisys_adm.Models.Remediations.{Remediation, ApprovalRequest}
use aisys_adm.Models.Scans.{ScanRequest}
use aisys_adm.Models.Records.{HostScheduleInput, CampaignRequest}
use aisys_adm.Service.World.{World, Environment}
use aisys_adm.Service.Approvals.{
  approve_remediation_plan, approve_remediation_reboot, reject_remediation, prepare_remediation_job,
}
use aisys_adm.Service.Work.{process_remediation}
use aisys_adm.Service.Deletion.{process_snapshot_delete}
use aisys_adm.Service.Recovery.{recover_expired_jobs}
use aisys_adm.Service.Releases.{
  release_scheduled_remediation_jobs, release_scheduled_snapshot_delete_jobs,
}
use aisys_adm.Service.Scans.{
  create_scan_job, mark_campaign_proposal_running, mark_campaign_proposal_failed,
  attach_campaign_proposal,
}
use aisys_adm.Service.Campaigns.{
  create_campaign, list_campaigns, get_campaign, queue_campaign_proposals, approve_campaign_host,
  approve_campaign_host_reboot, reject_campaign_host,
}
use aisys_adm.Service.Hosts.{
  create_host, update_host, delete_host, save_schedule, create_due_scan_jobs, acknowledge_alert,
  purge_expired_logs,
}
use aisys_adm.Service.Rollout.{prepare_campaign_execution, cancel_campaign}

pub data Request : Type 0 where
  plan_approval : String → ApprovalRequest → String → Request
  reboot_approval : String → ApprovalRequest → String → Request
  reject : String → String → Request
  prepare_job : String → String → Option String → Bool → Request
  process : String → Option String → Request
  process_delete : String → Option String → Request
  recover : Datetime → Request
  release_remediations : Datetime → Request
  release_deletes : Datetime → Request
  create_scan : ScanRequest → String → Option String → Request
  proposal_running : String → String → Request
  proposal_failed : String → String → String → Request
  attach_proposal : String → Host → Option Remediation → Request
  campaign_request : CampaignRequest → String → Request
  show_campaigns : Request
  show_campaign : String → Request
  queue_proposals : String → String → Request
  approve_host : String → String → ApprovalRequest → String → Request
  approve_host_reboot : String → String → ApprovalRequest → String → Request
  reject_host : String → String → String → Request
  execute_campaign : String → String → Request
  stop_campaign : String → String → Request
  host_added : HostInput → String → Request
  host_changed : String → HostInput → String → Request
  host_removed : String → String → Request
  schedule_set : String → HostScheduleInput → String → Request
  due_scans : Datetime → Request
  alert_acknowledged : String → String → Request
  log_purge : Request

module _ (env : Environment) where
  -- The world after a request, whether it is answered or raises.
  abbrev pub serve : Request → World → World
  serve (Request.plan_approval id request actor) w =
      (approve_remediation_plan env id request actor w).1
  serve (Request.reboot_approval id request actor) w =
      (approve_remediation_reboot env id request actor w).1
  serve (Request.reject id actor) w = (reject_remediation env id actor w).1
  serve (Request.prepare_job id actor campaign sync) w =
      (prepare_remediation_job env id actor campaign sync w).1
  serve (Request.process id worker) w = (process_remediation env id worker w).1
  serve (Request.process_delete id worker) w = (process_snapshot_delete env id worker w).1
  serve (Request.recover t) w = (recover_expired_jobs env t w).1
  serve (Request.release_remediations t) w = (release_scheduled_remediation_jobs env t w).1
  serve (Request.release_deletes t) w = (release_scheduled_snapshot_delete_jobs env t w).1
  serve (Request.create_scan request actor campaign) w =
      (create_scan_job env request actor campaign w).1
  serve (Request.proposal_running campaign host) w =
      (mark_campaign_proposal_running env campaign host w).1
  serve (Request.proposal_failed campaign host error) w =
      (mark_campaign_proposal_failed env campaign host error w).1
  serve (Request.attach_proposal campaign host proposal) w =
      (attach_campaign_proposal env campaign host proposal w).1
  serve (Request.campaign_request request actor) w = (create_campaign env request actor w).1
  serve Request.show_campaigns w = (list_campaigns env w).1
  serve (Request.show_campaign id) w = (get_campaign env id w).1
  serve (Request.queue_proposals id actor) w = (queue_campaign_proposals env id actor w).1
  serve (Request.approve_host campaign host request actor) w =
      (approve_campaign_host env campaign host request actor w).1
  serve (Request.approve_host_reboot campaign host request actor) w =
      (approve_campaign_host_reboot env campaign host request actor w).1
  serve (Request.reject_host campaign host actor) w =
      (reject_campaign_host env campaign host actor w).1
  serve (Request.execute_campaign id actor) w = (prepare_campaign_execution env id actor w).1
  serve (Request.stop_campaign id actor) w = (cancel_campaign env id actor w).1
  serve (Request.host_added input actor) w = (create_host env input actor w).1
  serve (Request.host_changed id input actor) w = (update_host env id input actor w).1
  serve (Request.host_removed id actor) w = (delete_host env id actor w).1
  serve (Request.schedule_set id input actor) w = (save_schedule env id input actor w).1
  serve (Request.due_scans t) w = (create_due_scan_jobs env t w).1
  serve (Request.alert_acknowledged id actor) w = (acknowledge_alert env id actor w).1
  serve Request.log_purge w = (purge_expired_logs env w).1

  abbrev pub serve_all : List Request → World → World
  serve_all [] w = w
  serve_all (request ∷ requests) w = serve_all requests (serve request w)
