-- ===== src/Service/Kept/Changes.antt =====
-- Approvals, scans and campaigns up to their execution (service.py): what every stable invariant
-- withstands.
use aisys_adm.Prelude.{String, Bool, Option, none, some}
use aisys_adm.Models.Values.{Datetime}
use aisys_adm.Models.Hosts.{Host}
use aisys_adm.Models.Remediations.{Remediation, ApprovalRequest}
use aisys_adm.Models.Jobs.{DurableJob}
use aisys_adm.Models.Campaigns.{CampaignHostPlan, PatchCampaign}
use aisys_adm.Models.Scans.{ScanRequest}
use aisys_adm.Models.Records.{CampaignRequest}
use aisys_adm.Gate.Timing.{TimingDecision}
use aisys_adm.Service.World.{World, Environment}
use aisys_adm.Service.Approvals.{
  approve_remediation_plan, approve_remediation_reboot, reject_remediation, queue_remediation,
  job_of_plan, prepare_in_transaction, prepare_remediation_job,
}
use aisys_adm.Service.Scans.{
  scan_key, queue_scan, create_scan_job, mark_campaign_proposal_running,
  mark_campaign_proposal_failed, with_remediation, attach_campaign_proposal,
}
use aisys_adm.Service.Campaigns.{
  create_campaign, list_campaigns, get_campaign, queue_proposal, queue_campaign_proposals,
  validate_campaign_plan_binding, reviewed_plan, reviewed, approve_campaign_host,
  approve_campaign_host_reboot, reject_campaign_host,
}
use aisys_adm.Service.Kept.Rules.{Stable, Keeps, collect_each-Keeps, transaction-Keeps}
use aisys_adm.Service.Kept.Plans.{plan_steps}

module _ {env : Environment} {I : World → Type 0} (stable : Stable env I) where
  pub approve_remediation_plan-Keeps :
      (id : String) (request : ApprovalRequest) (actor : String)
      → Keeps I (approve_remediation_plan env id request actor)
  unfolding approve_remediation_plan
  approve_remediation_plan-Keeps id request actor = search plan_steps depth 20

  pub approve_remediation_reboot-Keeps :
      (id : String) (request : ApprovalRequest) (actor : String)
      → Keeps I (approve_remediation_reboot env id request actor)
  unfolding approve_remediation_reboot
  approve_remediation_reboot-Keeps id request actor = search plan_steps depth 20

  pub reject_remediation-Keeps : (id actor : String) → Keeps I (reject_remediation env id actor)
  unfolding reject_remediation
  reject_remediation-Keeps id actor = search plan_steps depth 20

  queue_remediation-Keeps :
      (r : Remediation) (host : Host) (actor : String) (campaign : Option String) (t : Datetime)
      (d : TimingDecision)
      → Keeps I (queue_remediation env r host actor campaign t d)
  unfolding queue_remediation
  queue_remediation-Keeps r host actor campaign t d = search plan_steps depth 20

  job_of_plan-Keeps :
      (existing : Option DurableJob) (r : Remediation) (host : Host) (actor : String)
      (campaign : Option String) (t : Datetime)
      → Keeps I (job_of_plan env existing r host actor campaign t)
  unfolding job_of_plan
  job_of_plan-Keeps none r host actor campaign t =
      search (plan_steps, queue_remediation-Keeps) depth 20
  job_of_plan-Keeps (some job) r host actor campaign t = search plan_steps

  prepare_in_transaction-Keeps :
      (id actor : String) (campaign : Option String)
      → Keeps I (prepare_in_transaction env id actor campaign)
  unfolding prepare_in_transaction
  prepare_in_transaction-Keeps id actor campaign = search (plan_steps, job_of_plan-Keeps) depth 20

  pub prepare_remediation_job-Keeps :
      (id actor : String) (campaign : Option String) (sync : Bool)
      → Keeps I (prepare_remediation_job env id actor campaign sync)
  unfolding prepare_remediation_job
  prepare_remediation_job-Keeps id actor campaign sync =
      search (plan_steps, transaction-Keeps, prepare_in_transaction-Keeps) depth 20

  scan_key-Keeps : (request : ScanRequest) (host : Host) → Keeps I (scan_key env request host)
  unfolding scan_key
  scan_key-Keeps request host = search plan_steps

  queue_scan-Keeps :
      (request : ScanRequest) (host : Host) (key actor : String) (campaign : Option String)
      → Keeps I (queue_scan env request host key actor campaign)
  unfolding queue_scan
  queue_scan-Keeps request host key actor campaign = search plan_steps depth 20

  pub create_scan_job-Keeps :
      (request : ScanRequest) (actor : String) (campaign : Option String)
      → Keeps I (create_scan_job env request actor campaign)
  unfolding create_scan_job
  create_scan_job-Keeps request actor campaign =
      search (plan_steps, scan_key-Keeps, queue_scan-Keeps) depth 20

  pub mark_campaign_proposal_running-Keeps :
      (campaign host : String) → Keeps I (mark_campaign_proposal_running env campaign host)
  unfolding mark_campaign_proposal_running
  mark_campaign_proposal_running-Keeps campaign host = search plan_steps depth 20

  pub mark_campaign_proposal_failed-Keeps :
      (campaign host error : String)
      → Keeps I (mark_campaign_proposal_failed env campaign host error)
  unfolding mark_campaign_proposal_failed
  mark_campaign_proposal_failed-Keeps campaign host error = search plan_steps depth 20

  with_remediation-Keeps :
      (c : PatchCampaign) (host : String) (r : Remediation) (t : Datetime)
      → Keeps I (with_remediation env c host r t)
  unfolding with_remediation
  with_remediation-Keeps c host r t = search (plan_steps, collect_each-Keeps) depth 20

  pub attach_campaign_proposal-Keeps :
      (campaign : String) (host : Host) (r : Option Remediation)
      → Keeps I (attach_campaign_proposal env campaign host r)
  unfolding attach_campaign_proposal
  attach_campaign_proposal-Keeps campaign host r =
      search (plan_steps, with_remediation-Keeps) depth 20

  pub create_campaign-Keeps :
      (request : CampaignRequest) (actor : String) → Keeps I (create_campaign env request actor)
  unfolding create_campaign
  create_campaign-Keeps request actor = search (plan_steps, collect_each-Keeps) depth 20

  pub list_campaigns-Keeps : Keeps I (list_campaigns env)
  unfolding list_campaigns
  list_campaigns-Keeps = search (plan_steps, collect_each-Keeps)

  pub get_campaign-Keeps : (id : String) → Keeps I (get_campaign env id)
  unfolding get_campaign
  get_campaign-Keeps id = search plan_steps

  queue_proposal-Keeps :
      (c : PatchCampaign) (actor : String) (t : Datetime) (plan : CampaignHostPlan)
      → Keeps I (queue_proposal env c actor t plan)
  unfolding queue_proposal
  queue_proposal-Keeps c actor t plan = search (plan_steps, create_scan_job-Keeps) depth 20

  pub queue_campaign_proposals-Keeps :
      (id actor : String) → Keeps I (queue_campaign_proposals env id actor)
  unfolding queue_campaign_proposals
  queue_campaign_proposals-Keeps id actor =
      search (plan_steps, get_campaign-Keeps, queue_proposal-Keeps, collect_each-Keeps) depth 20

  pub validate_campaign_plan_binding-Keeps :
      (plan : CampaignHostPlan) (r : Remediation)
      → Keeps I (validate_campaign_plan_binding env plan r)
  unfolding validate_campaign_plan_binding
  validate_campaign_plan_binding-Keeps plan r = search plan_steps depth 20

  reviewed_plan-Keeps :
      (campaign host refused : String) → Keeps I (reviewed_plan env campaign host refused)
  unfolding reviewed_plan
  reviewed_plan-Keeps campaign host refused = search (plan_steps, get_campaign-Keeps) depth 20

  reviewed-Keeps :
      (campaign host actor : String) (plan : CampaignHostPlan) (action : String)
      → Keeps I (reviewed env campaign host actor plan action)
  unfolding reviewed
  reviewed-Keeps campaign host actor plan action = search (plan_steps, get_campaign-Keeps) depth 20

  pub approve_campaign_host-Keeps :
      (campaign host : String) (request : ApprovalRequest) (actor : String)
      → Keeps I (approve_campaign_host env campaign host request actor)
  unfolding approve_campaign_host
  approve_campaign_host-Keeps campaign host request actor =
      search
        (
          plan_steps, reviewed_plan-Keeps, validate_campaign_plan_binding-Keeps,
          approve_remediation_plan-Keeps, reviewed-Keeps,
        )
        depth 20

  pub approve_campaign_host_reboot-Keeps :
      (campaign host : String) (request : ApprovalRequest) (actor : String)
      → Keeps I (approve_campaign_host_reboot env campaign host request actor)
  unfolding approve_campaign_host_reboot
  approve_campaign_host_reboot-Keeps campaign host request actor =
      search
        (
          plan_steps, reviewed_plan-Keeps, validate_campaign_plan_binding-Keeps,
          approve_remediation_reboot-Keeps, reviewed-Keeps,
        )
        depth 20

  pub reject_campaign_host-Keeps :
      (campaign host actor : String) → Keeps I (reject_campaign_host env campaign host actor)
  unfolding reject_campaign_host
  reject_campaign_host-Keeps campaign host actor =
      search (plan_steps, reviewed_plan-Keeps, reject_remediation-Keeps, reviewed-Keeps) depth 20
