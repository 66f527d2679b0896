-- ===== src/Service/Campaigns.antt =====
-- Campaigns up to their execution: `create_campaign`, `list_campaigns`, `get_campaign`,
-- `queue_campaign_proposals`, `approve_campaign_host`, `approve_campaign_host_reboot`,
-- `reject_campaign_host` and `_validate_campaign_plan_binding` (service.py).
use aisys_adm.Prelude.{
  ℕ, String, Bool, not, ◌&&◌, ◌||◌, eqb, Option, none, some, List, [], ◌∷◌, map, length, ceil_div,
  mem_text, ◌is◌, ◌is_in◌, if◌then◌else◌,
}
use Prim.Native.String.{◌++◌ as append}
use aisys_adm.Models.Enums.{CampaignStatus, CampaignHostState, campaign_host_state_enum}
use aisys_adm.Models.Values.{Datetime, Json, Items, has_text, nonempty}
use aisys_adm.Models.Hosts.{Host}
use aisys_adm.Models.Remediations.{Remediation, ApprovalRequest}
use aisys_adm.Models.Jobs.{DurableJob}
use aisys_adm.Models.Campaigns.{CampaignHostPlan, PatchCampaign}
use aisys_adm.Models.Records.{CampaignRequest}
use aisys_adm.Gate.Campaign.{campaign_terminal, campaign_rollout_limit, campaign_plan_binding}
use aisys_adm.Service.World.{
  Environment, Raised, Action, pure, or_raise, ◌>>=◌, ◌>>◌, gets, raise_if, collect_each,
}
use aisys_adm.Service.Records.{
  dict_values, or_empty, now, fresh, audit, find_host, find_remediation, find_campaign,
  campaign_host, raise_gate_denial, save_campaign,
}
use aisys_adm.Service.Plans.{ensure_current_remediation_plan}
use aisys_adm.Service.Sync.{blank_plan, sync_campaign}
use aisys_adm.Service.Approvals.{
  approve_remediation_plan, approve_remediation_reboot, reject_remediation,
}
use aisys_adm.Service.Scans.{create_scan_job}
use aisys_adm.Service.Recovery.{somes}

-- list(dict.fromkeys(ids)), without the ids that were seen.
unfoldable pub unique : List String → List String → List String
unique seen [] = []
unique seen (id ∷ ids) =
    let again = unique seen ids in
    let rest = unique (id ∷ seen) ids in if mem_text id seen then again else id ∷ rest

abbrev pub text_items : List String → Items
text_items [] = Items.end_items
text_items (s ∷ rest) = Items.item (Json.text s) (text_items rest)

abbrev pub new_campaign :
    String → String → List String → List CampaignHostPlan → ℕ → Datetime → PatchCampaign
new_campaign id name host_ids plans batch_size current = record {
  id = id;
  name = name;
  host_ids = host_ids;
  remediation_ids = [];
  hosts = plans;
  status = CampaignStatus.draft;
  batch_size = batch_size;
  current_batch = 0;
  total_batches = ceil_div (length plans) batch_size;
  failure_summary = none;
  canceled_by = none;
  canceled_at = none;
  created_at = current;
  updated_at = current;
}

-- A plan that needs no new proposal.
abbrev pub has_proposal : CampaignHostPlan → Bool
has_proposal plan =
    has_text plan.remediation_id && not (plan.state is CampaignHostState.plan_changed)
    || plan.state
      is_in (CampaignHostState.proposal_queued ∷ CampaignHostState.proposal_running ∷ [])

abbrev pub proposal_queued : CampaignHostPlan → DurableJob → Datetime → CampaignHostPlan
proposal_queued plan job current = record plan {
  state = CampaignHostState.proposal_queued;
  scan_id = job.scan_id;
  failure_summary = none;
  job_id = some job.id;
  updated_at = current;
}

abbrev pub job_ids : List DurableJob → List String
job_ids jobs = map (λ (job : DurableJob). job.id) jobs

abbrev pub all_first : List (CampaignHostPlan × Option DurableJob) → List CampaignHostPlan
all_first [] = []
all_first ((plan, job) ∷ rest) = plan ∷ all_first rest

abbrev pub all_second : List (CampaignHostPlan × Option DurableJob) → List (Option DurableJob)
all_second [] = []
all_second ((plan, job) ∷ rest) = job ∷ all_second rest

module _ (env : Environment) where
  unfoldable pub create_campaign : CampaignRequest → String → Action PatchCampaign
  create_campaign request actor = do
    let host_ids = unique [] request.host_ids
    raise_if (not (eqb (length host_ids) (length request.host_ids)))
        (Raised.value_error "Campaign host selection contains duplicates")
    hosts ← collect_each host_ids find_host
    batch_size ←
        or_raise (campaign_rollout_limit hosts [])
          (Raised.value_error "min() arg is an empty sequence")
    current ← now env
    id ← fresh env "campaign"
    plans ← collect_each hosts (λ (host : Host). do
      plan_id ← fresh env "campaign-host"
      pure (blank_plan plan_id id host.id host.name current current))
    let campaign = new_campaign id request.name host_ids plans batch_size current
    save_campaign campaign
    audit env actor "campaign.created" "campaign" (some id)
        (("host_ids", Json.array (text_items host_ids)) ∷ [])
    pure campaign

  unfoldable pub list_campaigns : Action (List PatchCampaign)
  list_campaigns = do
    campaigns ← gets (λ s. dict_values s.campaigns)
    collect_each campaigns (sync_campaign env)

  unfoldable pub get_campaign : String → Action PatchCampaign
  get_campaign campaign_id = do campaign ← find_campaign campaign_id; sync_campaign env campaign

  unfoldable pub queue_proposal :
      PatchCampaign
      → String
      → Datetime
      → CampaignHostPlan
      → Action (CampaignHostPlan × Option DurableJob)
  queue_proposal campaign actor current plan = if has_proposal plan then pure (plan, none) else do
    request_id ← fresh env "request"
    let key =
        append "campaign-scan:"
          (append campaign.id (append ":" (append plan.host_id (append ":" request_id))))
    job ←
        create_scan_job env
          (record { host_id = plan.host_id; trigger = "campaign"; idempotency_key = some key })
          actor (some campaign.id)
    pure (proposal_queued plan job current, some job)

  unfoldable pub queue_campaign_proposals :
      String → String → Action (PatchCampaign × List DurableJob)
  unfolding get_campaign queue_proposal
  queue_campaign_proposals campaign_id actor = do
    campaign ← get_campaign campaign_id
    raise_if (campaign_terminal campaign)
        (Raised.value_error "Campaign cannot create proposals in its current state")
    current ← now env
    results ← collect_each campaign.hosts (queue_proposal campaign actor current)
    let jobs = somes (all_second results)
    raise_if (not (nonempty jobs)) (Raised.value_error "Campaign has no hosts awaiting proposals")
    let proposing = record campaign {
      hosts = all_first results;
      status = CampaignStatus.proposing;
      updated_at = current;
    }
    save_campaign proposing
    audit env actor "campaign.proposals_queued" "campaign" (some campaign.id)
        (("job_ids", Json.array (text_items (job_ids jobs))) ∷ [])
    pure (proposing, jobs)

  -- The plan of a host is still the one that the campaign shows.
  unfoldable pub validate_campaign_plan_binding : CampaignHostPlan → Remediation → Action (Unit {0})
  validate_campaign_plan_binding plan stored = do
    reconciliation ← ensure_current_remediation_plan env stored
    let decision = campaign_plan_binding env.hash plan reconciliation.remediation
    if decision.allowed then pure tt else do
      now env
      campaign ← find_campaign plan.campaign_id
      sync_campaign env campaign
      raise_gate_denial decision

  -- The plan of the host that an operator decides on.
  unfoldable pub reviewed_plan : String → String → String → Action CampaignHostPlan
  unfolding get_campaign
  reviewed_plan campaign_id host_id refused = do
    campaign ← get_campaign campaign_id
    raise_if (campaign_terminal campaign) (Raised.value_error refused)
    plan ← campaign_host campaign host_id
    raise_if (not (has_text plan.remediation_id))
        (Raised.value_error "Campaign host has no remediation proposal")
    pure plan

  -- The campaign after the decision, with an entry in the audit trail.
  unfoldable pub reviewed :
      String → String → String → CampaignHostPlan → String → Action PatchCampaign
  unfolding get_campaign
  reviewed campaign_id host_id actor plan action = do
    campaign ← get_campaign campaign_id
    audit env actor action "campaign" (some campaign.id) (
        ("host_id", Json.text host_id)
        ∷ ("remediation_id", Json.text (or_empty plan.remediation_id))
        ∷ [])
    pure campaign

  unfoldable pub approve_campaign_host :
      String → String → ApprovalRequest → String → Action PatchCampaign
  unfolding reviewed_plan validate_campaign_plan_binding reviewed
  approve_campaign_host campaign_id host_id request actor = do
    plan ← reviewed_plan campaign_id host_id "Campaign cannot approve hosts in its current state"
    r ← find_remediation plan.remediation_id
    validate_campaign_plan_binding plan r
    approve_remediation_plan env (or_empty plan.remediation_id) request actor
    reviewed campaign_id host_id actor plan "campaign.host_plan_approved"

  unfoldable pub approve_campaign_host_reboot :
      String → String → ApprovalRequest → String → Action PatchCampaign
  unfolding reviewed_plan validate_campaign_plan_binding reviewed
  approve_campaign_host_reboot campaign_id host_id request actor = do
    plan ← reviewed_plan campaign_id host_id "Campaign cannot approve hosts in its current state"
    r ← find_remediation plan.remediation_id
    validate_campaign_plan_binding plan r
    approve_remediation_reboot env (or_empty plan.remediation_id) request actor
    reviewed campaign_id host_id actor plan "campaign.host_reboot_approved"

  unfoldable pub reject_campaign_host : String → String → String → Action PatchCampaign
  unfolding reviewed_plan reviewed
  reject_campaign_host campaign_id host_id actor = do
    plan ← reviewed_plan campaign_id host_id "Campaign cannot reject hosts in its current state"
    reject_remediation env (or_empty plan.remediation_id) actor
    reviewed campaign_id host_id actor plan "campaign.host_rejected"
