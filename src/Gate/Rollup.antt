-- ===== src/Gate/Rollup.antt =====
-- The status of a campaign from the states of its hosts: `_project_campaign_status`,
-- `_project_terminal_campaign_status` and the end of `project_campaign` (trusted_change.py).
use aisys_adm.Prelude.{
  ℕ, String, Bool, not, ◌==◌, ◌&&◌, ◌||◌, Option, none, some, List, [], ◌∷◌, eqb, ltb, ◌is◌,
  ◌is_in◌, if◌then◌else◌, min, max, any, all, count, clip, join, ceil_div,
}
use aisys_adm.Models.Enums.{
  CampaignStatus, campaign_status_enum, CampaignHostState, campaign_host_state_enum,
}
use aisys_adm.Models.Words.{
  job_status_enum, job_type_enum, approval_state_enum, execution_state_enum,
}
use aisys_adm.Models.Values.{Datetime, is_some, nonempty}
use aisys_adm.Models.Campaigns.{CampaignHostPlan, PatchCampaign}

abbrev pub in_states : List CampaignHostState → CampaignHostPlan → Bool
in_states states plan = plan.state is_in states

-- The numbers that the terminal status is drawn from.
abbrev pub succeeded_hosts : List CampaignHostPlan → ℕ
succeeded_hosts = count (in_states (CampaignHostState.succeeded ∷ []))

abbrev pub failed_hosts : List CampaignHostPlan → ℕ
failed_hosts = count (
    in_states (
      CampaignHostState.failed ∷ CampaignHostState.rejected ∷ CampaignHostState.blocked
      ∷ CampaignHostState.canceled ∷ []))

abbrev pub awaiting_hosts : List CampaignHostPlan → ℕ
awaiting_hosts = count (
    in_states (
      CampaignHostState.awaiting_approval ∷ CampaignHostState.awaiting_reboot_approval
      ∷ CampaignHostState.plan_changed ∷ []))

abbrev pub approved_hosts : List CampaignHostPlan → ℕ
approved_hosts = count (in_states (CampaignHostState.approved ∷ []))

abbrev pub actionable_hosts : List CampaignHostPlan → ℕ
actionable_hosts = count (λ plan. not (plan.state is CampaignHostState.no_action))

-- The ladder of `_project_terminal_campaign_status` over those numbers.
unfoldable pub terminal_status : ℕ → ℕ → ℕ → ℕ → ℕ → CampaignStatus
terminal_status succeeded failed awaiting approved actionable =
    if ltb 0 succeeded && (ltb 0 failed || ltb 0 awaiting || ltb 0 approved)
    then CampaignStatus.partially_succeeded
    else if ltb 0 awaiting
    then CampaignStatus.awaiting_approval
    else if ltb 0 approved
    then CampaignStatus.ready
    else if ltb 0 actionable && eqb succeeded actionable
    then CampaignStatus.succeeded
    else if ltb 0 succeeded && ltb 0 failed
    then CampaignStatus.partially_succeeded
    else if ltb 0 failed
    then CampaignStatus.failed
    else if not (ltb 0 actionable)
    then CampaignStatus.succeeded
    else CampaignStatus.draft

unfoldable pub project_terminal_campaign_status : List CampaignHostPlan → CampaignStatus
project_terminal_campaign_status hosts =
    terminal_status (succeeded_hosts hosts) (failed_hosts hosts) (awaiting_hosts hosts)
      (approved_hosts hosts) (actionable_hosts hosts)

-- The status of a campaign that was not canceled.
unfoldable pub live_status : List CampaignHostPlan → CampaignStatus
live_status hosts =
    if nonempty hosts && all (in_states (CampaignHostState.selected ∷ [])) hosts
    then CampaignStatus.draft
    else if any
        (in_states (CampaignHostState.proposal_queued ∷ CampaignHostState.proposal_running ∷ []))
        hosts
    then CampaignStatus.proposing
    else if any
        (in_states
          (CampaignHostState.scheduled ∷ CampaignHostState.queued ∷ CampaignHostState.running ∷ []))
        hosts
    then CampaignStatus.running
    else project_terminal_campaign_status hosts

unfoldable pub failure_texts : List CampaignHostPlan → List String
failure_texts [] = []
failure_texts (plan ∷ plans) =
    let rest = failure_texts plans in
    elim plan.failure_summary [ none ↦ rest | some text ↦ if text == "" then rest else text ∷ rest ]

-- "; ".join(failures)[:2000] or None
unfoldable pub summarize : List CampaignHostPlan → Option String
unfolding failure_texts
summarize plans =
    let text = clip 2000 (join "; " (failure_texts plans)) in if text == "" then none else some text

unfoldable pub project_campaign_status : PatchCampaign → PatchCampaign
project_campaign_status campaign =
    if is_some campaign.canceled_at
    then record campaign {
      status =
          if any (in_states (CampaignHostState.running ∷ [])) campaign.hosts
          then CampaignStatus.cancelling
          else CampaignStatus.canceled;
    }
    else if campaign.status is CampaignStatus.canceled
    then campaign
    else record campaign {
      status = live_status campaign.hosts;
      failure_summary = summarize campaign.hosts;
    }

unfoldable pub linked_remediations : List CampaignHostPlan → List String
linked_remediations [] = []
linked_remediations (plan ∷ plans) =
    let rest = linked_remediations plans in
    elim plan.remediation_id [ none ↦ rest | some id ↦ if id == "" then rest else id ∷ rest ]

abbrev pub completed_hosts : List CampaignHostPlan → ℕ
completed_hosts = count (
    in_states (
      CampaignHostState.succeeded ∷ CampaignHostState.failed ∷ CampaignHostState.canceled
      ∷ CampaignHostState.no_action ∷ []))

-- The division raises for a batch size of 0, which no campaign of `create_campaign` has.
unfoldable pub completed_batches : PatchCampaign → ℕ
completed_batches campaign =
    let completed_count = completed_hosts campaign.hosts in
    if ltb 0 completed_count then ceil_div completed_count campaign.batch_size else 0

-- What `project_campaign` does once the hosts are projected.
unfoldable pub settle_campaign : PatchCampaign → Datetime → PatchCampaign
settle_campaign campaign current =
    let updated = project_campaign_status campaign in
    record updated {
      remediation_ids = linked_remediations updated.hosts;
      current_batch =
          min updated.total_batches (max updated.current_batch (completed_batches updated));
      updated_at = current;
    }
