-- ===== src/Gate/Projected/Status.antt =====
-- When a live campaign has succeeded (`_project_campaign_status` of trusted_change.py).
use aisys_adm.Prelude.{
  ℕ, ◌≤◌, ◌≡◌, refl, ◌↔◌, Bool, true, false, ◌&&◌, List, [], ◌∷◌, arith, any, all,
}
use aisys_adm.Models.Enums.{
  CampaignHostState, CampaignStatus, campaign_host_state_enum, campaign_status_enum,
}
use aisys_adm.Models.Values.{nonempty}
use aisys_adm.Models.Campaigns.{CampaignHostPlan}
use aisys_adm.Gate.Rollup.{
  in_states, succeeded_hosts, failed_hosts, awaiting_hosts, approved_hosts, actionable_hosts,
  live_status, terminal_status, project_terminal_campaign_status,
}

-- Every host has succeeded or needed no action.
abbrev pub AllDone : List CampaignHostPlan → Type 0
AllDone plans =
    all (in_states (CampaignHostState.succeeded ∷ CampaignHostState.no_action ∷ [])) plans ≡ true

succeeded-le-actionable :
    (plans : List CampaignHostPlan) → succeeded_hosts plans ≤ actionable_hosts plans
succeeded-le-actionable [] = omega arith
succeeded-le-actionable (plan ∷ plans) = ground (arith, succeeded-le-actionable plans)

done_of_counts :
    (plans : List CampaignHostPlan) → succeeded_hosts plans ≡ actionable_hosts plans → AllDone plans
done_of_counts [] h = refl
done_of_counts (plan ∷ plans) h =
    ground (arith, succeeded-le-actionable plans, done_of_counts plans)

record Counts (plans : List CampaignHostPlan) : Type 0 where
  failed : failed_hosts plans ≡ 0
  awaiting : awaiting_hosts plans ≡ 0
  approved : approved_hosts plans ≡ 0
  succeeded : succeeded_hosts plans ≡ actionable_hosts plans
  proposals :
      any
        (in_states (CampaignHostState.proposal_queued ∷ CampaignHostState.proposal_running ∷ []))
        plans
      ≡ false
  running :
      any
        (in_states
          (CampaignHostState.scheduled ∷ CampaignHostState.queued ∷ CampaignHostState.running ∷ []))
        plans
      ≡ false

done-Counts : (plans : List CampaignHostPlan) → AllDone plans → Counts plans
done-Counts [] h = ground arith
done-Counts (plan ∷ plans) h = ground (arith, done-Counts plans)

abbrev all_selected : List CampaignHostPlan → Bool
all_selected plans = nonempty plans && all (in_states (CampaignHostState.selected ∷ [])) plans

done-not_selected : (plans : List CampaignHostPlan) → AllDone plans → all_selected plans ≡ false
done-not_selected [] h = refl
done-not_selected (plan ∷ plans) h = ground arith

terminal_succeeded :
    (s f w a n : ℕ) → s ≤ n → terminal_status s f w a n ≡ CampaignStatus.succeeded → s ≡ n
unfolding terminal_status
terminal_succeeded s f w a n h e = ground arith

done_terminal : (n : ℕ) → terminal_status n 0 0 0 n ≡ CampaignStatus.succeeded
unfolding terminal_status
done_terminal n = ground arith

live-terminal :
    (plans : List CampaignHostPlan)
    → live_status plans ≡ CampaignStatus.succeeded
    → project_terminal_campaign_status plans ≡ CampaignStatus.succeeded
unfolding live_status
live-terminal plans h = ground arith

-- A campaign that was not canceled shows as succeeded exactly when every host has succeeded or
-- needed no action.
pub succeeded_iff_done :
    (plans : List CampaignHostPlan) → live_status plans ≡ CampaignStatus.succeeded ↔ AllDone plans
unfolding live_status project_terminal_campaign_status
succeeded_iff_done plans = (forth, back)
  where
    forth : live_status plans ≡ CampaignStatus.succeeded → AllDone plans
    forth h = done_of_counts plans (
        terminal_succeeded (succeeded_hosts plans) (failed_hosts plans) (awaiting_hosts plans)
          (approved_hosts plans) (actionable_hosts plans) (succeeded-le-actionable plans)
          (live-terminal plans h))

    back : AllDone plans → live_status plans ≡ CampaignStatus.succeeded
    back h =
        let k = done-Counts plans h in
        simp
          (
            done-not_selected plans h,
            k.proposals,
            k.running,
            k.failed,
            k.awaiting,
            k.approved,
            k.succeeded,
          )
          (done_terminal (actionable_hosts plans))
