-- ===== src/Service/Plans.antt =====
-- Plans as the service keeps them: reconciliation with what is stored, and the decision on their
-- execution (`_ensure_current_remediation_plan` and `_trusted_execution_decision` of service.py).
use aisys_adm.Prelude.{not, Option, some, [], ◌∷◌, if◌then◌else◌}
use aisys_adm.Models.Values.{Json, JsonDict}
use aisys_adm.Models.Hosts.{Host}
use aisys_adm.Models.Remediations.{Remediation}
use aisys_adm.Models.Jobs.{DurableJob}
use aisys_adm.Gate.Decision.{GateDecision}
use aisys_adm.Gate.Transitions.{PlanReconciliation, reconcile_plan}
use aisys_adm.Gate.Execution.{execution_eligibility}
use aisys_adm.Service.World.{Environment, Action, pure, ◌>>=◌, ◌>>◌, gets}
use aisys_adm.Service.Records.{now, audit, save_remediation, host_has_active_rollback_failure}

abbrev pub binding_details : PlanReconciliation → JsonDict
binding_details reconciliation =
    ("previous_plan_version", Json.num reconciliation.previous_plan_version)
    ∷ ("previous_plan_hash", Json.text reconciliation.previous_plan_hash)
    ∷ ("plan_version", Json.num reconciliation.remediation.plan_version)
    ∷ ("plan_hash", Json.text reconciliation.remediation.plan_hash)
    ∷ []

module _ (env : Environment) where
  -- A changed plan is saved, with an entry in the audit trail.
  unfoldable pub keep_reconciliation : PlanReconciliation → Action (Unit {0})
  unfolding audit
  keep_reconciliation reconciliation = if not reconciliation.changed then pure tt else do
    save_remediation reconciliation.remediation
    audit env "system" "remediation.approval_invalidated" "remediation"
        (some reconciliation.remediation.id) (binding_details reconciliation)

  unfoldable pub ensure_current_remediation_plan : Remediation → Action PlanReconciliation
  unfolding keep_reconciliation
  ensure_current_remediation_plan r = do
    current ← now env
    let reconciliation = reconcile_plan env.hash r current
    keep_reconciliation reconciliation
    pure reconciliation

  unfoldable pub trusted_execution_decision :
      Remediation → Host → Option DurableJob → Action (GateDecision × Remediation)
  unfolding ensure_current_remediation_plan
  trusted_execution_decision r host job = do
    reconciliation ← ensure_current_remediation_plan r
    let updated = reconciliation.remediation
    active ← gets (λ s. host_has_active_rollback_failure env s host.id)
    let eligibility = execution_eligibility env.hash updated host job active
    pure (if reconciliation.changed then reconciliation.decision else eligibility, updated)
