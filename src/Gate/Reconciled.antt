-- ===== src/Gate/Reconciled.antt =====
-- Plans before and after `reconcile_plan` (trusted_change.py).
use aisys_adm.Prelude.{
  String, ◌≡◌, ◌≢◌, refl, sym, ◌∙◌, ◌↔◌, ◌⊎◌, inl, inr, Bool, true, false, not, Option, some, arith,
  eq_iff, same_text_iff, same_num_iff, Bool-cases, if◌then◌else◌, ◌==◌, ap,
}
use aisys_adm.Models.Words.{ApprovalState}
use aisys_adm.Models.Values.{Datetime}
use aisys_adm.Models.Hosts.{Host}
use aisys_adm.Models.Jobs.{DurableJob}
use aisys_adm.Models.Remediations.{Remediation}
use aisys_adm.Gate.Plan.{PlanPayload, plan_payload, plan_hash, set_reboot_approved}
use aisys_adm.Gate.Transitions.{withdraw_approvals, new_version, reconcile_plan}
use aisys_adm.Gate.Execution.{execution_eligibility}
use aisys_adm.Gate.Eligibility.Allowed.{execution_allowed}

-- The hash of a plan is the hash of its content, and an approval is of this version and hash.
pub record IsCurrent (hash : PlanPayload → String) (r : Remediation) : Type 0 where
  pub content : r.plan_hash ≡ hash (plan_payload r)
  pub version :
      (r.approval_state ≢ ApprovalState.approved) ⊎ (r.approved_plan_version ≡ some r.plan_version)
  pub approved_hash :
      (r.approval_state ≢ ApprovalState.approved) ⊎ (r.approved_plan_hash ≡ some r.plan_hash)

payload-withdraw :
    (r : Remediation) (t : Datetime) → plan_payload (withdraw_approvals r t) ≡ plan_payload r
unfolding plan_payload withdraw_approvals set_reboot_approved
payload-withdraw r t = refl

module _ (hash : PlanPayload → String) where
  -- `reconcile_plan` reports no change exactly for a current plan.
  pub reconcile_unchanged :
      (r : Remediation) (t : Datetime)
      → (reconcile_plan hash r t).changed ≡ false ↔ IsCurrent hash r
  unfolding reconcile_plan plan_hash
  reconcile_unchanged r t = ground (
    arith,
    eq_iff r.plan_hash (hash (plan_payload r)),
    same_num_iff r.approved_plan_version (some r.plan_version),
    same_text_iff r.approved_plan_hash (some r.plan_hash),
  )

  current_kept :
      (r : Remediation) (t : Datetime)
      → (reconcile_plan hash r t).changed ≡ false
      → (reconcile_plan hash r t).remediation ≡ r
  unfolding reconcile_plan
  current_kept r t h = ground arith

  new_version-content :
      (r : Remediation) → (new_version hash r).plan_hash ≡ hash (plan_payload (new_version hash r))
  unfolding new_version plan_hash plan_payload
  new_version-content r = refl

  withdrawn-IsCurrent :
      (r : Remediation) (t : Datetime)
      → r.plan_hash ≡ hash (plan_payload r)
      → IsCurrent hash (withdraw_approvals r t)
  unfolding withdraw_approvals
  withdrawn-IsCurrent r t h = record {
    content = h ∙ ap hash (sym (payload-withdraw r t));
    version = inl (λ e. cc);
    approved_hash = inl (λ e. cc);
  }

  changed_form :
      (r : Remediation) (t : Datetime)
      → (reconcile_plan hash r t).changed ≡ true
      → (reconcile_plan hash r t).remediation
        ≡ withdraw_approvals
            (if not (r.plan_hash == plan_hash hash r) then new_version hash r else r)
            t
  unfolding reconcile_plan
  changed_form r t h = ground arith

  withdrawn_form-IsCurrent :
      (r : Remediation) (t : Datetime)
      → IsCurrent hash (
          withdraw_approvals
            (if not (r.plan_hash == plan_hash hash r) then new_version hash r else r)
            t)
  unfolding plan_hash
  withdrawn_form-IsCurrent r t = elim (Bool-cases (r.plan_hash == hash (plan_payload r))) [
    | inl same ↦ rw same (withdrawn-IsCurrent r t ((eq_iff _ _).0 same))
    | inr other ↦ rw other (withdrawn-IsCurrent (new_version hash r) t (new_version-content r))
  ]

  -- Whatever the plan was, the one that `reconcile_plan` returns is current: its hash is that of its
  -- content, and it is approved only at its own version and hash.
  pub reconcile-IsCurrent :
      (r : Remediation) (t : Datetime) → IsCurrent hash (reconcile_plan hash r t).remediation
  reconcile-IsCurrent r t = elim (Bool-cases (reconcile_plan hash r t).changed) [
    | inl e ↦ rw (changed_form r t e) (withdrawn_form-IsCurrent r t)
    | inr e ↦ rw (current_kept r t e) ((reconcile_unchanged r t).0 e)
  ]

  -- A second `reconcile_plan`, at any later time, reports no change and returns the same plan.
  pub reconcile_idempotent :
      (r : Remediation) (t u : Datetime)
      → let once = (reconcile_plan hash r t).remediation in
        ((reconcile_plan hash once u).changed ≡ false)
        × ((reconcile_plan hash once u).remediation ≡ once)
  reconcile_idempotent r t u =
      let once = (reconcile_plan hash r t).remediation in
      let same = (reconcile_unchanged once u).1 (reconcile-IsCurrent r t) in
      (same, current_kept once u same)

  changed-pending :
      (r : Remediation) (t : Datetime)
      → (reconcile_plan hash r t).changed ≡ true
      → (reconcile_plan hash r t).remediation.approval_state ≡ ApprovalState.pending
  unfolding withdraw_approvals
  changed-pending r t e = rw (changed_form r t e)

  not_allowed_when_pending :
      (r : Remediation) (host : Host) (job : Option DurableJob) (f : Bool)
      → r.approval_state ≡ ApprovalState.pending
      → (execution_eligibility hash r host job f).allowed ≡ false
  not_allowed_when_pending r host job f p =
      elim (Bool-cases (execution_eligibility hash r host job f).allowed) [
        | inl e ↦ cc (((execution_allowed hash r host job f).0 e).1.state)
        | inr e ↦ e
      ]

  -- After a change the plan that `reconcile_plan` returns cannot run, on any host and for any job.
  pub changed_plan_denied :
      (r : Remediation) (t : Datetime) (host : Host) (job : Option DurableJob) (f : Bool)
      → (reconcile_plan hash r t).changed ≡ true
      → (execution_eligibility hash (reconcile_plan hash r t).remediation host job f).allowed
        ≡ false
  changed_plan_denied r t host job f e =
      not_allowed_when_pending (reconcile_plan hash r t).remediation host job f
        (changed-pending r t e)

  -- Take a plan that may run, and one that still carries its hash over a content that hashes
  -- otherwise. The second may not run, on any host and for any job, and `reconcile_plan` reports
  -- the change.
  pub tampered_plan_denied :
      (r s : Remediation) (host other : Host) (job job' : Option DurableJob) (f f' : Bool)
      (t : Datetime)
      → (execution_eligibility hash r host job f).allowed ≡ true
      → s.plan_hash ≡ r.plan_hash
      → hash (plan_payload s) ≢ hash (plan_payload r)
      → ((execution_eligibility hash s other job' f').allowed ≡ false)
        × ((reconcile_plan hash s t).changed ≡ true)
  tampered_plan_denied r s host other job job' f f' t allowed same differs =
      let held = ((execution_allowed hash r host job f).0 allowed).1.content in
      let stale : s.plan_hash ≢ hash (plan_payload s) = λ e. differs (sym e ∙ same ∙ held) in
      (
        elim (Bool-cases (execution_eligibility hash s other job' f').allowed) [
          | inl e ↦ absurd (stale ((execution_allowed hash s other job' f').0 e).1.content)
          | inr e ↦ e
        ],
        elim (Bool-cases (reconcile_plan hash s t).changed) [
          | inl e ↦ e
          | inr e ↦ absurd (stale ((reconcile_unchanged s t).0 e).content)
        ],
      )
