-- ===== src/Service/Kept/Guarded.antt =====
-- The change on a host (`_process_claimed_remediation` of service.py): when the executor is called,
-- the store has the plan, its host and a job that holds them.
use aisys_adm.Prelude.{String, true, false, Option, some, ◌≡◌, refl, sym, ap, subst, ◌∙◌, ℕ}
use aisys_adm.Models.Words.{job_status_enum}
use aisys_adm.Models.Values.{get, is_some}
use aisys_adm.Models.Hosts.{Host}
use aisys_adm.Models.Remediations.{Remediation}
use aisys_adm.Models.Jobs.{DurableJob}
use aisys_adm.Gate.Transitions.{PlanReconciliation, reconcile_plan}
use aisys_adm.Gate.Eligibility.Conditions.{PlanApproved, SnapshotReady, JobBound}
use aisys_adm.Repository.Jobs.{save_job, heartbeat_job}
use aisys_adm.Service.World.{Store, World, Environment, Raised, Action, Result, ok, err, Call}
use aisys_adm.Service.Records.{or_empty, find_remediation, find_host}
use aisys_adm.Service.Plans.{
  keep_reconciliation, ensure_current_remediation_plan, trusted_execution_decision,
}
use aisys_adm.Service.Failures.{assert_job_lease, save_claimed_job, await}
use aisys_adm.Service.Execution.{
  stopped_with, holding, require_eligible, enter_phase, run_change, execute_change, at_phase,
}
use aisys_adm.Service.Kept.Rules.{
  Stable, Keeps, IsGuarded, IsStored, IsHeld, ok_injective, settle-Keeps, pure-Keeps,
}
use aisys_adm.Service.Kept.Records.{save_remediation-Keeps}
use aisys_adm.Service.Kept.Jobs.{save_job-Stores, heartbeat_job-Stores}
use aisys_adm.Service.Kept.Plans.{keep_reconciliation-Keeps, beats-Keeps, assert_job_lease-Keeps}
use aisys_adm.Service.Kept.Leads.{
  Leads, lead, lead_next, leads_to, assuming, Keeps-Leads, Leads-Keeps, pure-Leads, raise-Leads,
  gets-Leads, or_raise-Leads, raise_if-Leads, if-Leads, now-Leads, on_jobs-Leads, call-Leads,
}
use aisys_adm.Service.Kept.Executions.{stopped_kept}
use aisys_adm.Service.Kept.Held.{
  change_denied, unchanged_same, Reconciled, Trusted, trusted, skipped_left, found-IsStored,
  IsEligible, IsSaved, save_job-IsSaved, heartbeat_stored-IsHeld, not-false,
}

module _ {env : Environment} {I : World → Type 0} (stable : Stable env I) where
  keep_reconciliation-Leads :
      {P : Store → Type 0} (p : PlanReconciliation)
      → Leads I P (keep_reconciliation env p) (λ u s. p.changed ≡ false → P s)
  unfolding keep_reconciliation
  keep_reconciliation-Leads {P = P} p = record {
    kept = λ w i h. (keep_reconciliation-Keeps stable p).runs w i;
    left = λ w a h e same. skipped_left P p.changed _ w h same;
  }

  ensure_current_remediation_plan-Leads :
      {P : Store → Type 0} (r : Remediation)
      → Leads I P (ensure_current_remediation_plan env r) (Reconciled P r)
  unfolding ensure_current_remediation_plan
  ensure_current_remediation_plan-Leads r = lead (now-Leads stable) (λ t.
      lead_next (keep_reconciliation-Leads (reconcile_plan env.hash r t)) (λ u.
        pure-Leads _ (λ s h.
          (λ same. (h same, unchanged_same env.hash r t same), change_denied env.hash r t))))

  pub trusted_execution_decision-Leads :
      {P : Store → Type 0} (r : Remediation) (host : Host) (job : Option DurableJob)
      → Leads I P (trusted_execution_decision env r host job) (Trusted env P r host job)
  unfolding trusted_execution_decision
  trusted_execution_decision-Leads {P = P} r host job =
      lead (ensure_current_remediation_plan-Leads r) (λ p. lead (gets-Leads _) (λ active.
        pure-Leads _ (λ s h.
          trusted env P r host job active p.changed p.decision p.remediation s h.0.0 h.0.1)))

  pub find_remediation-Leads :
      {P : Store → Type 0} (id : Option String)
      → Leads I P (find_remediation id) (λ r s. P s × (get s.remediations (or_empty id) ≡ some r))
  unfolding find_remediation
  find_remediation-Leads id =
      lead (gets-Leads _)
        (λ found. leads_to (or_raise-Leads found _) (λ r s h. (h.0.0, h.0.1 ∙ h.1)))

  pub find_host-Leads :
      {P : Store → Type 0} (id : String)
      → Leads I P (find_host id) (λ host s. P s × (get s.hosts id ≡ some host))
  unfolding find_host
  find_host-Leads id =
      lead (gets-Leads _)
        (λ found. leads_to (or_raise-Leads found _) (λ host s h. (h.0.0, h.0.1 ∙ h.1)))

  -- The plan and the host that the gate lets run are those of the store.
  require_eligible-Leads :
      (job : DurableJob)
      → Leads I (λ s. Unit {0}) (require_eligible env job) (λ x. IsEligible env job x.0 x.1)
  unfolding require_eligible
  require_eligible-Leads job = lead (find_remediation-Leads job.remediation_id) (λ stored.
      lead (find_host-Leads stored.host_id) (λ host.
        lead (trusted_execution_decision-Leads stored host (some job)) (λ x.
          if-Leads x.0.allowed
            (λ e. pure-Leads _ (λ s h.
              let (found, same, plan, ready, bound) = h e in
              subst (λ (r : Remediation). IsEligible env job r host s) (sym same)
                (
                  found-IsStored s job.remediation_id stored host found.0.1 found.1
                      bound.remediation plan.host_bound,
                  (plan, ready, bound),
                )))
            (λ e. lead (now-Leads stable) (λ t.
              lead_next (Keeps-Leads (save_remediation-Keeps stable _)) (λ u. raise-Leads _))))))

  save_claimed_job-Leads :
      (r : Remediation) (host : Host) (job : DurableJob) (owner : String)
      → JobBound r host job
      → Leads I
          (λ s. IsStored s r host)
          (save_claimed_job env job owner)
          (λ saved s. IsStored s r host × IsSaved s r host saved.id saved)
  unfolding save_claimed_job
  save_claimed_job-Leads r host job owner b =
      lead
        (on_jobs-Leads stable
          {Q = λ answer s.
            IsStored s r host
            × ((saved : DurableJob) → answer ≡ some saved → IsSaved s r host saved.id saved)}
          (λ jobs. save_job jobs job (some owner)) (λ jobs. save_job-Stores jobs job (some owner))
          (λ s h. (
            record { plan = h.plan; host_record = h.host_record },
            λ saved e.
                let (found, bound) = save_job-IsSaved s.jobs r host job owner saved b e in
                (found, refl, bound),
          )))
        (λ answer. leads_to (or_raise-Leads answer _) (λ saved s h. (h.0.0, h.0.1 saved h.1)))

  assert_job_lease-Leads :
      (r : Remediation) (host : Host) (job : DurableJob) (id owner : String)
      → Leads I
          (λ s. IsStored s r host × IsSaved s r host id job)
          (assert_job_lease env id owner)
          (λ u s. IsStored s r host × IsHeld s r host id)
  unfolding assert_job_lease heartbeat_job
  assert_job_lease-Leads r host job id owner = lead (now-Leads stable) (λ t.
      lead
        (on_jobs-Leads stable
          {Q = λ answer s. IsStored s r host × (is_some answer ≡ true → IsHeld s r host id)} _
          (λ jobs. heartbeat_job-Stores jobs id owner t _)
          (λ s h. (
            record { plan = h.0.plan; host_record = h.0.host_record },
            heartbeat_stored-IsHeld s r host job (get s.jobs id) id owner t _ h.1.0 h.1.2 h.1.1,
          )))
        (λ answer.
          leads_to (raise_if-Leads _ _) (λ u s h. (h.0.0, h.0.1 (not-false (is_some answer) h.1)))))

  stopped_left :
      {A : Type 0} (Q : A → Store → Type 0) (job : DurableJob) (x : Result Raised A × World)
      → ((a : A) → x.0 ≡ ok a → Q a x.1.store)
      → (a : A) → (stopped_with job x).0 ≡ ok a
      → Q a (stopped_with job x).1.store
  stopped_left Q job (ok b, w) h a e = h a (ap ok (ok_injective e))
  stopped_left Q job (err x, w) h a e = cc

  holding-Leads :
      {A : Type 0} {P : Store → Type 0} {Q : A → Store → Type 0} {m : Action A} (job : DurableJob)
      → Leads I P m Q
      → Leads I P (holding job m) Q
  unfolding holding
  holding-Leads {Q = Q} {m = m} job p = record {
    kept = λ w i h. stopped_kept stable job (m w) (p.kept w i h);
    left = λ w a h e. stopped_left Q job (m w) (λ b f. p.left w b h f) a e;
  }

  enter_phase-Leads :
      (r : Remediation) (host : Host) (job : DurableJob) (name : String) (percent : ℕ)
      (owner : String)
      → JobBound r host job
      → Leads I
          (λ s. IsStored s r host)
          (enter_phase env job name percent owner)
          (λ entered s. IsStored s r host × IsSaved s r host entered.id entered)
  unfolding enter_phase
  enter_phase-Leads r host job name percent owner b =
      lead (holding-Leads job (now-Leads stable)) (λ t.
        holding-Leads (at_phase job name percent t) (
          save_claimed_job-Leads r host (at_phase job name percent t) owner (record {
            remediation = b.remediation;
            host_id = b.host_id;
            scan = b.scan;
            scope = b.scope;
            version = b.version;
            hash = b.hash;
          })))

  await-Leads :
      {A : Type 0} {P : Store → Type 0} (c : Call) (answer : ℕ → Result Raised A)
      (id owner : String)
      → ((s : Store) → P s → IsGuarded env s c)
      → Leads I P (await env c answer id owner) (λ a s. Unit {0})
  unfolding await
  await-Leads c answer id owner g = lead (call-Leads stable c g) (λ tick.
      lead_next (Keeps-Leads (beats-Keeps stable _ id owner)) (λ u. Keeps-Leads (settle-Keeps _)))

  -- The phase of the change is entered under the lease, and so the executor is called for a plan, a
  -- host and a job as they are stored.
  run_change-Leads :
      (r : Remediation) (host : Host) (job : DurableJob) (owner : String)
      → PlanApproved env.hash r host × SnapshotReady r host × JobBound r host job
      → Leads I (λ s. IsStored s r host) (run_change env job r host owner) (λ a s. Unit {0})
  unfolding run_change
  run_change-Leads r host job owner (plan, ready, bound) =
      lead (enter_phase-Leads r host job "ansible_execution" 30 owner bound) (λ entered.
        lead
          (holding-Leads entered (
            lead_next (assert_job_lease-Leads r host entered entered.id owner) (λ u.
              lead
                (await-Leads (Call.executes host r entered.id) _ _ _
                  (λ s h. record { stored = h.0; plan = plan; ready = ready; held = h.1 }))
                (λ answer.
                  lead_next (Keeps-Leads (assert_job_lease-Keeps stable _ _))
                    (λ v. Keeps-Leads (pure-Keeps answer))))))
          (λ result. Keeps-Leads (pure-Keeps _)))

  pub execute_change-Keeps :
      (job : DurableJob) (owner : String) → Keeps I (execute_change env job owner)
  unfolding execute_change
  execute_change-Keeps job owner = Leads-Keeps (
      lead (holding-Leads job (require_eligible-Leads job))
        (λ x. assuming (run_change-Leads x.0 x.1 job owner)))
