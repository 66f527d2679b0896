-- ===== src/Service/Prepared.antt =====
-- The jobs of plans, as the service makes them and as they are after a failure
-- (`prepare_remediation_job` and `fail_job` of service.py).
use aisys_adm.Prelude.{
  ◌<◌, ◌≤◌, ◌⊎◌, String, Bool, true, false, not, Option, none, some, ◌≡◌, ◌↔◌, refl, sym, subst,
  arith, eq_iff, clip,
}
use aisys_adm.Models.Words.{JobStatus, job_status_enum, FailureCategory, ExecutionState}
use aisys_adm.Models.Values.{Datetime, Dict, get, put}
use aisys_adm.Models.Hosts.{Host}
use aisys_adm.Models.Remediations.{Remediation}
use aisys_adm.Models.Jobs.{DurableJob}
use aisys_adm.Gate.Decision.{GateDecision}
use aisys_adm.Gate.Timing.{TimingDecision}
use aisys_adm.Gate.Eligibility.Conditions.{PlanApproved, SnapshotReady, JobBound}
use aisys_adm.Repository.Store.{get-put, get-store}
use aisys_adm.Repository.Jobs.{save_job}
use aisys_adm.Service.World.{Store, World, Environment, ok}
use aisys_adm.Service.Records.{raise_gate_denial, save_remediation}
use aisys_adm.Service.Failures.{failed_job}
use aisys_adm.Service.Approvals.{
  remediation_job, queue_remediation, job_of_plan, prepare_in_transaction,
}
use aisys_adm.Service.Kept.Served.{Anything, anything, HasKeys}
use aisys_adm.Service.Kept.Rules.{Writes}
use aisys_adm.Service.Kept.Jobs.{save_job-Stores}
use aisys_adm.Service.Kept.Held.{or_empty-some}
use aisys_adm.Service.Kept.Leads.{
  Leads, lead, lead_next, leads_to, assuming, pure-Leads, gets-Leads, or_raise-Leads,
  raise_if-Leads, now-Leads, fresh-Leads, modify-Leads, on_jobs-Leads, audit-Leads,
}
use aisys_adm.Service.Kept.Guarded.{
  find_remediation-Leads, find_host-Leads, trusted_execution_decision-Leads,
}

-- The store has the job that was made for the plan `id` and the host of the plan. The job is bound to
-- the plan, which is approved with its snapshot protection ready; in the store the plan differs in its
-- execution state at most.
pub record IsPrepared (env : Environment) (id : String) (s : Store) (job : DurableJob)
    : Type 0 where
  pub r : Remediation
  pub host : Host
  pub named : r.id ≡ id
  pub state : ExecutionState
  pub job_stored : get s.jobs job.id ≡ some job
  pub plan_stored : get s.remediations id ≡ some (record r { execution_state = state })
  pub host_stored : get s.hosts r.host_id ≡ some host
  pub plan : PlanApproved env.hash r host
  pub ready : SnapshotReady r host
  pub bound : JobBound r host job

abbrev NewIsPrepared : Environment → String → DurableJob × Bool → Store → Type 0
NewIsPrepared env id (job, created) s = created ≡ true → IsPrepared env id s job

abbrev PlanKeys : Store → Type 0
PlanKeys s = HasKeys (λ (r : Remediation). r.id) s.remediations

abbrev IsCleared : Environment → String → Host → Remediation → Store → Type 0
IsCleared env id host r = λ s.
    (get s.hosts r.host_id ≡ some host)
    × ((r.id ≡ id) × PlanApproved env.hash r host × SnapshotReady r host)

remediation_job-JobBound :
    (id : String) (r : Remediation) (host : Host) (campaign : Option String) (status : JobStatus)
    (t : Datetime)
    → JobBound r host (remediation_job id r host campaign status t)
remediation_job-JobBound id r host campaign status t = record {
  remediation = refl;
  host_id = refl;
  scan = refl;
  scope = refl;
  version = refl;
  hash = refl;
}

not-false : (b : Bool) → not b ≡ false → b ≡ true
not-false true h = refl
not-false false h = cc

found-put :
    (d : Dict Remediation) (r : Remediation) (id : String)
    → r.id ≡ id
    → get (put d r.id r) id ≡ some r
found-put d r id h = ground (arith, get-put d r.id r id, eq_iff r.id id)

module _ (env : Environment) where
  queue_remediation-Leads :
      (id : String) (r : Remediation) (host : Host) (actor : String) (campaign : Option String)
      (t : Datetime) (d : TimingDecision)
      → r.id ≡ id
      → PlanApproved env.hash r host
      → SnapshotReady r host
      → Leads Anything
          (λ s. get s.hosts r.host_id ≡ some host)
          (queue_remediation env r host actor campaign t d)
          (λ job s. IsPrepared env id s job)
  unfolding queue_remediation save_remediation save_job
  queue_remediation-Leads id r host actor campaign t d named plan ready =
      lead (fresh-Leads (anything env) "job") (λ job_id.
        lead_next
          (modify-Leads (anything env)
            {Q = λ s.
              (get s.hosts r.host_id ≡ some host)
              × (get s.remediations id ≡ some (record r { execution_state = d.remediation_state }))}
            _ (λ s. Writes.remediation _) (λ s h. (h, found-put s.remediations _ id named)))
          (λ u.
            lead_next
              (on_jobs-Leads (anything env)
                {Q = λ saved s.
                  IsPrepared env id s (remediation_job job_id r host campaign d.job_status t)}
                _ (λ jobs. save_job-Stores jobs _ none)
                (λ s h. record {
                  r = r;
                  host = host;
                  named = named;
                  state = d.remediation_state;
                  job_stored = get-store s.jobs _ job_id refl;
                  plan_stored = h.1;
                  host_stored = h.0;
                  plan = plan;
                  ready = ready;
                  bound = remediation_job-JobBound job_id r host campaign d.job_status t;
                }))
              (λ saved.
                lead_next
                  (audit-Leads (anything env) _ _ _ _ _ (λ s audits x. record {
                    r = x.r;
                    host = x.host;
                    named = x.named;
                    state = x.state;
                    job_stored = x.job_stored;
                    plan_stored = x.plan_stored;
                    host_stored = x.host_stored;
                    plan = x.plan;
                    ready = x.ready;
                    bound = x.bound;
                  }))
                  (λ v. pure-Leads _ (λ s x. x)))))

  job_of_plan-Leads :
      (id : String) (existing : Option DurableJob) (r : Remediation) (host : Host) (actor : String)
      (campaign : Option String) (t : Datetime)
      → r.id ≡ id
      → PlanApproved env.hash r host
      → SnapshotReady r host
      → Leads Anything
          (λ s. get s.hosts r.host_id ≡ some host)
          (job_of_plan env existing r host actor campaign t)
          (NewIsPrepared env id)
  unfolding job_of_plan raise_gate_denial
  job_of_plan-Leads id none r host actor campaign t named plan ready =
      lead (leads_to (or_raise-Leads _ _) (λ d s h. h.0)) (λ d.
        lead (queue_remediation-Leads id r host actor campaign t d named plan ready)
          (λ job. pure-Leads _ (λ s x e. x)))
  job_of_plan-Leads id (some job) r host actor campaign t named plan ready =
      lead_next (raise_if-Leads _ _) (λ u. pure-Leads _ (λ s h e. cc))

  allowed_denial-Leads :
      {P : Store → Type 0} (d : GateDecision)
      → Leads Anything P (raise_gate_denial d) (λ u s. P s × (d.allowed ≡ true))
  unfolding raise_gate_denial
  allowed_denial-Leads d =
      leads_to (raise_if-Leads (not d.allowed) _) (λ u s h. (h.0, not-false d.allowed h.1))

  prepare_in_transaction-Leads :
      (id actor : String) (campaign : Option String)
      → Leads Anything PlanKeys
          (prepare_in_transaction env id actor campaign)
          (NewIsPrepared env id)
  unfolding prepare_in_transaction
  prepare_in_transaction-Leads id actor campaign =
      lead (find_remediation-Leads (anything env) (some id)) (λ stored.
        lead (find_host-Leads (anything env) stored.host_id) (λ host.
          lead (trusted_execution_decision-Leads (anything env) stored host none) (λ x.
            lead_next
              (leads_to (allowed_denial-Leads x.0) (λ u s h.
                let (found, same, plan, ready, none_bound) = h.0 h.1 in
                subst (λ r. IsCleared env id host r s) (sym same)
                  (
                    found.1,
                    (
                      found.0.0 id stored (
                          subst (λ key. get s.remediations key ≡ some stored)
                            (or_empty-some (some id) id refl) found.0.1),
                      plan,
                      ready,
                    ),
                  )))
              (λ u. assuming (λ cleared. lead (now-Leads (anything env)) (λ t.
                lead (leads_to (gets-Leads _) (λ a s h. h.0)) (λ existing.
                  job_of_plan-Leads id existing x.1 host actor campaign t cleared.0 cleared.1
                    cleared.2)))))))

  -- Where the plans are stored under their own identifiers, a job that the preparation of a plan
  -- newly makes is stored and bound to the stored plan of that identifier, which is approved, has its
  -- snapshot protection ready and is of the stored host that the job names.
  pub new_job-IsPrepared :
      (id actor : String) (campaign : Option String) (w : World) (job : DurableJob)
      → HasKeys (λ (r : Remediation). r.id) w.store.remediations
      → (prepare_in_transaction env id actor campaign w).0 ≡ ok (job, true)
      → IsPrepared env id (prepare_in_transaction env id actor campaign w).1.store job
  new_job-IsPrepared id actor campaign w job keys e =
      (prepare_in_transaction-Leads id actor campaign).left w (job, true) keys e refl

-- A failure with a retry left leaves the job queued with no error, and one without leaves it failed
-- with the error, cut to 2000 characters. The job is queued exactly when the failure is retryable and
-- its attempts are below the maximum, and failed exactly when it is not retryable or the attempts are
-- used up; either way its lease is gone and its attempts stay.
pub failed_job_lem :
    (env : Environment) (job : DurableJob) (error : String) (retryable : Bool)
    (category : FailureCategory) (t : Datetime)
    → let failed = failed_job env job error retryable category t in
      (failed.status ≡ JobStatus.queued ↔ (retryable ≡ true) × (job.attempts < job.max_attempts))
      × (failed.status ≡ JobStatus.failed ↔ (retryable ≡ false) ⊎ (job.max_attempts ≤ job.attempts))
      × (failed.status ≡ JobStatus.queued ↔ failed.error ≡ none)
      × (failed.status ≡ JobStatus.failed ↔ failed.error ≡ some (clip 2000 error))
      × (failed.lease_owner ≡ none)
      × (failed.lease_expires_at ≡ none)
      × (failed.attempts ≡ job.attempts)
unfolding failed_job
failed_job_lem env job error retryable category t = ground arith
