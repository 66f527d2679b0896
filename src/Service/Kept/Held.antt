-- ===== src/Service/Kept/Held.antt =====
-- Plans, hosts and jobs as the store has them, through the operations of a worker that carries out a
-- plan (service.py, repository.py).
use aisys_adm.Prelude.{
  String, Bool, true, false, not, Option, none, some, ◌≡◌, refl, sym, ap, subst, ◌∙◌, arith, eq_iff,
  same_text, same_text_iff, ◌is◌, if◌then◌else◌,
}
use aisys_adm.Models.Words.{JobStatus, job_status_enum}
use aisys_adm.Models.Values.{Datetime, get, is_some}
use aisys_adm.Models.Hosts.{Host}
use aisys_adm.Models.Remediations.{Remediation}
use aisys_adm.Models.Jobs.{DurableJob}
use aisys_adm.Gate.Decision.{GateDecision, deny}
use aisys_adm.Gate.Plan.{PlanPayload}
use aisys_adm.Gate.Transitions.{PlanReconciliation, reconcile_plan}
use aisys_adm.Gate.Execution.{execution_eligibility}
use aisys_adm.Gate.Eligibility.Conditions.{PlanApproved, SnapshotReady, JobBound, AnyJobBound}
use aisys_adm.Gate.Eligibility.Allowed.{execution_allowed}
use aisys_adm.Repository.Store.{get-store}
use aisys_adm.Repository.Jobs.{
  Jobs, store, save_job, save_leased, merge_lease, holds_lease, heartbeat_stored,
}
use aisys_adm.Service.World.{Store, World, Environment, Action, pure}
use aisys_adm.Service.Records.{or_empty}
use aisys_adm.Service.Kept.Rules.{IsStored, IsHeld}

pub change_denied :
    (hash : PlanPayload → String) (r : Remediation) (t : Datetime)
    → (reconcile_plan hash r t).changed ≡ true
    → (reconcile_plan hash r t).decision.allowed ≡ false
unfolding reconcile_plan deny
change_denied hash r t e = ground arith

pub unchanged_same :
    (hash : PlanPayload → String) (r : Remediation) (t : Datetime)
    → (reconcile_plan hash r t).changed ≡ false
    → (reconcile_plan hash r t).remediation ≡ r
unfolding reconcile_plan
unchanged_same hash r t e = ground arith

-- A reconciliation that reports no change has left the store and the plan alone, and one that
-- reports a change denies.
abbrev pub Reconciled : (Store → Type 0) → Remediation → PlanReconciliation → Store → Type 0
Reconciled P r p s =
    (p.changed ≡ false → P s × (p.remediation ≡ r))
    × (p.changed ≡ true → p.decision.allowed ≡ false)

-- What an answer of `trusted_execution_decision` that allows an execution leaves and means.
abbrev pub Trusted :
    Environment
    → (Store → Type 0)
    → Remediation
    → Host
    → Option DurableJob
    → GateDecision × Remediation
    → Store
    → Type 0
Trusted env P r host job (decision, current) s =
    decision.allowed ≡ true
    → P s
      × (current ≡ r)
      × PlanApproved env.hash r host
      × SnapshotReady r host
      × AnyJobBound r host job

pub trusted :
    (env : Environment) (P : Store → Type 0) (r : Remediation) (host : Host)
    (job : Option DurableJob) (active : Bool) (changed : Bool) (d : GateDecision)
    (current : Remediation) (s : Store)
    → (changed ≡ false → P s × (current ≡ r))
    → (changed ≡ true → d.allowed ≡ false)
    → Trusted env P r host job
        (if changed then d else execution_eligibility env.hash current host job active, current)
        s
trusted env P r host job active true d current s h denied e = cc (denied refl)
trusted env P r host job active false d current s h denied e =
    let (p, same) = h refl in
    let (clear, plan, ready, bound) = (execution_allowed env.hash current host job active).0 e in
    (
      p,
      same,
      subst (λ (x : Remediation). PlanApproved env.hash x host) same plan,
      subst (λ (x : Remediation). SnapshotReady x host) same ready,
      subst (λ (x : Remediation). AnyJobBound x host job) same bound,
    )

pub skipped_left :
    (P : Store → Type 0) (c : Bool) (m : Action (Unit {0})) (w : World)
    → P w.store
    → c ≡ false
    → P ((if not c then pure tt else m) w).1.store
unfolding pure
skipped_left P true m w h e = cc
skipped_left P false m w h e = h

pub or_empty-some : (key : Option String) (id : String) → key ≡ some id → or_empty key ≡ id
or_empty-some none id e = cc
or_empty-some (some s) id e = ground (arith, eq_iff s "")

bound_either :
    (r : Remediation) (host : Host) (c : Bool) (x y : DurableJob)
    → JobBound r host x
    → JobBound r host y
    → JobBound r host (if c then x else y)
bound_either r host true x y p q = p
bound_either r host false x y p q = q

pub found-IsStored :
    (s : Store) (id : Option String) (r : Remediation) (host : Host)
    → get s.remediations (or_empty id) ≡ some r
    → get s.hosts r.host_id ≡ some host
    → id ≡ some r.id
    → r.host_id ≡ host.id
    → IsStored s r host
found-IsStored s id r host found there named same = record {
  plan = subst (λ key. get s.remediations key ≡ some r) (or_empty-some id r.id named) found;
  host_record = subst (λ key. get s.hosts key ≡ some host) same there;
}

-- The plan and its host are in the store, and the gate allows the job to carry the plan out.
abbrev pub IsEligible : Environment → DurableJob → Remediation → Host → Store → Type 0
IsEligible env job r host = λ s.
    IsStored s r host × (PlanApproved env.hash r host × SnapshotReady r host × JobBound r host job)

-- The job is in the store under its identifier and bound to the plan.
abbrev pub IsSaved : Store → Remediation → Host → String → DurableJob → Type 0
IsSaved s r host id job = (get s.jobs id ≡ some job) × (job.id ≡ id) × JobBound r host job

merge_lease-JobBound :
    (r : Remediation) (host : Host) (job current : DurableJob)
    → JobBound r host job
    → JobBound r host (merge_lease job current)
unfolding merge_lease
merge_lease-JobBound r host job current b =
    bound_either r host (job.status is JobStatus.running) _ job
      (record {
        remediation = b.remediation;
        host_id = b.host_id;
        scan = b.scan;
        scope = b.scope;
        version = b.version;
        hash = b.hash;
      })
      b

kept_stored :
    (jobs : Jobs) (r : Remediation) (host : Host) (merged saved : DurableJob) (refused : Bool)
    → JobBound r host merged
    → let done : Option DurableJob × Jobs =
        if refused then (none, jobs) else (some merged, store jobs merged) in
      done.0 ≡ some saved → (get done.1 saved.id ≡ some saved) × JobBound r host saved
kept_stored jobs r host merged saved true b e = cc
kept_stored jobs r host merged saved false b e =
    let same : merged ≡ saved = cc in
    (
      get-store jobs merged saved.id (ap (λ (j : DurableJob). j.id) same) ∙ e,
      subst (JobBound r host) same b,
    )

save_leased-IsSaved :
    (jobs : Jobs) (r : Remediation) (host : Host) (job : DurableJob) (owner : String)
    (stored : Option DurableJob) (saved : DurableJob)
    → JobBound r host job
    → (save_leased jobs job owner stored).0 ≡ some saved
    → (get (save_leased jobs job owner stored).1 saved.id ≡ some saved) × JobBound r host saved
unfolding save_leased
save_leased-IsSaved jobs r host job owner none saved b e = cc
save_leased-IsSaved jobs r host job owner (some current) saved b e =
    kept_stored jobs r host (merge_lease job current) saved
      (not (holds_lease current owner job.updated_at)) (merge_lease-JobBound r host job current b) e

pub save_job-IsSaved :
    (jobs : Jobs) (r : Remediation) (host : Host) (job : DurableJob) (owner : String)
    (saved : DurableJob)
    → JobBound r host job
    → (save_job jobs job (some owner)).0 ≡ some saved
    → (get (save_job jobs job (some owner)).1 saved.id ≡ some saved) × JobBound r host saved
unfolding save_job
save_job-IsSaved jobs r host job owner saved b e =
    save_leased-IsSaved jobs r host job owner (get jobs job.id) saved b e

holds_lease_lem :
    (job : DurableJob) (owner : String) (t : Datetime)
    → holds_lease job owner t ≡ true
    → (job.status ≡ JobStatus.running) × (job.lease_owner ≡ some owner)
unfolding holds_lease same_text
holds_lease_lem job owner t h = ground (arith, same_text_iff job.lease_owner (some owner))

-- A heartbeat that is answered leaves the job held by its worker.
beaten-IsHeld :
    (s : Store) (r : Remediation) (host : Host) (stored : DurableJob) (id owner : String)
    (t u : Datetime) (held : Bool)
    → held ≡ holds_lease stored owner t
    → JobBound r host stored
    → stored.id ≡ id
    → let job = record stored {
      heartbeat_at = some t;
      lease_expires_at = some u;
      updated_at = t;
    } in
      let done : Option DurableJob × Jobs =
        if not held then (none, s.jobs) else (some job, store s.jobs job) in
      is_some done.0 ≡ true → IsHeld (record s { jobs = done.1 }) r host id
beaten-IsHeld s r host stored id owner t u false h b named e = cc
beaten-IsHeld s r host stored id owner t u true h b named e =
    let (running, leased) = holds_lease_lem stored owner t (sym h) in
    record {
      job = record stored { heartbeat_at = some t; lease_expires_at = some u; updated_at = t };
      stored = get-store s.jobs _ id named;
      running = running;
      worker = owner;
      leased = leased;
      bound = record {
        remediation = b.remediation;
        host_id = b.host_id;
        scan = b.scan;
        scope = b.scope;
        version = b.version;
        hash = b.hash;
      };
    }

pub heartbeat_stored-IsHeld :
    (s : Store) (r : Remediation) (host : Host) (job : DurableJob) (found : Option DurableJob)
    (id owner : String) (t u : Datetime)
    → found ≡ some job
    → JobBound r host job
    → job.id ≡ id
    → is_some (heartbeat_stored s.jobs found owner t u).0 ≡ true
    → IsHeld (record s { jobs = (heartbeat_stored s.jobs found owner t u).1 }) r host id
unfolding heartbeat_stored
heartbeat_stored-IsHeld s r host job none id owner t u f b named e = cc
heartbeat_stored-IsHeld s r host job (some stored) id owner t u f b named e =
    let same : job ≡ stored = cc in
    beaten-IsHeld s r host stored id owner t u (holds_lease stored owner t) refl
      (subst (JobBound r host) same b) (subst (λ (j : DurableJob). j.id ≡ id) same named) e

pub not-false : (b : Bool) → not b ≡ false → b ≡ true
not-false true h = refl
not-false false h = cc
