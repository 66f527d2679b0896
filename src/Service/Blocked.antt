-- ===== src/Service/Blocked.antt =====
-- A host whose rollback was needed takes no further change until somebody has acknowledged the alert
-- (`_finish_snapshot_protected_execution` and `_trusted_execution_decision` of service.py).
use aisys_adm.Prelude.{
  ◌+◌, subst, String, Bool, true, false, not, Option, some, eq_iff, ◌∙◌, [], ◌∷◌, ◌≡◌, refl, any,
  if◌then◌else◌, same_text, same_text_iff, arith,
}
use text.Mathlib.Text.{find?}
use aisys_adm.Models.Enums.{severity_enum}
use aisys_adm.Repository.Store.{get-put}
use aisys_adm.Models.Values.{Datetime, Dict, get, put, is_some}
use aisys_adm.Models.Hosts.{Host}
use aisys_adm.Models.Snapshots.{RollbackSnapshot}
use aisys_adm.Models.Remediations.{Remediation, ExecutionResult}
use aisys_adm.Models.Jobs.{DurableJob}
use aisys_adm.Models.Records.{SnapshotOperationResult}
use aisys_adm.Gate.Plan.{PlanPayload}
use aisys_adm.Service.Kept.Rules.{ok_injective}
use aisys_adm.Gate.Decision.{GateDecision, deny}
use aisys_adm.Gate.Execution.{execution_eligibility}
use aisys_adm.Gate.Transitions.{reconcile_plan}
use aisys_adm.Service.World.{
  Store, World, Environment, Raised, Action, Result, ok, err, pure, after, ◌>>=◌, ◌>>◌, gets,
  modify,
}
use aisys_adm.Service.Records.{
  dict_values, now, fresh, redact, create_alert, save_alert, save_rollback_snapshot,
  is_rollback_failure, host_has_active_rollback_failure,
}
use aisys_adm.Service.Plans.{
  keep_reconciliation, ensure_current_remediation_plan, trusted_execution_decision,
}
use aisys_adm.Service.Protection.{rolled_back, rollback_alert_title}

any-get :
    {V : Type 0} (p : V → Bool) (d : Dict V) (key : String) (x : V)
    → get d key ≡ some x
    → p x ≡ true
    → any p (dict_values d) ≡ true
any-get p [] key x e h = cc
any-get p ((k, v) ∷ d) key x e h = ground (arith, any-get p d key x, eq_iff k key)

put-found : {V : Type 0} (d : Dict V) (key : String) (x : V) → get (put d key x) key ≡ some x
put-found d key x = ground (arith, get-put d key x key, eq_iff key key)

-- The identifier of the alert that a rollback opens, the second one drawn.
abbrev alert_id : Environment → World → String
alert_id env w = env.new_id "alert" (w.ticks + 1)

-- Where the entry of the alert is as the rollback has left it, the host has a rollback failure.
rollback-IsOpen :
    (env : Environment) (job : DurableJob) (host : Host) (snapshot : RollbackSnapshot)
    (result : ExecutionResult) (rollback : SnapshotOperationResult) (w : World) (s : Store)
    → is_some (find? (env.lower (rollback_alert_title env rollback.success)) "rollback") ≡ true
    → get s.alerts (alert_id env w)
      ≡ get (rolled_back env job host snapshot result rollback w).1.store.alerts (alert_id env w)
    → host_has_active_rollback_failure env s host.id ≡ true
unfolding rolled_back create_alert now fresh redact save_alert save_rollback_snapshot
    host_has_active_rollback_failure is_rollback_failure ◌>>=◌ ◌>>◌ gets modify pure same_text
rollback-IsOpen env job host snapshot result rollback w s h kept =
    any-get (is_rollback_failure env host.id) s.alerts (alert_id env w) _
      (kept ∙ put-found w.store.alerts (alert_id env w) _)
      (ground (arith, same_text_iff (some host.id) (some host.id)))

change_denied :
    (hash : PlanPayload → String) (r : Remediation) (t : Datetime)
    → (reconcile_plan hash r t).changed ≡ true
    → (reconcile_plan hash r t).decision.allowed ≡ false
unfolding reconcile_plan deny
change_denied hash r t e = ground arith

active_denied :
    (hash : PlanPayload → String) (r : Remediation) (host : Host) (job : Option DurableJob)
    (active : Bool)
    → active ≡ true
    → (execution_eligibility hash r host job active).allowed ≡ false
unfolding execution_eligibility deny
active_denied hash r host job true h = refl
active_denied hash r host job false h = cc

pick_denied :
    (c : Bool) (d eligibility : GateDecision)
    → (c ≡ true → d.allowed ≡ false)
    → (c ≡ false → eligibility.allowed ≡ false)
    → (if c then d else eligibility).allowed ≡ false
pick_denied true d eligibility h k = h refl
pick_denied false d eligibility h k = k refl

-- What the rest of a method answers after a step that is skipped or not, from what it answers in
-- any world.
after_any :
    {A B C : Type 0} (P : B → Type 0) (y : Result Raised A × World) (q : C) (f : C → Action B)
    (x : B)
    → ((v : World) → (f q v).0 ≡ ok x → P x)
    → (after (after y (λ u. pure q)) f).0 ≡ ok x
    → P x
unfolding pure
after_any P (ok a, v) q f x h e = h v e
after_any P (err z, v) q f x h e = cc

after_maybe :
    {B C : Type 0} (P : B → Type 0) (c : Bool) (m : Action (Unit {0})) (w : World) (q : C)
    (f : C → Action B) (x : B)
    → (c ≡ false → (f q w).0 ≡ ok x → P x)
    → (c ≡ true → (v : World) → (f q v).0 ≡ ok x → P x)
    → (after (after ((if not c then pure tt else m) w) (λ u. pure q)) f).0 ≡ ok x
    → P x
unfolding pure
after_maybe P true m w q f x h k e = after_any P (m w) q f x (k refl) e
after_maybe P false m w q f x h k e = h refl e

open_denied :
    (env : Environment) (r : Remediation) (host : Host) (job : Option DurableJob) (w : World)
    (x : GateDecision × Remediation)
    → host_has_active_rollback_failure env w.store host.id ≡ true
    → (trusted_execution_decision env r host job w).0 ≡ ok x
    → x.0.allowed ≡ false
unfolding trusted_execution_decision ensure_current_remediation_plan keep_reconciliation now ◌>>=◌
    ◌>>◌ gets pure
open_denied env r host job w x h e =
    let t = env.utc_now w.ticks in
    let p = reconcile_plan env.hash r t in
    after_maybe (λ (x : GateDecision × Remediation). x.0.allowed ≡ false) p.changed _
      (record w { ticks = w.ticks + 1 }) p _ x
      (λ same f.
        subst (λ (x : GateDecision × Remediation). x.0.allowed ≡ false) (ok_injective f)
          (pick_denied p.changed p.decision _ (change_denied env.hash r t)
            (λ u. active_denied env.hash p.remediation host job _ h)))
      (λ changed v f.
        subst (λ (x : GateDecision × Remediation). x.0.allowed ≡ false) (ok_injective f)
          (pick_denied p.changed p.decision _ (change_denied env.hash r t) (λ u. cc)))
      e

-- After a rollback, whether it succeeded or failed, no plan is allowed to run on the host, with any
-- job or none, in any later world in which the entry of the alert that the rollback opened is as the
-- rollback left it, where the title of the alert has "rollback" in it in lower case.
pub rollback_blocks_host :
    (env : Environment) (job : DurableJob) (host : Host) (snapshot : RollbackSnapshot)
    (result : ExecutionResult) (rollback : SnapshotOperationResult) (w later : World)
    (r : Remediation) (next : Option DurableJob) (x : GateDecision × Remediation)
    → is_some (find? (env.lower (rollback_alert_title env rollback.success)) "rollback") ≡ true
    → get later.store.alerts (env.new_id "alert" (w.ticks + 1))
      ≡ get
          (rolled_back env job host snapshot result rollback w).1.store.alerts
          (env.new_id "alert" (w.ticks + 1))
    → (trusted_execution_decision env r host next later).0 ≡ ok x
    → x.0.allowed ≡ false
rollback_blocks_host env job host snapshot result rollback w later r next x h kept e =
    open_denied env r host next later x
      (rollback-IsOpen env job host snapshot result rollback w later.store h kept) e
