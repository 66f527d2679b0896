-- ===== src/Service/Kept/Leads.antt =====
-- What the store is like after an action of the service, from what it was like before (service.py):
-- a rule for each way to put actions together.
use aisys_adm.Prelude.{
  String, Bool, true, false, Option, none, some, ◌≡◌, refl, subst, if◌then◌else◌,
}
use aisys_adm.Models.Values.{Dict, JsonDict}
use aisys_adm.Models.Records.{AuditEvent}
use aisys_adm.Repository.Jobs.{Jobs}
use aisys_adm.Service.World.{
  Store, World, Environment, Call, ActionOr, Result, ok, err, pure, raise, raise_if, gets, modify,
  or_raise, after, ◌>>=◌, ◌>>◌,
}
use aisys_adm.Service.Records.{now, fresh, audit, save_audit, on_jobs, call}
use aisys_adm.Service.Kept.Rules.{Writes, Stable, Keeps, IsGuarded, ok_injective}
use aisys_adm.Service.Kept.Jobs.{Stores, on_jobs-Keeps}

-- From a store as `P` says the action keeps the invariant, and where it answers it leaves a store as
-- `Q` says of the answer.
pub record Leads (I : World → Type 0) (P : Store → Type 0) {E A : Type 0} (m : ActionOr E A)
    (Q : A → Store → Type 0) : Type 0 where
  pub kept : (w : World) → I w → P w.store → I (m w).1
  pub left : (w : World) (a : A) → P w.store → (m w).0 ≡ ok a → Q a (m w).1.store

module _ {I : World → Type 0} {E : Type 0} where
  after_kept :
      {A B : Type 0} {Q : A → Store → Type 0} {R : B → Store → Type 0} (x : Result E A × World)
      (f : A → ActionOr E B)
      → I x.1
      → ((a : A) → x.0 ≡ ok a → Q a x.1.store)
      → ((a : A) → Leads I (Q a) (f a) R)
      → I (after x f).1
  after_kept (ok a, w) f i h k = (k a).kept w i (h a refl)
  after_kept (err e, w) f i h k = i

  after_left :
      {A B : Type 0} {Q : A → Store → Type 0} {R : B → Store → Type 0} (x : Result E A × World)
      (f : A → ActionOr E B)
      → ((a : A) → x.0 ≡ ok a → Q a x.1.store)
      → ((a : A) → Leads I (Q a) (f a) R)
      → (b : B) → (after x f).0 ≡ ok b
      → R b (after x f).1.store
  after_left (ok a, w) f h k b e = (k a).left w b (h a refl) e
  after_left (err x, w) f h k b e = cc

  pub lead :
      {A B : Type 0} {P : Store → Type 0} {Q : A → Store → Type 0} {R : B → Store → Type 0}
      {m : ActionOr E A} {f : A → ActionOr E B}
      → Leads I P m Q
      → ((a : A) → Leads I (Q a) (f a) R)
      → Leads I P (m >>= f) R
  unfolding ◌>>=◌
  lead {m = m} {f = f} p q = record {
    kept = λ w i h. after_kept (m w) f (p.kept w i h) (λ a e. p.left w a h e) q;
    left = λ w b h e. after_left (m w) f (λ a r. p.left w a h r) q b e;
  }

  pub lead_next :
      {A B : Type 0} {P : Store → Type 0} {Q : A → Store → Type 0} {R : B → Store → Type 0}
      {m : ActionOr E A} {k : ActionOr E B}
      → Leads I P m Q
      → ((a : A) → Leads I (Q a) k R)
      → Leads I P (m >> k) R
  unfolding ◌>>◌
  lead_next p q = lead p q

  pub leads_to :
      {A : Type 0} {P : Store → Type 0} {Q R : A → Store → Type 0} {m : ActionOr E A}
      → Leads I P m Q
      → ((a : A) (s : Store) → Q a s → R a s)
      → Leads I P m R
  leads_to p h = record { kept = p.kept; left = λ w a g e. h a _ (p.left w a g e) }

  -- What is known of the store whatever it holds is known to the rest.
  pub assuming :
      {A F : Type 0} {P : Store → Type 0} {Q : A → Store → Type 0} {m : ActionOr E A}
      → (F → Leads I P m Q)
      → Leads I (λ s. P s × F) m Q
  assuming k = record {
    kept = λ w i h. (k h.1).kept w i h.0;
    left = λ w a h e. (k h.1).left w a h.0 e;
  }

  pub Keeps-Leads :
      {A : Type 0} {P : Store → Type 0} {m : ActionOr E A}
      → Keeps I m
      → Leads I P m (λ a s. Unit {0})
  Keeps-Leads p = record { kept = λ w i h. p.runs w i; left = λ w a h e. tt }

  pub Leads-Keeps :
      {A : Type 0} {Q : A → Store → Type 0} {m : ActionOr E A}
      → Leads I (λ s. Unit {0}) m Q
      → Keeps I m
  Leads-Keeps p = record { runs = λ w i. p.kept w i tt }

  pub pure-Leads :
      {A : Type 0} {P : Store → Type 0} {Q : A → Store → Type 0} (a : A)
      → ((s : Store) → P s → Q a s)
      → Leads I P {E = E} (pure a) Q
  unfolding pure
  pure-Leads {Q = Q} a h = record {
    kept = λ w i g. i;
    left = λ w b g e. subst (λ c. Q c w.store) (ok_injective e) (h w.store g);
  }

  pub raise-Leads :
      {A : Type 0} {P : Store → Type 0} {Q : A → Store → Type 0} (e : E)
      → Leads I P {A = A} (raise e) Q
  unfolding raise
  raise-Leads e = record { kept = λ w i g. i; left = λ w b g h. cc }

  pub gets-Leads :
      {A : Type 0} {P : Store → Type 0} (f : Store → A)
      → Leads I P {E = E} (gets f) (λ a s. P s × (f s ≡ a))
  unfolding gets
  gets-Leads f = record { kept = λ w i g. i; left = λ w a g e. (g, ok_injective e) }

  pub or_raise-Leads :
      {A : Type 0} {P : Store → Type 0} (a : Option A) (e : E)
      → Leads I P (or_raise a e) (λ x s. P s × (a ≡ some x))
  unfolding or_raise
  or_raise-Leads none e = raise-Leads e
  or_raise-Leads (some x) e = pure-Leads x (λ s h. (h, refl))

  pub raise_if-Leads :
      {P : Store → Type 0} (c : Bool) (e : E) → Leads I P (raise_if c e) (λ u s. P s × (c ≡ false))
  unfolding raise_if
  raise_if-Leads true e = record { kept = λ w i g. i; left = λ w a g h. cc }
  raise_if-Leads false e = record { kept = λ w i g. i; left = λ w a g h. (g, refl) }

  pub if-Leads :
      {A : Type 0} {P : Store → Type 0} {Q : A → Store → Type 0} {m k : ActionOr E A} (c : Bool)
      → (c ≡ true → Leads I P m Q)
      → (c ≡ false → Leads I P k Q)
      → Leads I P (if c then m else k) Q
  if-Leads true p q = p refl
  if-Leads false p q = q refl

module _ {env : Environment} {I : World → Type 0} (stable : Stable env I) where
  pub now-Leads : {P : Store → Type 0} → Leads I P (now env) (λ t. P)
  unfolding now
  now-Leads = record { kept = λ w i g. stable.drawn w _ i; left = λ w a g e. g }

  pub on_jobs-Leads :
      {A : Type 0} {P : Store → Type 0} {Q : A → Store → Type 0} (f : Jobs → A × Jobs)
      → ((jobs : Jobs) → Stores jobs (f jobs).1)
      → ((s : Store) → P s → Q (f s.jobs).0 (record s { jobs = (f s.jobs).1 }))
      → Leads I P (on_jobs f) Q
  unfolding on_jobs
  on_jobs-Leads {Q = Q} f stores h = record {
    kept = λ w i g. (on_jobs-Keeps stable f stores).runs w i;
    left = λ w a g e.
        subst (λ b. Q b (record w.store { jobs = (f w.store.jobs).1 })) (ok_injective e)
          (h w.store g);
  }

  pub call-Leads :
      {P : Store → Type 0} (c : Call)
      → ((s : Store) → P s → IsGuarded env s c)
      → Leads I P (call c) (λ tick s. Unit {0})
  unfolding call
  call-Leads c g = record {
    kept = λ w i h. stable.called w c (g w.store h) i;
    left = λ w a h e. tt;
  }

  pub fresh-Leads : {P : Store → Type 0} (prefix : String) → Leads I P (fresh env prefix) (λ id. P)
  unfolding fresh
  fresh-Leads prefix = record { kept = λ w i g. stable.drawn w _ i; left = λ w a g e. g }

  pub modify-Leads :
      {E : Type 0} {P Q : Store → Type 0} (f : Store → Store)
      → ((s : Store) → Writes s (f s))
      → ((s : Store) → P s → Q (f s))
      → Leads I P {E = E} (modify f) (λ u. Q)
  unfolding modify
  modify-Leads f writes h = record {
    kept = λ w i g. stable.written w (f w.store) (writes w.store) i;
    left = λ w a g e. h w.store g;
  }

  -- An entry of the audit trail leaves what does not speak of the audit trail.
  pub audit-Leads :
      {P : Store → Type 0} (actor action target : String) (id : Option String) (details : JsonDict)
      → ((s : Store) (audits : Dict AuditEvent) → P s → P (record s { audits = audits }))
      → Leads I P (audit env actor action target id details) (λ u. P)
  unfolding audit save_audit
  audit-Leads actor action target id details h = lead (fresh-Leads _) (λ audit_id.
      lead now-Leads (λ t. modify-Leads _ (λ s. Writes.audit_event _) (λ s p. h s _ p)))
