-- ===== src/Gate/Batch/Selected.antt =====
-- Which hosts the loop of `campaign_batch` chooses (trusted_change.py).
use mathlib.Core.List.{Memᴰ}
use aisys_adm.Prelude.{
  ℕ, zero, suc, String, ◌≡◌, refl, subst, ◌⊎◌, inl, inr, true, Option, none, some, List, [], ◌∷◌,
  arith, Bool-cases, take, ◌is◌,
}
use aisys_adm.Models.Enums.{CampaignHostState, campaign_host_state_enum}
use aisys_adm.Models.Values.{Dict, get?}
use aisys_adm.Models.Remediations.{Remediation}
use aisys_adm.Models.Campaigns.{CampaignHostPlan, PatchCampaign}
use aisys_adm.Gate.Decision.{allow}
use aisys_adm.Gate.Plan.{PlanPayload}
use aisys_adm.Gate.Campaign.{
  Selection, campaign_plan_binding, select_host, select_hosts, batch_limit, campaign_batch,
}

mem-take {ℓ} : {A : Type ℓ} (n : ℕ) (xs : List A) {x : A} → Memᴰ x (take n xs) → Memᴰ x xs
mem-take zero xs m = elim m [ ]
mem-take (suc n) [] m = m
mem-take (suc n) (y ∷ ys) (Memᴰ.head e) = Memᴰ.head e
mem-take (suc n) (y ∷ ys) (Memᴰ.tail m) = Memᴰ.tail (mem-take n ys m)

mem-cons_cases {ℓ} : {A : Type ℓ} {a x : A} {xs : List A} → Memᴰ a (x ∷ xs) → (a ≡ x) ⊎ Memᴰ a xs
mem-cons_cases (Memᴰ.head e) = inl e
mem-cons_cases (Memᴰ.tail m) = inr m

module _ (hash : PlanPayload → String) where
  -- The loop picks the host: its plan is approved and bound to its remediation.
  pub record Selectable (remediations : Dict Remediation) (plan : CampaignHostPlan)
      (r : Remediation) : Type 0 where
    pub state : plan.state ≡ CampaignHostState.approved
    pub found : get? remediations plan.remediation_id ≡ some r
    pub bound : (campaign_plan_binding hash plan r).allowed ≡ true

  -- One round either leaves the approved hosts alone or puts a selectable host in front.
  round_cases :
      (plan : CampaignHostPlan) (o : Option Remediation) (rest : Selection)
      → ((select_host hash plan o rest).approved ≡ rest.approved)
        ⊎ ((r : Remediation) × (o ≡ some r)
            × (plan.state ≡ CampaignHostState.approved)
            × ((campaign_plan_binding hash plan r).allowed ≡ true)
            × ((select_host hash plan o rest).approved ≡ plan.host_id ∷ rest.approved))
  unfolding select_host
  round_cases plan none rest = inl (ground arith)
  round_cases plan (some r) rest = elim (Bool-cases (plan.state is CampaignHostState.approved)) [
    | inr e ↦ inl (ground arith)
    | inl e ↦ elim (Bool-cases (campaign_plan_binding hash plan r).allowed) [
      | inr f ↦ inl (ground arith)
      | inl f ↦ inr (r, refl, ground arith, f, ground arith)
    ]
  ]

  pub selected_sound :
      (plans : List CampaignHostPlan) (remediations : Dict Remediation) (id : String)
      → Memᴰ id (select_hosts hash plans remediations).approved
      → (plan : CampaignHostPlan) × (r : Remediation) × Memᴰ plan plans
        × Selectable remediations plan r
        × (id ≡ plan.host_id)
  unfolding select_hosts
  selected_sound [] remediations id m = elim m [ ]
  selected_sound (plan ∷ plans) remediations id m =
      let ih = selected_sound plans remediations id in
      elim (round_cases plan (get? remediations plan.remediation_id)
        (select_hosts hash plans remediations)) [
          | inl e ↦
              let (p, r, at, s, q) = ih (subst (λ l. Memᴰ id l) e m) in (p, r, Memᴰ.tail at, s, q)
          | inr (r, o, st, b, e) ↦ elim (mem-cons_cases (subst (λ l. Memᴰ id l) e m)) [
            | inl q ↦ (plan, r, Memᴰ.head refl, record { state = st; found = o; bound = b }, q)
            | inr rest ↦ let (p, r', at, s, q) = ih rest in (p, r', Memᴰ.tail at, s, q)
          ]
        ]

  abbrev Counted : CampaignHostPlan → Remediation → Selection → Type 0
  Counted plan r selection =
      Memᴰ plan.host_id selection.approved
      × Memᴰ r.rollout_policy.batch_size selection.limits
      × Memᴰ r.rollout_policy.canary_count selection.canary_limits

  picked :
      (plan : CampaignHostPlan) (o : Option Remediation) (r : Remediation) (rest : Selection)
      → plan.state ≡ CampaignHostState.approved
      → o ≡ some r
      → (campaign_plan_binding hash plan r).allowed ≡ true
      → Counted plan r (select_host hash plan o rest)
  unfolding select_host
  picked plan o r rest st found b =
      let t : (plan.state is CampaignHostState.approved) ≡ true = ground arith in
      rw (found, select_host) (rw (t, b) (Memᴰ.head refl, Memᴰ.head refl, Memᴰ.head refl))

  kept :
      (plan first : CampaignHostPlan) (o : Option Remediation) (r : Remediation) (rest : Selection)
      → Counted plan r rest
      → Counted plan r (select_host hash first o rest)
  unfolding select_host
  kept plan first none r rest c = elim (Bool-cases (first.state is CampaignHostState.approved)) [
    | inl e ↦ rw e c
    | inr e ↦ rw e c
  ]
  kept plan first (some q) r rest c =
      elim (Bool-cases (first.state is CampaignHostState.approved)) [
        | inr e ↦ rw e c
        | inl e ↦ elim (Bool-cases (campaign_plan_binding hash first q).allowed) [
          | inr f ↦ rw (e, f) c
          | inl f ↦ rw (e, f) (Memᴰ.tail c.0, Memᴰ.tail c.1, Memᴰ.tail c.2)
        ]
      ]

  -- A selectable host is approved for the batch, and its two limits are among those considered.
  pub selected_complete :
      (plans : List CampaignHostPlan) (remediations : Dict Remediation) (plan : CampaignHostPlan)
      (r : Remediation)
      → Memᴰ plan plans
      → Selectable remediations plan r
      → Counted plan r (select_hosts hash plans remediations)
  unfolding select_hosts
  selected_complete [] remediations plan r m s = elim m [ ]
  selected_complete (first ∷ plans) remediations plan r (Memᴰ.head e) s =
      subst (λ f. Counted plan r (select_hosts hash (f ∷ plans) remediations)) e
        (picked plan (get? remediations plan.remediation_id) r
          (select_hosts hash plans remediations) s.state s.found s.bound)
  selected_complete (first ∷ plans) remediations plan r (Memᴰ.tail m) s =
      kept plan first (get? remediations first.remediation_id) r
        (select_hosts hash plans remediations) (selected_complete plans remediations plan r m s)

  pub batch_cases :
      (campaign : PatchCampaign) (remediations : Dict Remediation)
      → let selection = select_hosts hash campaign.hosts remediations in
        let batch = campaign_batch hash campaign remediations in
        (batch.host_ids ≡ [])
        ⊎ ((batch.decision.allowed ≡ true)
            × (batch.host_ids ≡ take (batch_limit hash campaign selection) selection.approved))
  unfolding campaign_batch allow
  batch_cases campaign remediations = ground arith

  -- Every host of the batch has an approved plan in the campaign, whose remediation is known and is
  -- still the one that the plan was bound to.
  pub batch_sound :
      (campaign : PatchCampaign) (remediations : Dict Remediation) (id : String)
      → Memᴰ id (campaign_batch hash campaign remediations).host_ids
      → (plan : CampaignHostPlan) × (r : Remediation) × Memᴰ plan campaign.hosts
        × Selectable remediations plan r
        × (id ≡ plan.host_id)
  batch_sound campaign remediations id m = elim (batch_cases campaign remediations) [
    | inl e ↦ elim (subst (λ l. Memᴰ id l) e m) [ ]
    | inr (a, e) ↦
        selected_sound campaign.hosts remediations id (mem-take _ _ (subst (λ l. Memᴰ id l) e m))
  ]
