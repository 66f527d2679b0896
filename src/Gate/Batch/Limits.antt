-- ===== src/Gate/Batch/Limits.antt =====
-- How many hosts a batch has (`campaign_batch` of trusted_change.py).
use mathlib.Core.List.{Memᴰ}
use aisys_adm.Prelude.{
  ℕ, zero, suc, String, ◌≤◌, ◌≡◌, refl, ap, ◌⊎◌, inl, inr, Bool-cases, eqb, true, false, List, [],
  ◌∷◌, arith, max, min_of, any, take, length,
}
use aisys_adm.Models.Enums.{campaign_host_state_enum}
use aisys_adm.Models.Values.{Dict, nonempty}
use aisys_adm.Models.Remediations.{Remediation}
use aisys_adm.Models.Campaigns.{CampaignHostPlan, PatchCampaign}
use aisys_adm.Gate.Decision.{allow}
use aisys_adm.Gate.Plan.{PlanPayload}
use aisys_adm.Gate.Campaign.{
  Selection, campaign_terminal, in_progress, select_hosts, canary_limit, batch_limit,
  campaign_batch,
}
use aisys_adm.Gate.Batch.Selected.{Selectable, selected_complete, batch_cases}

length-take-le {ℓ} : {A : Type ℓ} (n : ℕ) (xs : List A) → length (take n xs) ≤ n
length-take-le zero xs = omega arith
length-take-le (suc n) [] = omega arith
length-take-le (suc n) (x ∷ xs) = omega (arith, length-take-le n xs)

min_of-le_head : (first : ℕ) (ns : List ℕ) → min_of first ns ≤ first
unfolding min_of
min_of-le_head first [] = omega arith
min_of-le_head first (n ∷ ns) = omega arith

min_of-le_mem : (first : ℕ) (ns : List ℕ) {k : ℕ} → Memᴰ k ns → min_of first ns ≤ k
unfolding min_of
min_of-le_mem first [] m = elim m [ ]
min_of-le_mem first (n ∷ ns) (Memᴰ.head e) = omega (arith, min_of-le_head n ns, e)
min_of-le_mem first (n ∷ ns) (Memᴰ.tail m) = omega (arith, min_of-le_mem n ns m)

nonempty_of_mem {ℓ} : {A : Type ℓ} {a : A} {xs : List A} → Memᴰ a xs → nonempty xs ≡ true
nonempty_of_mem (Memᴰ.head e) = refl
nonempty_of_mem (Memᴰ.tail m) = refl

length-take_pos {ℓ} :
    {A : Type ℓ} (n : ℕ) (xs : List A) {a : A} → Memᴰ a xs → 1 ≤ n → 1 ≤ length (take n xs)
length-take_pos zero xs m h = absurd (omega arith)
length-take_pos (suc n) [] m h = elim m [ ]
length-take_pos (suc n) (x ∷ xs) m h = omega arith

canary_limit-le : (limit : ℕ) (ns : List ℕ) {k : ℕ} → Memᴰ k ns → canary_limit limit ns ≤ max 1 k
unfolding canary_limit
canary_limit-le limit [] m = elim m [ ]
canary_limit-le limit (n ∷ ns) (Memᴰ.head e) = omega (arith, min_of-le_head n ns, e)
canary_limit-le limit (n ∷ ns) (Memᴰ.tail m) = omega (arith, min_of-le_mem n ns m)

canary_limit-le_limit : (limit : ℕ) (ns : List ℕ) → canary_limit limit ns ≤ limit
unfolding canary_limit
canary_limit-le_limit limit [] = omega arith
canary_limit-le_limit limit (n ∷ ns) = omega arith

canary_limit-pos : (limit : ℕ) (ns : List ℕ) → 1 ≤ limit → 1 ≤ canary_limit limit ns
unfolding canary_limit
canary_limit-pos limit [] h = h
canary_limit-pos limit (n ∷ ns) h = omega arith

module _ (hash : PlanPayload → String) where
  limit-le_batch_size :
      (campaign : PatchCampaign) (s : Selection)
      → batch_limit hash campaign s ≤ max 1 (min_of campaign.batch_size s.limits)
  unfolding batch_limit
  limit-le_batch_size campaign s =
      ground
        (arith, canary_limit-le_limit (max 1 (min_of campaign.batch_size s.limits)) s.canary_limits)

  limit-pos : (campaign : PatchCampaign) (s : Selection) → 1 ≤ batch_limit hash campaign s
  unfolding batch_limit
  limit-pos campaign s =
      ground (arith, canary_limit-pos (max 1 (min_of campaign.batch_size s.limits)) s.canary_limits)

  limit-le_canary :
      (campaign : PatchCampaign) (s : Selection) (k : ℕ)
      → campaign.current_batch ≡ 0
      → Memᴰ k s.canary_limits
      → batch_limit hash campaign s ≤ max 1 k
  unfolding batch_limit
  limit-le_canary campaign s k z m = rw z (
      omega
        (arith, canary_limit-le (max 1 (min_of campaign.batch_size s.limits)) s.canary_limits m))

  -- A batch has at most as many hosts as the campaign's batch size, as the batch size of any
  -- host that could be chosen and, when it is the first batch, as the canary count of any such host;
  -- each of these numbers counts as 1 if it is 0.
  pub batch_within_limits :
      (campaign : PatchCampaign) (remediations : Dict Remediation) (plan : CampaignHostPlan)
      (r : Remediation)
      → Memᴰ plan campaign.hosts
      → Selectable hash remediations plan r
      → let size = length (campaign_batch hash campaign remediations).host_ids in
        (size ≤ max 1 campaign.batch_size)
        × (size ≤ max 1 r.rollout_policy.batch_size)
        × ((1 ≤ campaign.current_batch) ⊎ (size ≤ max 1 r.rollout_policy.canary_count))
  batch_within_limits campaign remediations plan r m s =
      let selection = select_hosts hash campaign.hosts remediations in
      let limit = batch_limit hash campaign selection in
      let short : length (campaign_batch hash campaign remediations).host_ids ≤ limit =
        elim (batch_cases hash campaign remediations) [
          | inl e ↦ omega (arith, ap (length {A = String}) e)
          | inr (a, e) ↦
              omega (arith, ap (length {A = String}) e, length-take-le limit selection.approved)
        ] in
      let low = limit-le_batch_size campaign selection in
      let (a, b, c) = selected_complete hash campaign.hosts remediations plan r m s in
      (
        omega (arith, min_of-le_head campaign.batch_size selection.limits),
        omega (arith, min_of-le_mem campaign.batch_size selection.limits b),
        elim (Bool-cases (eqb campaign.current_batch 0)) [
          | inl z ↦ inr (
              omega (
                arith,
                limit-le_canary campaign selection r.rollout_policy.canary_count (ground arith) c,
              ))
          | inr z ↦ inl (ground arith)
        ],
      )

  -- Where the campaign has not ended, no host is part of a running batch and some host can be
  -- chosen, the next batch is allowed and has at least one host.
  pub batch_starts :
      (campaign : PatchCampaign) (remediations : Dict Remediation) (plan : CampaignHostPlan)
      (r : Remediation)
      → campaign_terminal campaign ≡ false
      → any in_progress campaign.hosts ≡ false
      → Memᴰ plan campaign.hosts
      → Selectable hash remediations plan r
      → let batch = campaign_batch hash campaign remediations in
        (batch.decision.allowed ≡ true) × (1 ≤ length batch.host_ids)
  unfolding campaign_batch allow
  batch_starts campaign remediations plan r open_ idle m s =
      let found = (selected_complete hash campaign.hosts remediations plan r m s).0 in
      let selection = select_hosts hash campaign.hosts remediations in
      rw (open_, idle, nonempty_of_mem found)
        (refl, length-take_pos _ _ found (limit-pos campaign selection))
