-- ===== src/Service/Selected.antt =====
-- The hosts that a campaign is created for (`create_campaign` of service.py).
use aisys_adm.Prelude.{◌≤◌, String, false, List, [], ◌∷◌, ◌≡◌, length, mem_text}
use aisys_adm.Models.Campaigns.{PatchCampaign}
use aisys_adm.Models.Records.{CampaignRequest}
use aisys_adm.Service.World.{World}

-- No text of the list occurs in it twice.
abbrev pub IsDistinct : List String → Type 0
IsDistinct [] = Unit {0}
IsDistinct (x ∷ xs) = (mem_text x xs ≡ false) × IsDistinct xs

-- None of the texts is among those that were seen.
abbrev IsFresh : List String → List String → Type 0
IsFresh seen [] = Unit {0}
IsFresh seen (x ∷ xs) = (mem_text x seen ≡ false) × IsFresh seen xs

-- What a campaign is for: every host of the selection once, with a plan for each, and a limit on
-- batches that lets them start.
abbrev pub IsFor : CampaignRequest → PatchCampaign → Type 0
IsFor request campaign =
    IsDistinct request.host_ids
    × (campaign.host_ids ≡ request.host_ids)
    × (length campaign.hosts ≡ length request.host_ids)
    × (1 ≤ campaign.batch_size)
