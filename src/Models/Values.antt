-- ===== src/Models/Values.antt =====
-- Points in time, the values of the free-form dictionaries, and Python's truth test on them.
use aisys_adm.Prelude.{
  ℕ, String, Bool, true, false, not, Option, none, some, List, [], ◌∷◌, ◌==◌, eqb, if◌then◌else◌,
}

-- Integers: `pos n` is n and `negsuc n` is -n-1.
pub data ℤ : Type 0 where
  pos : ℕ → ℤ
  negsuc : ℕ → ℤ

-- A `datetime`: microseconds since the epoch, read in UTC where the value carries no time zone.
pub record Datetime : Type 0 where
  pub tz_aware : Bool
  pub instant : ℕ

-- A finite `float`: a multiple of 2^-1074, with its sign.
pub record Float : Type 0 where
  pub negative : Bool
  pub multiple : ℕ

-- What the `Dict[str, Any]` fields hold.
mutual
  pub data Json : Type 0 where
    null : Json
    bool : Bool → Json
    num : ℕ → Json
    text : String → Json
    array : Items → Json
    object : Members → Json

  pub data Items : Type 0 where
    end_items : Items
    item : Json → Items → Items

  pub data Members : Type 0 where
    end_members : Members
    member : String → Json → Members → Members

-- A dictionary, in the order of insertion.
abbrev pub Dict {ℓ} : Type ℓ → Type ℓ
Dict V = List (String × V)

abbrev pub JsonDict : Type 0
JsonDict = Dict Json

module _ {ℓ} {V : Type ℓ} where
  -- d.get(key)
  abbrev pub get : Dict V → String → Option V
  get [] key = none
  get ((k, v) ∷ d) key = if k == key then some v else get d key

  -- {**d, key: value}
  abbrev pub put : Dict V → String → V → Dict V
  put [] key value = (key, value) ∷ []
  put ((k, v) ∷ d) key value = if k == key then (key, value) ∷ d else (k, v) ∷ put d key value

-- Python's `bool(value)`.
abbrev pub truthy : Json → Bool
truthy Json.null = false
truthy (Json.bool b) = b
truthy (Json.num n) = not (eqb n 0)
truthy (Json.text s) = not (s == "")
truthy (Json.array Items.end_items) = false
truthy (Json.array (Items.item v rest)) = true
truthy (Json.object Members.end_members) = false
truthy (Json.object (Members.member k v rest)) = true

abbrev pub truthy? : Option Json → Bool
truthy? none = false
truthy? (some v) = truthy v

-- The truth of an `Optional[str]`: neither `None` nor empty.
abbrev pub has_text : Option String → Bool
has_text none = false
has_text (some s) = not (s == "")

-- The truth of an `Optional` that holds an object.
abbrev pub is_some {ℓ} : {A : Type ℓ} → Option A → Bool
is_some none = false
is_some (some a) = true

-- The truth of a list or a dictionary.
abbrev pub nonempty {ℓ} : {A : Type ℓ} → List A → Bool
nonempty [] = false
nonempty (x ∷ xs) = true

-- d.get(key) if key else None
abbrev pub get? {ℓ} : {V : Type ℓ} → Dict V → Option String → Option V
get? d none = none
get? d (some key) = if key == "" then none else get d key
