-- ===== src/Prelude.antt =====
-- The names that the other modules share: the libraries', passed on, and Boolean tests.
use Prim.Native.Nat.{compare, Ordering}
use Prim.Native.String.{◌++◌ as append}
pub use Prim.Native.Nat.{ℕ, zero, suc, ◌+◌, ◌-◌, ◌*◌, ◌/◌, ◌%◌, ◌≤◌, ◌<◌, min, max}
pub use Prim.Native.String.{String}
pub use mathlib.Core.Path.{◌≡◌, refl, sym, ap, subst, ◌∙◌}
pub use mathlib.Core.Logic.{◌≢◌, ◌↔◌, ◌⊎◌, inl, inr}
pub use mathlib.Core.Bool.{Bool, true, false, not, ◌&&◌, ◌||◌}
pub use mathlib.Core.Option.{Option, none, some}
pub use mathlib.Core.List.{List, [], ◌∷◌, ◌++◌, map}
pub use native.Mathlib.Omega.{arith}
pub use text.Mathlib.Text.{◌==◌}
pub use text.Mathlib.TextEquality.{eq_iff}

abbrev pub ltb : ℕ → ℕ → Bool
ltb a b = elim (compare a b) [ Ordering.lt ↦ true | _ ↦ false ]

abbrev pub leb : ℕ → ℕ → Bool
leb a b = elim (compare a b) [ Ordering.gt ↦ false | _ ↦ true ]

abbrev pub eqb : ℕ → ℕ → Bool
eqb a b = elim (compare a b) [ Ordering.eq ↦ true | _ ↦ false ]

infix 1 if◌then◌else◌
abbrev pub if◌then◌else◌ {ℓ} : {A : Type ℓ} → Bool → A → A → A
if true then x else y = x
if false then x else y = y

-- An enumeration of the program: its members are numbered, and compared by number.
pub record Enum (A : Type 0) : Type 0 where
  pub tag : A → ℕ
  pub tag_injective : (a b : A) → tag a ≡ tag b → a ≡ b

infix 50 ◌is◌ ◌is_in◌
abbrev pub ◌is◌ : {A : Type 0} ⦃e : Enum A⦄ → A → A → Bool
◌is◌ ⦃e⦄ a b = eqb (e.tag a) (e.tag b)

abbrev pub ◌is_in◌ : {A : Type 0} ⦃e : Enum A⦄ → A → List A → Bool
a is_in [] = false
a is_in (b ∷ bs) = a is b || a is_in bs

-- `x in (…)` for texts and for numbers.
abbrev pub mem_text : String → List String → Bool
mem_text x [] = false
mem_text x (y ∷ ys) = x == y || mem_text x ys

abbrev pub mem_num : ℕ → List ℕ → Bool
mem_num x [] = false
mem_num x (y ∷ ys) = eqb x y || mem_num x ys

-- `==` on optional texts and numbers.
unfoldable pub same_text : Option String → Option String → Bool
same_text none none = true
same_text none (some t) = false
same_text (some s) none = false
same_text (some s) (some t) = s == t

unfoldable pub same_num : Option ℕ → Option ℕ → Bool
same_num none none = true
same_num none (some n) = false
same_num (some m) none = false
same_num (some m) (some n) = eqb m n

-- `a or b` on texts.
abbrev pub text_or : Option String → String → String
text_or none t = t
text_or (some s) t = if s == "" then t else s

infixl 5 ◌>>=◌
abbrev pub ◌>>=◌ {ℓ κ} : {A : Type ℓ} {B : Type κ} → Option A → (A → Option B) → Option B
none >>= f = none
some a >>= f = f a

pub same_text_iff : (a b : Option String) → (same_text a b ≡ true) ↔ (a ≡ b)
unfolding same_text
same_text_iff none none = ground arith
same_text_iff none (some t) = ground arith
same_text_iff (some s) none = ground arith
same_text_iff (some s) (some t) = ground (arith, eq_iff s t)

pub same_num_iff : (a b : Option ℕ) → (same_num a b ≡ true) ↔ (a ≡ b)
unfolding same_num
same_num_iff none none = ground arith
same_num_iff none (some t) = ground arith
same_num_iff (some s) none = ground arith
same_num_iff (some s) (some t) = ground arith

-- To split on a computed value and keep the equation.
pub Bool-cases : (b : Bool) → (b ≡ true) ⊎ (b ≡ false)
Bool-cases true = inl refl
Bool-cases false = inr refl

-- text[:n], in characters.
unfoldable pub clip : ℕ → String → String
clip zero s = ""
clip (suc n) String.[] = ""
clip (suc n) (String.◌∷◌ c s) = String.◌∷◌ c (clip n s)

-- separator.join(texts)
unfoldable pub join : String → List String → String
join separator [] = ""
join separator (s ∷ []) = s
join separator (s ∷ t ∷ rest) = append s (append separator (join separator (t ∷ rest)))

-- math.ceil(m / n), for n > 0.
unfoldable pub ceil_div : ℕ → ℕ → ℕ
ceil_div m n = (m + n - 1) / n

-- min(first, *rest)
unfoldable pub min_of : ℕ → List ℕ → ℕ
min_of first [] = first
min_of first (n ∷ ns) = min first (min_of n ns)

module _ {ℓ} {A : Type ℓ} where
  -- any(p(x) for x in xs)
  abbrev pub any : (A → Bool) → List A → Bool
  any p [] = false
  any p (x ∷ xs) = p x || any p xs

  -- all(p(x) for x in xs)
  abbrev pub all : (A → Bool) → List A → Bool
  all p [] = true
  all p (x ∷ xs) = p x && all p xs

  -- [x for x in xs if p(x)]
  abbrev pub keep_if : (A → Bool) → List A → List A
  keep_if p [] = []
  keep_if p (x ∷ xs) = if p x then x ∷ keep_if p xs else keep_if p xs

  -- sum(p(x) for x in xs)
  abbrev pub count : (A → Bool) → List A → ℕ
  count p [] = 0
  count p (x ∷ xs) = (if p x then 1 else 0) + count p xs

  abbrev pub length : List A → ℕ
  length [] = 0
  length (x ∷ xs) = suc (length xs)

  abbrev pub take : ℕ → List A → List A
  take zero xs = []
  take (suc n) [] = []
  take (suc n) (x ∷ xs) = x ∷ take n xs
