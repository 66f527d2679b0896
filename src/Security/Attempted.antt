-- ===== src/Security/Attempted.antt =====
-- How many attempts a window lets through (`LoginRateLimiter._allow_memory` of security.py).
use aisys_adm.Prelude.{
  ℕ, not, ◌&&◌, ◌||◌, ◌∙◌, refl, inl, inr, ap, Bool-cases, ◌+◌, ◌≤◌, ◌≡◌, max, String, Bool, true,
  false, some, List, [], ◌∷◌, leb, ltb, ◌==◌, if◌then◌else◌, arith, eq_iff,
}
use aisys_adm.Models.Values.{get}
use aisys_adm.Repository.Store.{get-put}
use aisys_adm.Security.Limiter.{LoginRateLimiter, Memory, current_window, allow_memory}

-- How many of the attempts, each a key and a time, are allowed for one key.
abbrev pub allowed_attempts : LoginRateLimiter → String → List (String × ℕ) → Memory → ℕ
allowed_attempts limiter key [] memory = 0
allowed_attempts limiter key ((k, now) ∷ attempts) memory =
    let (allowed, after) = allow_memory limiter memory k now in
    (if k == key then (if allowed then 1 else 0) else 0)
    + allowed_attempts limiter key attempts after

-- Every attempt for the key comes before the time.
abbrev pub all_before : ℕ → String → List (String × ℕ) → Bool
all_before expires key [] = true
all_before expires key ((k, now) ∷ attempts) =
    (not (k == key) || ltb now expires) && all_before expires key attempts

window_open :
    (limiter : LoginRateLimiter) (count expires now : ℕ)
    → ltb now expires ≡ true
    → current_window limiter (some (count, expires)) now ≡ (count, expires)
unfolding current_window
window_open limiter count expires now h = ground arith

other_kept :
    (limiter : LoginRateLimiter) (memory : Memory) (k key : String) (now : ℕ)
    → (k == key) ≡ false
    → get (allow_memory limiter memory k now).1 key ≡ get memory key
unfolding allow_memory
other_kept limiter memory k key now h =
    let window = current_window limiter (get memory k) now in
    get-put memory k (window.0 + 1, window.1) key ∙ rw h refl

same_counted :
    (limiter : LoginRateLimiter) (memory : Memory) (k key : String) (now count expires : ℕ)
    → (k == key) ≡ true
    → get memory key ≡ some (count, expires)
    → ltb now expires ≡ true
    → ((allow_memory limiter memory k now).0 ≡ leb (count + 1) limiter.maximum_attempts)
      × (get (allow_memory limiter memory k now).1 key ≡ some (count + 1, expires))
unfolding allow_memory
same_counted limiter memory k key now count expires e found h =
    let window = current_window limiter (get memory k) now in
    let same : window ≡ (count, expires) =
      rw (ap (get memory) ((eq_iff k key).0 e) ∙ found) (window_open limiter count expires now h) in
    (rw (same) refl, get-put memory k (window.0 + 1, window.1) key ∙ rw (e, same) refl)

-- While the window of a key is open, however the attempts for it and for other keys are mixed, the
-- attempts that are let through and those counted before stay within the maximum, or within those
-- counted before where these are more.
pub window_bounds_attempts :
    (limiter : LoginRateLimiter) (key : String) (attempts : List (String × ℕ)) (memory : Memory)
    (count expires : ℕ)
    → get memory key ≡ some (count, expires)
    → all_before expires key attempts ≡ true
    → count + allowed_attempts limiter key attempts memory ≤ max count limiter.maximum_attempts
window_bounds_attempts limiter key [] memory count expires found before = omega arith
window_bounds_attempts limiter key ((k, now) ∷ attempts) memory count expires found before =
    let after = (allow_memory limiter memory k now).1 in
    let rest : all_before expires key attempts ≡ true = ground (arith, before) in
    elim (Bool-cases (k == key)) [
      | inl e ↦
          let (asked, next) =
            same_counted limiter memory k key now count expires e found
              (ground (arith, before, e)) in
          let ih =
            window_bounds_attempts limiter key attempts after (count + 1) expires next rest in
          rw (e, asked) (ground (arith, ih))
      | inr e ↦
          let next = other_kept limiter memory k key now e ∙ found in
          let ih = window_bounds_attempts limiter key attempts after count expires next rest in
          rw (e) (omega (arith, ih))
    ]
