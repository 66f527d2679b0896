-- ===== src/Security/Limiter.antt =====
-- The part of `LoginRateLimiter` that works in the memory of the process (security.py). Times and
-- the window are in microseconds.
use aisys_adm.Prelude.{
  ℕ, ◌+◌, ◌*◌, String, Bool, Option, none, some, [], ◌∷◌, leb, ◌==◌, if◌then◌else◌,
}
use aisys_adm.Models.Values.{Dict, get, put}

pub record LoginRateLimiter : Type 0 where
  pub maximum_attempts : ℕ
  pub window_seconds : ℕ

-- The attempts counted for a key, and when they are forgotten.
abbrev pub Memory : Type 0
Memory = Dict (ℕ × ℕ)

unfoldable pub new_window : LoginRateLimiter → ℕ → ℕ × ℕ
new_window limiter now = (0, now + limiter.window_seconds * 1000000)

-- The count and the end of the window that an attempt at `now` belongs to.
unfoldable pub current_window : LoginRateLimiter → Option (ℕ × ℕ) → ℕ → ℕ × ℕ
current_window limiter none now = new_window limiter now
current_window limiter (some (count, expires)) now =
    if leb expires now then new_window limiter now else (count, expires)

unfoldable pub allow_memory : LoginRateLimiter → Memory → String → ℕ → Bool × Memory
allow_memory limiter memory key now =
    let window = current_window limiter (get memory key) now in
    let count = window.0 + 1 in
    (leb count limiter.maximum_attempts, put memory key (count, window.1))

-- self.memory.pop(key, None)
unfoldable pub reset_memory : Memory → String → Memory
reset_memory [] key = []
reset_memory ((k, window) ∷ memory) key =
    let rest = reset_memory memory key in if k == key then rest else (k, window) ∷ rest
