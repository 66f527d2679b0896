-- ===== src/Scenarios/Logins.antt =====
-- Attempts to log in, and one session.
use aisys_adm.Prelude.{
  ◌&&◌, ◌↔◌, Bool, true, false, ℕ, ◌+◌, ◌≤◌, ◌≡◌, ◌≢◌, max, refl, String, false, none, some, List,
  [], ◌∷◌, ◌==◌, arith, eq_iff,
}
use Prim.Native.String.{◌++◌ as append}
use aisys_adm.Models.Enums.{UserRole}
use aisys_adm.Models.Values.{is_some}
use aisys_adm.Repository.Leases.{not_after, normalized_datetime}
use aisys_adm.Security.Limiter.{LoginRateLimiter, Memory}
use aisys_adm.Security.Attempted.{allowed_attempts, window_bounds_attempts}
use aisys_adm.Security.Sessions.{
  User, Session, Sessions, Users, unexpired, active_session, session_user, authenticate, logout,
}
use aisys_adm.Security.Revoked.{authenticated_exactly, logout_revokes, logout_keeps_others}
use aisys_adm.Security.Limiter.{new_window, current_window, allow_memory}
use aisys_adm.Security.Login.{get_user_by_username, Drawn, LoginState, login_as, login}
use aisys_adm.Security.LoggedIn.{login_answered}
use aisys_adm.Scenarios.Fixtures.{at}

abbrev limiter : LoginRateLimiter
limiter = record { maximum_attempts = 8; window_seconds = 300 }

abbrev memory : Memory
memory = ("10.0.0.1", (7, 300)) ∷ []

abbrev attempts : List (String × ℕ)
attempts = ("10.0.0.1", 10) ∷ ("10.0.0.2", 20) ∷ ("10.0.0.1", 30) ∷ []

window_bounds_attempts_example :
    7 + allowed_attempts limiter "10.0.0.1" attempts memory ≤ max 7 limiter.maximum_attempts
window_bounds_attempts_example =
    window_bounds_attempts limiter "10.0.0.1" attempts memory 7 300 refl refl

abbrev alice : User
alice = record { id = "user-1"; username = "alice"; role = UserRole.admin; created_at = at 0 }

abbrev users : Users
users = ("user-1", (alice, "argon2")) ∷ []

abbrev session : Session
session = record {
  id = "session-1";
  user_id = "user-1";
  csrf_hash = "#csrf";
  expires_at = at 100;
  created_at = at 0;
}

abbrev hashed : String → String
hashed token = append "#" token

abbrev sessions : Sessions
sessions = ("#one", session) ∷ ("#two", record session { id = "session-2" }) ∷ []

texts_differ : (a b : String) → (a == b) ≡ false → a ≢ b
texts_differ a b h e = ground (arith, eq_iff a b)

alive : not_after session.expires_at (at 50) ≡ false
unfolding not_after normalized_datetime
alive = refl

authenticated_exactly_example :
    (authenticate hashed users sessions (some "one") (at 50)).0 ≡ some alice
authenticated_exactly_example =
    (authenticated_exactly hashed users sessions "one" (at 50) alice (texts_differ "one" "" refl)).1
      (session, refl, alive, refl)

logout_revokes_example :
    (authenticate hashed users (logout hashed sessions (some "one")) (some "one") (at 50)).0 ≡ none
logout_revokes_example = logout_revokes hashed users sessions "one" (at 50)

logout_keeps_others_example :
    (authenticate hashed users (logout hashed sessions (some "two")) (some "one") (at 50)).0
    ≡ (authenticate hashed users sessions (some "one") (at 50)).0
logout_keeps_others_example =
    logout_keeps_others hashed users sessions "two" "one" (at 50)
      (texts_differ (hashed "two") (hashed "one") refl)

expired_now : (authenticate hashed users sessions (some "one") (at 200)).0 ≡ none
unfolding authenticate active_session session_user unexpired not_after normalized_datetime
expired_now = refl

abbrev drawn : Drawn
drawn = record {
  session_token = "three";
  csrf_token = "csrf";
  session_id = "session-3";
  now = at 10;
}

abbrev state : LoginState
state = record { sessions = sessions; memory = [] }

abbrev is_password : String → String → Bool
is_password hash password = hash == "argon2" && password == "secret"

alice_found : get_user_by_username users "alice" ≡ some (alice, "argon2")
unfolding get_user_by_username
alice_found = refl

login_answered_example :
    is_some (login hashed is_password limiter 1 users "alice" "secret" "10.0.0.1" 0 drawn state).0
      ≡ true
    ↔ ((allow_memory limiter [] "10.0.0.1" 0).0 ≡ true) × (is_password "argon2" "secret" ≡ true)
login_answered_example =
    login_answered hashed is_password limiter 1 users "alice" "secret" "10.0.0.1" 0 drawn state
      alice "argon2" alice_found

wrong_password :
    is_some (login hashed is_password limiter 1 users "alice" "guess" "10.0.0.1" 0 drawn state).0
    ≡ false
unfolding login login_as get_user_by_username allow_memory current_window new_window
wrong_password = refl
