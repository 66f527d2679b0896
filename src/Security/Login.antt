-- ===== src/Security/Login.antt =====
-- `AuthService.login` (security.py) without Redis. `verify` is Argon2's check of a password against
-- a hash; the random identifiers and the times that the code draws are arguments.
use aisys_adm.Prelude.{
  ℕ, ◌+◌, ◌*◌, String, Bool, not, Option, none, some, [], ◌∷◌, ◌==◌, if◌then◌else◌,
}
use aisys_adm.Models.Values.{Datetime, put}
use aisys_adm.Security.Limiter.{LoginRateLimiter, Memory, allow_memory, reset_memory}
use aisys_adm.Security.Sessions.{User, Sessions, Users}

-- next((item for item in self.users.values() if item[0].username == username), None)
unfoldable pub get_user_by_username : Users → String → Option (User × String)
get_user_by_username [] username = none
get_user_by_username ((id, item) ∷ users) username =
    if item.0.username == username then some item else get_user_by_username users username

-- What a login draws: the two tokens, the identifier of the session and the time.
pub record Drawn : Type 0 where
  pub session_token : String
  pub csrf_token : String
  pub session_id : String
  pub now : Datetime

pub record LoginState : Type 0 where
  pub sessions : Sessions
  pub memory : Memory

pub record LoginResponse : Type 0 where
  pub user : User
  pub csrf_token : String

unfoldable pub save_session :
    Sessions → String → String → String → String → Datetime → Datetime → Sessions
save_session sessions session_id user_id token_hash csrf_hash expires_at created_at =
    put sessions token_hash (record {
      id = session_id;
      user_id = user_id;
      csrf_hash = csrf_hash;
      expires_at = expires_at;
      created_at = created_at;
    })

-- now + timedelta(hours=session_ttl_hours)
unfoldable pub session_end : ℕ → Datetime → Datetime
session_end session_ttl_hours now = record now {
  instant = now.instant + session_ttl_hours * 3600 * 1000000;
}

module _ (token_hash : String → String) (verify : String → String → Bool)
    (limiter : LoginRateLimiter) (session_ttl_hours : ℕ) where
  unfoldable pub open_session : User → String → Drawn → LoginState → LoginState
  unfolding save_session session_end
  open_session user key drawn state = record {
    sessions =
        save_session state.sessions drawn.session_id user.id (token_hash drawn.session_token)
          (token_hash drawn.csrf_token) (session_end session_ttl_hours drawn.now) drawn.now;
    memory = reset_memory state.memory key;
  }

  -- `login`, once the user has been looked up. No answer is the `ValueError`.
  unfoldable pub login_as :
      Option (User × String)
      → String
      → String
      → Drawn
      → LoginState
      → Option (LoginResponse × String) × LoginState
  login_as none password key drawn state = (none, state)
  login_as (some (user, password_hash)) password key drawn state =
      if not (verify password_hash password) then (none, state) else (
        some (record { user = user; csrf_token = drawn.csrf_token }, drawn.session_token),
        open_session user key drawn state,
      )

  unfoldable pub login :
      Users
      → String
      → String
      → String
      → ℕ
      → Drawn
      → LoginState
      → Option (LoginResponse × String) × LoginState
  unfolding login_as
  login users username password key asked_at drawn state =
      let (allowed, memory) = allow_memory limiter state.memory key asked_at in
      let counted = record state { memory = memory } in
      if not allowed
      then (none, counted)
      else login_as (get_user_by_username users username) password key drawn counted
