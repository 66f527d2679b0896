-- ===== src/Security/LoggedIn.antt =====
-- What a login needs and gives (`AuthService.login` of security.py).
use aisys_adm.Prelude.{ℕ, String, Bool, true, false, Option, none, some, ◌≡◌, ◌↔◌, refl, arith}
use aisys_adm.Models.Values.{is_some}
use aisys_adm.Security.Limiter.{LoginRateLimiter, allow_memory}
use aisys_adm.Security.Sessions.{User, Users}
use aisys_adm.Security.Login.{get_user_by_username, Drawn, LoginState, login_as, login}

module _ (token_hash : String → String) (verify : String → String → Bool)
    (limiter : LoginRateLimiter) (ttl : ℕ) where
  refused_as :
      (found : Option (User × String)) (password key : String) (drawn : Drawn) (state : LoginState)
      → let result = login_as token_hash verify limiter ttl found password key drawn state in
        is_some result.0 ≡ false → result.1.sessions ≡ state.sessions
  unfolding login_as
  refused_as none password key drawn state h = refl
  refused_as (some (user, hash)) password key drawn state h = ground arith

  -- A login that is refused leaves the sessions as they were.
  pub refused_login_opens_no_session :
      (users : Users) (username password key : String) (asked_at : ℕ) (drawn : Drawn)
      (state : LoginState)
      → let result =
          login token_hash verify limiter ttl users username password key asked_at drawn state in
        is_some result.0 ≡ false → result.1.sessions ≡ state.sessions
  unfolding login
  refused_login_opens_no_session users username password key asked_at drawn state h =
      let (allowed, memory) = allow_memory limiter state.memory key asked_at in
      ground (
        arith,
        h,
        refused_as (get_user_by_username users username) password key drawn
            (record state { memory = memory }),
      )

  -- A login is answered exactly when the limiter lets it through and the user of that name has that
  -- password.
  pub login_answered :
      (users : Users) (username password key : String) (asked_at : ℕ) (drawn : Drawn)
      (state : LoginState) (user : User) (password_hash : String)
      → get_user_by_username users username ≡ some (user, password_hash)
      → is_some
            (login token_hash verify limiter ttl users username password key asked_at drawn state).0
          ≡ true
        ↔ ((allow_memory limiter state.memory key asked_at).0 ≡ true)
          × (verify password_hash password ≡ true)
  unfolding login login_as
  login_answered users username password key asked_at drawn state user password_hash found =
      rw (found) ground arith
