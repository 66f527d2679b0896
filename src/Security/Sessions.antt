-- ===== src/Security/Sessions.antt =====
-- Users and sessions: `AuthService` (security.py) over the users and sessions of
-- `InMemoryRepository` (repository.py). `token_hash` is SHA-256, a parameter; a step that looks a
-- session up may delete it, so it returns the sessions too.
use aisys_adm.Prelude.{
  String, Bool, false, not, Option, none, some, [], ◌∷◌, ◌==◌, if◌then◌else◌, ◌&&◌,
}
use aisys_adm.Models.Enums.{UserRole}
use aisys_adm.Models.Values.{Datetime, Dict, get, has_text}
use aisys_adm.Repository.Leases.{not_after}

pub record User : Type 0 where
  pub id : String
  pub username : String
  pub role : UserRole
  pub created_at : Datetime

-- The dictionary that `save_session` stores.
pub record Session : Type 0 where
  pub id : String
  pub user_id : String
  pub csrf_hash : String
  pub expires_at : Datetime
  pub created_at : Datetime

abbrev pub Sessions : Type 0
Sessions = Dict Session

abbrev pub Users : Type 0
Users = Dict (User × String)

-- self.sessions.pop(token_hash, None)
unfoldable pub delete_session : Sessions → String → Sessions
delete_session [] hash = []
delete_session ((k, session) ∷ sessions) hash =
    let rest = delete_session sessions hash in if k == hash then rest else (k, session) ∷ rest

abbrev pub get_user : Users → String → Option User
get_user users user_id = elim (get users user_id) [ none ↦ none | some item ↦ some item.0 ]

-- `_active_session`, once the session of a token that is not empty has been looked up.
unfoldable pub unexpired : Sessions → String → Option Session → Datetime → Option Session × Sessions
unexpired sessions hash none now = (none, sessions)
unexpired sessions hash (some session) now =
    if not_after session.expires_at now
    then (none, delete_session sessions hash)
    else (some session, sessions)

module _ (token_hash : String → String) where
  unfoldable pub active_session : Sessions → Option String → Datetime → Option Session × Sessions
  unfolding unexpired
  active_session sessions none now = (none, sessions)
  active_session sessions (some token) now =
      if token == ""
      then (none, sessions)
      else unexpired sessions (token_hash token) (get sessions (token_hash token)) now

  -- token_hash(session_token or "")
  abbrev pub token_key : Option String → String
  token_key none = token_hash ""
  token_key (some token) = token_hash token

  -- `authenticate`, once the active session has been looked up.
  unfoldable pub session_user :
      Users → Option String → Option Session × Sessions → Option User × Sessions
  session_user users token (none, sessions) = (none, sessions)
  session_user users token (some session, sessions) = elim (get_user users session.user_id) [
    | some user ↦ (some user, sessions)
    | none ↦ (none, delete_session sessions (token_key token))
  ]

  unfoldable pub authenticate : Users → Sessions → Option String → Datetime → Option User × Sessions
  unfolding active_session session_user
  authenticate users sessions token now =
      session_user users token (active_session sessions token now)

  unfoldable pub csrf_matches : Option Session → String → Bool
  csrf_matches none csrf_token = false
  csrf_matches (some session) csrf_token = session.csrf_hash == token_hash csrf_token

  unfoldable pub verify_csrf : Sessions → Option String → Option String → Datetime → Bool × Sessions
  unfolding active_session csrf_matches
  verify_csrf sessions token none now = (false, sessions)
  verify_csrf sessions token (some csrf_token) now =
      let (session, after) = active_session sessions token now in
      if has_text token && not (csrf_token == "")
      then (csrf_matches session csrf_token, after)
      else (false, sessions)

  unfoldable pub logout : Sessions → Option String → Sessions
  logout sessions none = sessions
  logout sessions (some token) =
      if token == "" then sessions else delete_session sessions (token_hash token)
