-- ===== src/Security/Revoked.antt =====
-- Which tokens authenticate, and what ends a session (`AuthService` of security.py).
use aisys_adm.Prelude.{
  String, false, Option, none, some, [], ◌∷◌, ◌==◌, ◌≡◌, ◌≢◌, ◌↔◌, ◌∙◌, inl, inr, refl, sym, ap,
  subst, if◌then◌else◌, arith, eq_iff, Bool-cases,
}
use aisys_adm.Models.Values.{Datetime, get}
use aisys_adm.Repository.Leases.{not_after}
use aisys_adm.Security.Sessions.{
  User, Session, Sessions, Users, delete_session, get_user, unexpired, active_session, session_user,
  authenticate, logout,
}

get-delete_session :
    (sessions : Sessions) (hash other : String)
    → get (delete_session sessions hash) other
      ≡ (if hash == other then none else get sessions other)
unfolding delete_session
get-delete_session [] hash other = ground arith
get-delete_session ((k, session) ∷ sessions) hash other = ground (
  arith,
  get-delete_session sessions hash other,
  eq_iff k hash,
  eq_iff k other,
  eq_iff hash other,
)

deleted : (sessions : Sessions) (hash : String) → get (delete_session sessions hash) hash ≡ none
deleted sessions hash = ground (arith, get-delete_session sessions hash hash, eq_iff hash hash)

none-ne-some : {A : Type 0} {a : A} → ◌≢◌ {A = Option A} none (some a)
none-ne-some h = ground (arith, h)

module _ (token_hash : String → String) where
  -- The user of a session that was found, where it has not expired.
  abbrev found_user : Users → Option Session → Datetime → Option User
  found_user users none now = none
  found_user users (some session) now =
      if not_after session.expires_at now then none else get_user users session.user_id

  session_result :
      (users : Users) (sessions : Sessions) (token : String) (found : Option Session)
      (now : Datetime)
      → (session_user token_hash users
          (some token)
          (unexpired sessions (token_hash token) found now)).0
        ≡ found_user users found now
  unfolding session_user unexpired
  session_result users sessions token none now = refl
  session_result users sessions token (some session) now = ground arith

  authenticated_form :
      (users : Users) (sessions : Sessions) (token : String) (now : Datetime)
      → (authenticate token_hash users sessions (some token) now).0
        ≡ (if token == "" then none else found_user users (get sessions (token_hash token)) now)
  unfolding authenticate active_session session_user
  authenticated_form users sessions token now =
      ground (arith, session_result users sessions token (get sessions (token_hash token)) now)

  shown :
      (users : Users) (session other : Session) (now : Datetime) (user : User)
      → some session ≡ some other
      → not_after other.expires_at now ≡ false
      → get_user users other.user_id ≡ some user
      → found_user users (some session) now ≡ some user
  shown users session other now user same live known =
      subst (λ o. found_user users o now ≡ some user) (sym same) (rw (live) known)

  found_exact :
      (users : Users) (found : Option Session) (now : Datetime) (user : User)
      → found_user users found now ≡ some user ↔ (
          (session : Session) × (found ≡ some session)
          × (not_after session.expires_at now ≡ false)
          × (get_user users session.user_id ≡ some user))
  found_exact users none now user =
      (λ h. absurd (none-ne-some h), λ (session, at, live, known). absurd (none-ne-some at))
  found_exact users (some session) now user = (
    λ h. elim (Bool-cases (not_after session.expires_at now)) [
      | inl e ↦ absurd (none-ne-some (rw e at h))
      | inr e ↦ (session, refl, e, (rw e at h))
    ],
    λ (other, same, live, known). shown users session other now user same live known,
  )

  -- A token, not empty, authenticates a user exactly when it has a session that has not expired and
  -- that belongs to that user, who exists.
  pub authenticated_exactly :
      (users : Users) (sessions : Sessions) (token : String) (now : Datetime) (user : User)
      → token ≢ ""
      → (authenticate token_hash users sessions (some token) now).0 ≡ some user ↔ (
          (session : Session) × (get sessions (token_hash token) ≡ some session)
          × (not_after session.expires_at now ≡ false)
          × (get_user users session.user_id ≡ some user))
  authenticated_exactly users sessions token now user h = elim (Bool-cases (token == "")) [
    | inl e ↦ absurd (h ((eq_iff token "").0 e))
    | inr e ↦
        rw (authenticated_form users sessions token now, e)
          (found_exact users (get sessions (token_hash token)) now user)
  ]

  -- After a logout the token does not authenticate any more, at any time.
  pub logout_revokes :
      (users : Users) (sessions : Sessions) (token : String) (now : Datetime)
      → (authenticate token_hash users (logout token_hash sessions (some token)) (some token) now).0
        ≡ none
  unfolding logout
  logout_revokes users sessions token now =
      let after = logout token_hash sessions (some token) in
      authenticated_form users after token now ∙ elim (Bool-cases (token == "")) [
        | inl e ↦ rw e refl
        | inr e ↦ rw (e, deleted sessions (token_hash token)) refl
      ]

  -- A logout leaves every token with another hash as it was.
  pub logout_keeps_others :
      (users : Users) (sessions : Sessions) (token other : String) (now : Datetime)
      → token_hash token ≢ token_hash other
      → (authenticate token_hash users (logout token_hash sessions (some token)) (some other) now).0
        ≡ (authenticate token_hash users sessions (some other) now).0
  unfolding logout
  logout_keeps_others users sessions token other now h =
      let after = logout token_hash sessions (some token) in
      authenticated_form users after other now
      ∙ ap (λ o. if other == "" then none else found_user users o now)
          (ground (
            arith,
            get-delete_session sessions (token_hash token) (token_hash other),
            eq_iff (token_hash token) (token_hash other),
          ))
      ∙ sym (authenticated_form users sessions other now)

  session_ended :
      (users : Users) (sessions : Sessions) (token : String) (found : Option Session)
      (now : Datetime)
      → get sessions (token_hash token) ≡ found
      → (session_user token_hash users
          (some token)
          (unexpired sessions (token_hash token) found now)).0
        ≡ none
      → get
          (session_user token_hash users
            (some token)
            (unexpired sessions (token_hash token) found now)).1
          (token_hash token)
        ≡ none
  unfolding session_user unexpired
  session_ended users sessions token none now at failed = at
  session_ended users sessions token (some session) now at failed =
      ground (arith, deleted sessions (token_hash token), failed)

  -- A token, not empty, that fails to authenticate has no session afterwards.
  pub failed_authentication_ends_session :
      (users : Users) (sessions : Sessions) (token : String) (now : Datetime)
      → token ≢ ""
      → (authenticate token_hash users sessions (some token) now).0 ≡ none
      → get (authenticate token_hash users sessions (some token) now).1 (token_hash token) ≡ none
  unfolding authenticate active_session
  failed_authentication_ends_session users sessions token now h failed =
      elim (Bool-cases (token == "")) [
        | inl e ↦ absurd (h ((eq_iff token "").0 e))
        | inr e ↦ rw (e) (
            session_ended users sessions token (get sessions (token_hash token)) now refl
              (rw e at failed))
      ]
