-- ===== src/Auth/Sessions.antt =====
-- Login, the tokens of a session, and passwords (backend/app/services/auth_service.py).
use qiki.Base.{
  ℕ, Bool, true, false, ◌&&◌, not, Option, none, some, List, [], ◌∷◌, ◌++◌, String, ok, err, Error,
  Action, pure, gets, or_raise, raise_if, modify, ◌>>=◌, ◌>>◌, is_some, if◌then◌else◌,
}
use text.Mathlib.Text.{◌==◌ as str_eq}
use qiki.Models.User.{User, Role}
use qiki.Auth.{
  Library, Key, AuthResult, Draws, AuthState, set_user, get_by_id, get_by_phone, with_password,
  get_by_email, on_server, hold, create_auth_result, blacklist_payload, is_account_locked,
  track_failed_login, account_of,
}

module _ {S : Type 0} (l : Library S) where
  unfoldable pub register_user :
      Draws → ℕ → String → String → Option String → Action (AuthState S) User
  register_user d id phone password email = do
    taken ← gets (λ s. is_some (get_by_phone phone s.users))
    raise_if taken Error.phone_already_exists
    used ← gets (λ s. hold l email && is_some (get_by_email l (text_or email) s.users))
    raise_if used Error.email_already_exists
    let u : User = record {
      id = id;
      email = if hold l email then some (l.lower (text_or email)) else none;
      phone = some phone;
      hashed_password = some (l.hash password);
      email_verified = false;
      role = Role.customer;
      is_active = true;
    }
    modify (λ s. record s { users = s.users ++ u ∷ [] })
    pure u
    where
      text_or : Option String → String
      text_or none = ""
      text_or (some t) = t

  -- By phone number first, then by email.
  unfoldable pub resolve_login_user : String → List User → Option User
  resolve_login_user identifier users =
      let candidate = l.strip identifier in
      let by_email = get_by_email l (l.lower candidate) users in
      elim (l.validate_phone candidate) [
        | none ↦ by_email
        | some phone ↦ elim (get_by_phone phone users) [ none ↦ by_email | some u ↦ some u ]
      ]

  -- Whether the account has a password and it is this one.
  abbrev pub password_matches : String → Option User → Bool
  password_matches password none = false
  password_matches password (some u) = elim u.hashed_password [
    | none ↦ false
    | some hashed ↦ not (str_eq hashed "") && l.verify password hashed
  ]

  -- A failed login is counted before it raises.
  unfoldable pub log_in : Draws → String → String → Option User → Action (AuthState S) AuthResult
  log_in d key password none s = (err Error.invalid_credentials, track_failed_login l d.now key s)
  log_in d key password (some u) s =
      if not (password_matches password (some u))
      then (err Error.invalid_credentials, track_failed_login l d.now key s)
      else if not u.is_active
      then (err Error.inactive_user, s)
      else (ok (create_auth_result l d u), on_server l (l.redis.delete (Key.failed_login key)) s)

  unfoldable pub login_user : Draws → String → String → Action (AuthState S) AuthResult
  login_user d identifier password s =
      let key = l.lower (l.strip identifier) in
      if is_account_locked l d.now key s
      then (err Error.account_locked, s)
      else log_in d key password (resolve_login_user identifier s.users) s

  unfoldable pub refresh_access_token : Draws → String → Action (AuthState S) AuthResult
  refresh_access_token d token s = elim (l.decode d.now token) [
    | none ↦ (err Error.invalid_token, s)
    | some p ↦ elim (account_of l d.now "refresh" Error.inactive_user p s) [
      | err x ↦ (err x, s)
      | ok u ↦ (ok (create_auth_result l d u), blacklist_payload l d.now p s)
    ]
  ]

  abbrev blacklist_token : ℕ → Option String → Action (AuthState S) (Unit {0})
  blacklist_token now none = pure tt
  blacklist_token now (some token) = do
    p ← or_raise (l.decode now token) Error.invalid_token
    modify (blacklist_payload l now p)

  unfoldable pub logout_user : ℕ → String → Option String → Action (AuthState S) (Unit {0})
  logout_user now access refresh = do
    blacklist_token now (some access)
    blacklist_token now (if hold l refresh then refresh else none)

  unfoldable pub verify_token : ℕ → String → Action (AuthState S) User
  verify_token now token s = elim (l.decode now token) [
    | none ↦ (err Error.invalid_token, s)
    | some p ↦ (account_of l now "access" Error.invalid_token p s, s)
  ]

  abbrev pub set_password : ℕ → String → Action (AuthState S) (Unit {0})
  set_password id password =
      modify
        (λ s. record s { users = set_user id (with_password (some (l.hash password))) s.users })

  unfoldable pub change_password :
      ℕ → ℕ → String → String → Option String → Action (AuthState S) (Unit {0})
  change_password now id old new current = do
    found ← gets (λ s. get_by_id id s.users)
    raise_if (not (password_matches old found)) Error.invalid_credentials
    set_password id new
    blacklist_token now (if hold l current then current else none)
