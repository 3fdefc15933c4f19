-- ===== src/Auth.antt =====
-- backend/app/services/auth_service.py and backend/app/core/security.py: the passwords, the tokens
-- and the one-time codes of the accounts. Bcrypt, the signatures of tokens, the tests on text and
-- Redis are arguments.
pub mod Sessions
pub mod Codes
pub mod Revoked
pub mod Lockout
pub mod Fixture
mod Tests
use qiki.Base.{
  ◌≡◌, ◌<◌, ℕ, ◌+◌, ◌-◌, ◌*◌, zero, suc, Bool, true, false, ◌&&◌, ◌||◌, not, Option, none, some,
  List, [], ◌∷◌, ◌++◌, String, Result, ok, err, Error, Action, pure, raise, gets, or_raise,
  raise_if, modify, ◌>>=◌, ◌>>◌, is_some, leb, ltb, ◌==◌, if◌then◌else◌,
}
use text.Mathlib.Text.{◌==◌ as str_eq}
use qiki.Models.User.{User, Role}
use qiki.Models.KeyStore.{KeyStore}

-- The keys of Redis, one constructor for each prefix.
pub data Key : Type 0 where
  failed_login lockout blacklist password_reset : String → Key
  email_otp email_otp_resend : ℕ → Key

abbrev pub lockout_ttl_seconds : ℕ
lockout_ttl_seconds = 900

abbrev pub failed_login_ttl_seconds : ℕ
failed_login_ttl_seconds = 3600

abbrev pub failed_login_limit : ℕ
failed_login_limit = 5

abbrev pub password_reset_ttl_seconds : ℕ
password_reset_ttl_seconds = 3600

abbrev pub email_otp_ttl_seconds : ℕ
email_otp_ttl_seconds = 600

abbrev pub email_otp_resend_ttl_seconds : ℕ
email_otp_resend_ttl_seconds = 3600

abbrev pub email_otp_resend_limit : ℕ
email_otp_resend_limit = 5

-- The claims of a token; `exp` is in seconds.
pub record Payload : Type 0 where
  pub token_type : Option String
  pub sub : Option ℕ
  pub jti : Option String
  pub exp : Option ℕ

pub record AuthResult : Type 0 where
  pub user : User
  pub access_token : String
  pub refresh_token : String

-- The libraries, with what the code draws from them at one request.
pub record Library (S : Type 0) : Type 0 where
  pub redis : KeyStore Key S
  pub strip : String → String
  pub lower : String → String
  pub validate_phone : String → Option String
  pub verify : String → String → Bool
  pub hash : String → String
  pub str_of_id : ℕ → String
  pub id_of_str : String → Option ℕ
  pub encode : Payload → String
  pub decode : ℕ → String → Option Payload
  -- jwt refuses a token whose time is over.
  pub decode-exp :
      (now e : ℕ) (token : String) (p : Payload)
      → decode now token ≡ some p
      → p.exp ≡ some e
      → now < e
  -- The claims of a token do not change.
  pub decode_same :
      (now later : ℕ) (token : String) (p q : Payload)
      → decode now token ≡ some p
      → decode later token ≡ some q
      → q ≡ p

-- The clock, the random draws and the settings of one request.
pub record Draws : Type 0 where
  pub now : ℕ
  pub access_jti : String
  pub refresh_jti : String
  pub reset_token : String
  pub otp_code : String
  pub access_token_expire_minutes : ℕ
  pub refresh_token_expire_days : ℕ

pub record AuthState (S : Type 0) : Type 0 where
  pub users : List User
  pub server : S
  -- The recipients of the mails that were sent, newest first.
  pub sent : List String

unfoldable pub first_user : (User → Bool) → List User → Option User
first_user p [] = none
first_user p (u ∷ users) = let rest = first_user p users in if p u then some u else rest

abbrev pub is_text : Option String → String → Bool
is_text none t = false
is_text (some u) t = str_eq u t

unfoldable pub set_user : ℕ → (User → User) → List User → List User
set_user id f [] = []
set_user id f (u ∷ users) =
    let rest = set_user id f users in if u.id == id then f u ∷ users else u ∷ rest

abbrev pub get_by_id : ℕ → List User → Option User
get_by_id id users = first_user (λ u. u.id == id) users

abbrev pub get_by_phone : String → List User → Option User
get_by_phone phone users = first_user (λ u. is_text u.phone phone) users

abbrev pub with_password : Option String → User → User
with_password p u = record u { hashed_password = p }

abbrev pub verified : User → User
verified u = record u { email_verified = true }

module _ {S : Type 0} (l : Library S) where
  abbrev pub get_by_email : String → List User → Option User
  get_by_email email users = first_user (λ u. is_text u.email (l.lower email)) users

  abbrev pub on_server : (S → S) → AuthState S → AuthState S
  on_server f s = record s { server = f s.server }

  abbrev pub hold : Option String → Bool
  hold none = false
  hold (some t) = not (str_eq t "")

  -- The tokens of a session.
  unfoldable pub create_access_token : Draws → ℕ → String
  create_access_token d subject = l.encode (record {
    token_type = some "access";
    sub = some subject;
    jti = some d.access_jti;
    exp = some (d.now + 60 * d.access_token_expire_minutes);
  })

  unfoldable pub create_refresh_token : Draws → ℕ → String
  create_refresh_token d subject = l.encode (record {
    token_type = some "refresh";
    sub = some subject;
    jti = some d.refresh_jti;
    exp = some (d.now + 86400 * d.refresh_token_expire_days);
  })

  unfoldable pub create_auth_result : Draws → User → AuthResult
  create_auth_result d u = record {
    user = u;
    access_token = create_access_token d u.id;
    refresh_token = create_refresh_token d u.id;
  }

  -- Without an `exp`, the time of a lockout.
  unfoldable pub seconds_until_expiry : ℕ → Payload → ℕ
  seconds_until_expiry now p = elim p.exp [
    | none ↦ lockout_ttl_seconds
    | some e ↦ if leb 1 (e - now) then e - now else 1
  ]

  unfoldable pub blacklist_payload : ℕ → Payload → AuthState S → AuthState S
  blacklist_payload now p s = elim p.jti [
    | none ↦ s
    | some j ↦
        if str_eq j ""
        then s
        else on_server (l.redis.setex now (Key.blacklist j) (seconds_until_expiry now p) "1") s
  ]

  unfoldable pub is_blacklisted : ℕ → Payload → AuthState S → Bool
  is_blacklisted now p s = elim p.jti [
    | none ↦ false
    | some j ↦ not (str_eq j "") && hold (l.redis.get now (Key.blacklist j) s.server)
  ]

  unfoldable pub is_account_locked : ℕ → String → AuthState S → Bool
  is_account_locked now email s = hold (l.redis.get now (Key.lockout (l.lower email)) s.server)

  unfoldable pub track_failed_login : ℕ → String → AuthState S → AuthState S
  track_failed_login now email s =
      let key = Key.failed_login (l.lower email) in
      let (attempts, counted) = l.redis.incr now key s.server in
      let timed =
        if attempts == 1
        then l.redis.expire now key failed_login_ttl_seconds counted
        else counted in
      record s {
        server =
            if leb failed_login_limit attempts
            then l.redis.setex now (Key.lockout (l.lower email)) lockout_ttl_seconds "1" timed
            else timed;
      }

  -- Fails where the token is not of the type, is revoked, or is for no active account.
  unfoldable pub account_of : ℕ → String → Error → Payload → AuthState S → Result User
  account_of now token_type absent p s =
      if not (is_text p.token_type token_type)
      then err Error.invalid_token
      else if is_blacklisted now p s
      then err Error.token_revoked
      else elim p.sub [
        | none ↦ err Error.invalid_token
        | some subject ↦ elim (get_by_id subject s.users) [
          | none ↦ err absent
          | some u ↦ if not u.is_active then err Error.inactive_user else ok u
        ]
      ]
