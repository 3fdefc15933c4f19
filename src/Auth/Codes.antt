-- ===== src/Auth/Codes.antt =====
-- The reset of a password and the one-time code for an e-mail address
-- (backend/app/services/auth_service.py).
use qiki.Base.{
  ℕ, Bool, true, false, ◌||◌, not, Option, none, some, ◌∷◌, String, Error, Action, pure, gets,
  or_raise, modify, ◌>>=◌, ◌>>◌, ltb, ◌==◌, if◌then◌else◌,
}
use text.Mathlib.Text.{◌==◌ as str_eq}
use qiki.Models.User.{User}
use qiki.Auth.{
  Library, Key, password_reset_ttl_seconds, email_otp_ttl_seconds, email_otp_resend_ttl_seconds,
  email_otp_resend_limit, Draws, AuthState, set_user, get_by_id, verified, get_by_email, on_server,
  hold,
}
use qiki.Auth.Sessions.{set_password}

module _ {S : Type 0} (l : Library S) where
  unfoldable pub request_password_reset : Draws → String → Action (AuthState S) Bool
  request_password_reset d email = do
    found ← gets (λ s. get_by_email l (l.lower email) s.users)
    elim found [
      | none ↦ pure true
      | some u ↦ do
        modify (
            on_server l (
              l.redis.setex d.now (Key.password_reset d.reset_token) password_reset_ttl_seconds
                (l.str_of_id u.id)))
        modify (λ s. record s { sent = l.lower email ∷ s.sent })
        pure true
    ]

  abbrev held : Option String → Option String
  held t = if hold l t then t else none

  unfoldable pub reset_password : ℕ → String → String → Action (AuthState S) (Unit {0})
  reset_password now token password = do
    raw ← gets (λ s. held (l.redis.get now (Key.password_reset token) s.server))
    value ← or_raise raw Error.invalid_reset_token
    id ← or_raise (l.id_of_str value) Error.internal_error
    found ← gets (λ s. get_by_id id s.users)
    u ← or_raise found Error.invalid_reset_token
    set_password l id password
    modify (on_server l (l.redis.delete (Key.password_reset token)))

  -- The new state counts the request even where the limit refuses it.
  unfoldable pub request_email_otp : Draws → User → AuthState S → Bool × AuthState S
  request_email_otp d u s =
      let key = Key.email_otp_resend u.id in
      let (attempts, counted) = l.redis.incr d.now key s.server in
      let timed =
        if attempts == 1
        then l.redis.expire d.now key email_otp_resend_ttl_seconds counted
        else counted in
      if not (hold l u.email)
      then (false, s)
      else if ltb email_otp_resend_limit attempts
      then (false, record s { server = timed })
      else (
        true,
        record s {
          server = l.redis.setex d.now (Key.email_otp u.id) email_otp_ttl_seconds d.otp_code timed;
          sent = address_of u.email ∷ s.sent;
        },
      )
    where
      address_of : Option String → String
      address_of none = ""
      address_of (some t) = t

  unfoldable pub send_email_verification : Draws → String → AuthState S → AuthState S
  send_email_verification d email s = elim (get_by_email l (l.lower email) s.users) [
    | none ↦ s
    | some u ↦ if hold l u.email then (request_email_otp d u s).1 else s
  ]

  unfoldable pub verify_email_otp : ℕ → User → String → AuthState S → Bool × AuthState S
  verify_email_otp now u code s = elim (l.redis.get now (Key.email_otp u.id) s.server) [
    | none ↦ (false, s)
    | some raw ↦ if str_eq raw "" || not (str_eq raw code) then (false, s) else (
      true,
      record s {
        users = set_user u.id verified s.users;
        server =
            l.redis.delete (Key.email_otp_resend u.id)
              (l.redis.delete (Key.email_otp u.id) s.server);
      },
    )
  ]

  unfoldable pub confirm_email_otp : ℕ → String → String → AuthState S → Bool × AuthState S
  confirm_email_otp now email code s = elim (get_by_email l (l.lower email) s.users) [
    | none ↦ (false, s)
    | some u ↦ verify_email_otp now u code s
  ]
