-- ===== src/Auth/Tests.antt =====
-- A series of failed logins and an exchange of a refresh token, with the theorems at these inputs.
use qiki.Base.{ℕ, ◌≡◌, refl, ok, err, Error, arith}
use qiki.Auth.{
  AuthState, AuthResult, first_user, is_account_locked, track_failed_login, account_of,
  is_blacklisted, blacklist_payload, seconds_until_expiry, create_access_token,
  create_refresh_token, create_auth_result,
}
use qiki.Auth.Sessions.{resolve_login_user, login_user, log_in, refresh_access_token}
use qiki.Auth.Revoked.{refresh_access_token_once}
use qiki.Auth.Lockout.{Failures, login_user-Failures}
use qiki.Auth.Fixture.{Server, library, at_time, an, calm, refresh_claims}

unfoldable auth_code : Unit {0}
unfolding first_user resolve_login_user login_user log_in is_account_locked track_failed_login
    refresh_access_token account_of is_blacklisted blacklist_payload seconds_until_expiry
    create_access_token create_refresh_token create_auth_result
auth_code = tt

abbrev failed : ℕ → AuthState Server → AuthState Server
failed now s = (login_user library (at_time now) "an" "guess" s).1

abbrev four : AuthState Server
four = failed 40 (failed 30 (failed 20 (failed 10 calm)))

abbrev five : AuthState Server
five = failed 50 four

five-Failures : Failures library "an" 10 50 5 calm five
unfolding auth_code
five-Failures =
    Failures.next 10 40 4 (at_time 50) "guess" calm four five
      (Failures.next 10 30 3 (at_time 40) "guess" calm (failed 30 (failed 20 (failed 10 calm))) four
        (Failures.next 10 20 2 (at_time 30) "guess" calm (failed 20 (failed 10 calm))
          (failed 30 (failed 20 (failed 10 calm)))
          (Failures.next 10 10 1 (at_time 20) "guess" calm (failed 10 calm)
            (failed 20 (failed 10 calm))
            (Failures.first (at_time 10) "guess" calm (failed 10 calm) refl refl) (ground arith)
            (ground arith) refl)
          (ground arith) (ground arith) refl)
        (ground arith) (ground arith) refl)
      (ground arith) (ground arith) refl

login_user-Failures_example :
    login_user library (at_time 600) "an" "secret" five ≡ (err Error.account_locked, five)
login_user-Failures_example =
    login_user-Failures library "an" 10 50 5 calm five (at_time 600) "secret" five-Failures
      (ground arith) (ground arith) (ground arith)

abbrev rotated : AuthState Server
rotated = (refresh_access_token library (at_time 100) "r1" calm).1

abbrev session : AuthResult
session = create_auth_result library (at_time 100) an

refresh_access_token_once_example :
    (x : Error) × (refresh_access_token library (at_time 2000) "r1" rotated ≡ (err x, rotated))
unfolding auth_code
refresh_access_token_once_example =
    refresh_access_token_once library (at_time 100) (at_time 2000) "r1" refresh_claims "j1" 1000
      calm rotated session refl refl refl refl (ground arith) refl

-- The account logs in again once the 900 seconds are over.
unlocked_again :
    (login_user library (at_time 950) "an" "secret" five).0
    ≡ ok (create_auth_result library (at_time 950) an)
unfolding auth_code
unlocked_again = refl
