-- ===== src/Auth/Lockout.antt =====
-- Failed logins and the lockout (backend/app/services/auth_service.py).
use qiki.Base.{
  sym, ◌∙◌, ap, subst, ℕ, zero, suc, ◌+◌, ◌≤◌, ◌<◌, true, String, err, Error, ◌≡◌, refl, inl, inr,
  Option-cases, arith,
}
use qiki.Auth.{
  Key, Library, Draws, AuthState, failed_login_limit, failed_login_ttl_seconds, lockout_ttl_seconds,
  is_account_locked, track_failed_login,
}
use qiki.Auth.Sessions.{log_in, login_user, resolve_login_user}

module _ {S : Type 0} (l : Library S) (identifier : String) where
  abbrev pub account_key : String
  account_key = l.lower (l.lower (l.strip identifier))

  abbrev pub failures : ℕ → AuthState S → ℕ
  failures now s = l.redis.count now (Key.failed_login account_key) s.server

  -- A series of failed logins: its first and its last instant, their number, and the states before
  -- and after it. The first one finds no count, and the last one comes within an hour of it.
  pub data Failures : ℕ → ℕ → ℕ → AuthState S → AuthState S → Type 0 where
    first :
        (d : Draws) (password : String) (s s' : AuthState S)
        → failures d.now s ≡ 0
        → login_user l d identifier password s ≡ (err Error.invalid_credentials, s')
        → Failures d.now d.now 1 s s'
    next :
        (start now n : ℕ) (d : Draws) (password : String) (s s1 s2 : AuthState S)
        → Failures start now n s s1
        → now ≤ d.now
        → d.now < start + failed_login_ttl_seconds
        → login_user l d identifier password s1 ≡ (err Error.invalid_credentials, s2)
        → Failures start d.now (suc n) s s2

  login_user_failed :
      (d : Draws) (password : String) (s s' : AuthState S)
      → login_user l d identifier password s ≡ (err Error.invalid_credentials, s')
      → s' ≡ track_failed_login l d.now (l.lower (l.strip identifier)) s
  unfolding login_user log_in
  login_user_failed d password s s' run =
      elim (Option-cases (resolve_login_user l identifier s.users)) [
        | inl nobody ↦ ground (arith, nobody)
        | inr (u, found) ↦ ground (arith, found)
      ]

  different_keys : (a b : String) → Key.lockout a ≡ Key.failed_login b → ⊥
  different_keys a b e = absurd (ground arith)

  track_first :
      (now later : ℕ) (s : AuthState S)
      → failures now s ≡ 0
      → now ≤ later
      → later < now + failed_login_ttl_seconds
      → failures later (track_failed_login l now (l.lower (l.strip identifier)) s) ≡ 1
  unfolding track_failed_login
  track_first now later s fresh after soon =
      let key = Key.failed_login account_key in
      let attempts = l.redis.incr_lem now key s.server ∙ ap suc fresh in
      rw attempts
        (l.redis.count-expire now later failed_login_ttl_seconds key s.server fresh after soon)

  track_next :
      (now later n : ℕ) (s : AuthState S)
      → failures now s ≡ suc n
      → failures later s ≡ suc n
      → now ≤ later
      → failures later (track_failed_login l now (l.lower (l.strip identifier)) s) ≡ suc (suc n)
  unfolding track_failed_login
  track_next now later n s counted still after =
      let key = Key.failed_login account_key in
      let attempts = l.redis.incr_lem now key s.server ∙ ap suc counted in
      let kept = l.redis.count-incr now later n key s.server counted still after in
      ground (
        arith,
        attempts,
        kept,
        l.redis.count-setex now later lockout_ttl_seconds (Key.lockout account_key) key "1"
            (l.redis.incr now key s.server).1 (different_keys account_key account_key),
      )

  track_locks :
      (now later n : ℕ) (s : AuthState S)
      → failures now s ≡ n
      → failed_login_limit ≤ suc n
      → now ≤ later
      → later < now + lockout_ttl_seconds
      → is_account_locked l later
          (l.lower (l.strip identifier))
          (track_failed_login l now (l.lower (l.strip identifier)) s)
        ≡ true
  unfolding track_failed_login is_account_locked
  track_locks now later n s counted many after soon =
      let key = Key.failed_login account_key in
      let attempts = l.redis.incr_lem now key s.server ∙ ap suc counted in
      ground (
        arith,
        attempts,
        l.redis.get-setex now later lockout_ttl_seconds (Key.lockout account_key) "1"
            (l.redis.incr now key s.server).1 after soon,
      )

  -- The count lives for the whole hour, and the fifth failure locks the account for 900 seconds.
  abbrev Counted : ℕ → ℕ → ℕ → AuthState S → Type 0
  Counted start now n s =
      ((later : ℕ) → now ≤ later → later < start + failed_login_ttl_seconds → failures later s ≡ n)
      × (failed_login_limit ≤ n
          → (later : ℕ) → now ≤ later
          → later < now + lockout_ttl_seconds
          → is_account_locked l later (l.lower (l.strip identifier)) s ≡ true)

  Failures-Counted :
      (start now n : ℕ) (s s' : AuthState S)
      → Failures start now n s s'
      → (start ≤ now) × (now < start + failed_login_ttl_seconds) × (0 < n) × Counted start now n s'
  Failures-Counted start now n s s' (first d password _ _ fresh run) =
      let same = sym (login_user_failed d password s s' run) in
      (
        ground arith,
        ground arith,
        ground arith,
        (
          (λ later after soon.
              subst (λ x. failures later x ≡ 1) same (track_first now later s fresh after soon)),
          λ many. absurd (ground arith),
        ),
      )
  Failures-Counted start now n s s' (next _ before zero d password _ s1 _ earlier after soon run) =
      let (_, _, some_failed, _) = Failures-Counted start before 0 s s1 earlier in
      absurd (ground arith)
  Failures-Counted start now n s s'
        (next _ before (suc m) d password _ s1 _ earlier after soon run) =
      let (ordered, _, _, (counts, _)) = Failures-Counted start before (suc m) s s1 earlier in
      let same = sym (login_user_failed d password s1 s' run) in
      let counted = counts d.now after soon in
      (
        ground arith,
        soon,
        ground arith,
        (
          (λ later still in_time.
              subst (λ x. failures later x ≡ suc (suc m)) same
                (track_next d.now later m s1 counted (counts later (ground arith) in_time) still)),
          λ many later still in_time.
              subst (λ x. is_account_locked l later (l.lower (l.strip identifier)) x ≡ true) same
                (track_locks d.now later (suc m) s1 counted many still in_time),
        ),
      )

  -- After at least five failed logins of an identifier, the first of which found no count and the others
  -- of which came within an hour of it, a login with it is refused for 900 seconds from the last one,
  -- whatever its password, and changes nothing.
  pub login_user-Failures :
      (start now n : ℕ) (s s' : AuthState S) (d : Draws) (password : String)
      → Failures start now n s s'
      → failed_login_limit ≤ n
      → now ≤ d.now
      → d.now < now + lockout_ttl_seconds
      → login_user l d identifier password s' ≡ (err Error.account_locked, s')
  unfolding login_user
  login_user-Failures start now n s s' d password failed many after soon =
      let (_, _, _, (_, locks)) = Failures-Counted start now n s s' failed in
      rw (locks many d.now after soon) refl
