-- ===== src/Auth/Revoked.antt =====
-- Tokens that were revoked (backend/app/services/auth_service.py).
use qiki.Base.{
  ◌∙◌, ap, ℕ, ◌+◌, ◌-◌, ◌≤◌, ◌<◌, true, false, some, String, ok, err, Error, ◌≡◌, refl, inl, inr,
  Result-cases, Option-cases, Bool-cases, leb, if◌then◌else◌, arith,
}
use text.Mathlib.Text.{◌==◌ as str_eq}
use qiki.Auth.{
  Key, Payload, AuthResult, Library, Draws, AuthState, seconds_until_expiry, blacklist_payload,
  is_blacklisted, is_text, account_of,
}
use qiki.Auth.Sessions.{refresh_access_token}

module _ {S : Type 0} (l : Library S) where
  abbrev ttl_of : ℕ → ℕ → ℕ
  ttl_of now e = if leb 1 (e - now) then e - now else 1

  ttl_lem : (now later e : ℕ) → later < e → now ≤ later → later < now + ttl_of now e
  ttl_lem now later e valid after = ground arith

  -- A revoked token stays so as long as it is valid.
  blacklist_payload_lem :
      (now later e : ℕ) (j : String) (p : Payload) (s : AuthState S)
      → p.jti ≡ some j
      → str_eq j "" ≡ false
      → p.exp ≡ some e
      → now ≤ later
      → later < e
      → is_blacklisted l later p (blacklist_payload l now p s) ≡ true
  unfolding is_blacklisted blacklist_payload seconds_until_expiry
  blacklist_payload_lem now later e j p s unique there ends after valid =
      let long_enough : later < now + ttl_of now e = ttl_lem now later e valid after in
      rw (unique, there, ends)
        (rw
          (l.redis.get-setex now later (ttl_of now e) (Key.blacklist j) "1" s.server after
            long_enough)
          refl)

  account_of_revoked :
      (now : ℕ) (token_type : String) (absent : Error) (p : Payload) (s : AuthState S)
      → is_blacklisted l now p s ≡ true
      → (x : Error) × (account_of l now token_type absent p s ≡ err x)
  unfolding account_of
  account_of_revoked now token_type absent p s h =
      elim (Bool-cases (is_text p.token_type token_type)) [
        | inl typed ↦ (Error.token_revoked, ground (arith, typed, h))
        | inr other ↦ (Error.invalid_token, ground (arith, other))
      ]

  refresh_access_token_inv :
      (d : Draws) (token : String) (p : Payload) (s s' : AuthState S) (r : AuthResult)
      → l.decode d.now token ≡ some p
      → refresh_access_token l d token s ≡ (ok r, s')
      → s' ≡ blacklist_payload l d.now p s
  unfolding refresh_access_token
  refresh_access_token_inv d token p s s' r read run =
      elim (Result-cases (account_of l d.now "refresh" Error.inactive_user p s)) [
        | inl (x, refused) ↦ absurd (ground (arith, read, refused))
        | inr (u, accepted) ↦ ground (arith, read, accepted)
      ]

  -- A refresh token that was exchanged once is refused at any later time, before it expires and after.
  -- The token has an id, which is not empty, and an expiry, as create_refresh_token gives them.
  pub refresh_access_token_once :
      (d later : Draws) (token : String) (p : Payload) (j : String) (e : ℕ) (s s' : AuthState S)
      (r : AuthResult)
      → l.decode d.now token ≡ some p
      → p.jti ≡ some j
      → str_eq j "" ≡ false
      → p.exp ≡ some e
      → d.now ≤ later.now
      → refresh_access_token l d token s ≡ (ok r, s')
      → (x : Error) × (refresh_access_token l later token s' ≡ (err x, s'))
  unfolding refresh_access_token
  refresh_access_token_once d later token p j e s s' r read unique there ends after run =
      elim (Option-cases (l.decode later.now token)) [
        | inl refused ↦ (Error.invalid_token, ground (arith, refused))
        | inr (q, again) ↦
            let same = l.decode_same d.now later.now token p q read again in
            let valid = l.decode-exp later.now e token p (again ∙ ap some same) ends in
            let revoked =
              blacklist_payload_lem d.now later.now e j p s unique there ends after valid in
            let (x, refused) = account_of_revoked later.now "refresh" Error.inactive_user p s' (
              ap (is_blacklisted l later.now p) (refresh_access_token_inv d token p s s' r read run)
              ∙ revoked) in
            (x, ground (arith, again, same, refused))
      ]
