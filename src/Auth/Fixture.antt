-- ===== src/Auth/Fixture.antt =====
-- A small Redis, two tokens and one account for the tests.
use qiki.Base.{
  ℕ, suc, ◌+◌, ◌<◌, Bool, true, false, Option, none, some, [], ◌∷◌, String, ltb, ◌==◌, ◌≡◌, refl,
  if◌then◌else◌, arith,
}
use text.Mathlib.TextEquality.{eq_iff}
use text.Mathlib.Text.{◌==◌ as str_eq}
use qiki.Models.User.{User, Role}
use qiki.Models.KeyStore.{KeyStore}
use qiki.Auth.{Key, Payload, Library, Draws, AuthState}

abbrev same : Key → Key → Bool
same (Key.failed_login a) (Key.failed_login b) = str_eq a b
same (Key.lockout a) (Key.lockout b) = str_eq a b
same (Key.blacklist a) (Key.blacklist b) = str_eq a b
same (Key.password_reset a) (Key.password_reset b) = str_eq a b
same (Key.email_otp a) (Key.email_otp b) = a == b
same (Key.email_otp_resend a) (Key.email_otp_resend b) = a == b
same _ _ = false

same_refl : (k : Key) → same k k ≡ true
same_refl (Key.failed_login a) = (eq_iff a a).1 refl
same_refl (Key.lockout a) = (eq_iff a a).1 refl
same_refl (Key.blacklist a) = (eq_iff a a).1 refl
same_refl (Key.password_reset a) = (eq_iff a a).1 refl
same_refl (Key.email_otp a) = ground arith
same_refl (Key.email_otp_resend a) = ground arith

-- A text with the end of its time, and a count with the end of its time if it has one.
pub record Server : Type 0 where
  pub texts : Key → Option (String × ℕ)
  pub counts : Key → ℕ × Option ℕ

abbrev put {ℓ} : {A : Type ℓ} → Key → A → (Key → A) → Key → A
put k a f j = if same j k then a else f j

abbrev is_live : ℕ → Option ℕ → Bool
is_live now none = true
is_live now (some end) = ltb now end

abbrev text_at : ℕ → Option (String × ℕ) → Option String
text_at now none = none
text_at now (some (v, end)) = if ltb now end then some v else none

abbrev count_at : ℕ → ℕ × Option ℕ → ℕ
count_at now (n, end) = if is_live now end then n else 0

abbrev kept_end : ℕ → ℕ × Option ℕ → Option ℕ
kept_end now (n, end) = if is_live now end then end else none

abbrev counted : ℕ → ℕ × Option ℕ → ℕ × Option ℕ
counted now c = (suc (count_at now c), kept_end now c)

abbrev increment : ℕ → Key → Server → ℕ × Server
increment now k s = (
  suc (count_at now (s.counts k)),
  record s { counts = put k (counted now (s.counts k)) s.counts },
)

abbrev set_end : ℕ → Key → ℕ → Server → Server
set_end now k ttl s = record s { counts = put k ((s.counts k).0, some (now + ttl)) s.counts }

abbrev set_text : ℕ → Key → ℕ → String → Server → Server
set_text now k ttl v s = record s { texts = put k (some (v, now + ttl)) s.texts }

pub set_text_lem :
    (now later ttl : ℕ) (k : Key) (v : String) (s : Server)
    → later < now + ttl
    → text_at later ((set_text now k ttl v s).texts k) ≡ some v
set_text_lem now later ttl k v s soon = rw (same_refl k) (ground arith)

pub set_end_lem :
    (now later ttl : ℕ) (k : Key) (s : Server)
    → count_at now (s.counts k) ≡ 0
    → later < now + ttl
    → count_at later ((set_end now k ttl (increment now k s).1).counts k) ≡ 1
set_end_lem now later ttl k s fresh soon = rw (same_refl k) (ground (arith, fresh))

counted_lem :
    (now later n : ℕ) (c : ℕ × Option ℕ)
    → count_at now c ≡ suc n
    → count_at later c ≡ suc n
    → count_at later (counted now c) ≡ suc (suc n)
counted_lem now later n (m, none) h still = ground arith
counted_lem now later n (m, some end) h still = ground arith

pub increment_lem :
    (now later n : ℕ) (k : Key) (s : Server)
    → count_at now (s.counts k) ≡ suc n
    → count_at later (s.counts k) ≡ suc n
    → count_at later ((increment now k s).1.counts k) ≡ suc (suc n)
increment_lem now later n k s h still =
    rw (same_refl k) (counted_lem now later n (s.counts k) h still)

abbrev pub redis : KeyStore Key Server
redis = record {
  get = λ now k s. text_at now (s.texts k);
  setex = set_text;
  delete = λ k s. record s { texts = put k none s.texts; counts = put k (0, none) s.counts };
  incr = increment;
  expire = set_end;
  count = λ now k s. count_at now (s.counts k);
  get-setex = λ now later ttl k v s after soon. set_text_lem now later ttl k v s soon;
  incr_lem = λ now k s. refl;
  count-expire = λ now later ttl k s fresh after soon. set_end_lem now later ttl k s fresh soon;
  count-incr = λ now later n k s h still after. increment_lem now later n k s h still;
  count-setex = λ now later ttl j k v s other. refl;
}

abbrev pub refresh_claims : Payload
refresh_claims = record {
  token_type = some "refresh";
  sub = some 5;
  jti = some "j1";
  exp = some 1000;
}

-- One refresh token.
abbrev decoded : ℕ → String → Option Payload
decoded now token =
    if ltb now 1000 then if str_eq token "r1" then some refresh_claims else none else none

pub decoded-exp :
    (now e : ℕ) (token : String) (p : Payload)
    → decoded now token ≡ some p
    → p.exp ≡ some e
    → now < e
decoded-exp now e token p h ends = ground arith

pub decoded_same :
    (now later : ℕ) (token : String) (p q : Payload)
    → decoded now token ≡ some p
    → decoded later token ≡ some q
    → q ≡ p
decoded_same now later token p q h k = ground arith

abbrev pub library : Library Server
library = record {
  redis = redis;
  strip = λ t. t;
  lower = λ t. t;
  validate_phone = λ t. none;
  verify = str_eq;
  hash = λ t. t;
  str_of_id = λ n. "5";
  id_of_str = λ t. some 5;
  encode = λ p. "r2";
  decode = decoded;
  decode-exp = decoded-exp;
  decode_same = decoded_same;
}

abbrev pub at_time : ℕ → Draws
at_time now = record {
  now = now;
  access_jti = "j2";
  refresh_jti = "j3";
  reset_token = "t1";
  otp_code = "123456";
  access_token_expire_minutes = 15;
  refresh_token_expire_days = 7;
}

abbrev pub an : User
an = record {
  id = 5;
  email = some "an";
  phone = none;
  hashed_password = some "secret";
  email_verified = false;
  role = Role.customer;
  is_active = true;
}

abbrev pub calm : AuthState Server
calm = record {
  users = an ∷ [];
  server = record { texts = λ k. none; counts = λ k. (0, none) };
  sent = [];
}
