-- ===== src/Models/KeyStore.antt =====
-- The Redis commands that the authentication calls, with what Redis documents of them. `K` is the key
-- and `S` the state of the server; the first argument of a command that reads a time to live is its
-- time in seconds.
use qiki.Base.{ℕ, suc, ◌+◌, ◌≤◌, ◌<◌, ◌≡◌, Option, some, String}

pub record KeyStore (K S : Type 0) : Type 0 where
  pub get : ℕ → K → S → Option String
  pub setex : ℕ → K → ℕ → String → S → S
  pub delete : K → S → S
  pub incr : ℕ → K → S → ℕ × S
  pub expire : ℕ → K → ℕ → S → S
  -- The count that a key holds at a time, zero without one.
  pub count : ℕ → K → S → ℕ
  -- A value is there until its time to live is over.
  pub get-setex :
      (now later ttl : ℕ) (k : K) (v : String) (s : S)
      → now ≤ later
      → later < now + ttl
      → get later k (setex now k ttl v s) ≡ some v
  pub incr_lem : (now : ℕ) (k : K) (s : S) → (incr now k s).0 ≡ suc (count now k s)
  -- The first increment creates the key, and its time to live then is the given one.
  pub count-expire :
      (now later ttl : ℕ) (k : K) (s : S)
      → count now k s ≡ 0
      → now ≤ later
      → later < now + ttl
      → count later k (expire now k ttl (incr now k s).1) ≡ 1
  -- A later increment keeps the time to live, so the new count is there as long as the old one was.
  pub count-incr :
      (now later n : ℕ) (k : K) (s : S)
      → count now k s ≡ suc n
      → count later k s ≡ suc n
      → now ≤ later
      → count later k (incr now k s).1 ≡ suc (suc n)
  pub count-setex :
      (now later ttl : ℕ) (j k : K) (v : String) (s : S)
      → (j ≡ k → ⊥)
      → count later k (setex now j ttl v s) ≡ count later k s
