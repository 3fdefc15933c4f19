-- ===== src/Models/Redis.antt =====
-- The two Redis commands that keep a pending confirmation (backend/app/db/redis.py gives the client),
-- with what Redis documents of them. `V` is the value whose JSON is stored; the first
-- argument of a command is its time.
use qiki.Base.{ℕ, ◌+◌, ◌≤◌, ◌<◌, ◌≡◌, Option, none, some, String}

pub record Redis (V S : Type 0) : Type 0 where
  pub setex : ℕ → String → ℕ → V → S → S
  pub getdel : ℕ → String → S → Option V × S
  -- A value is there until its time to live is over.
  pub getdel-setex :
      (now later ttl : ℕ) (key : String) (p : V) (s : S)
      → now ≤ later
      → later < now + ttl
      → (getdel later key (setex now key ttl p s)).0 ≡ some p
  -- A key that was taken is gone.
  pub getdel_again :
      (now later : ℕ) (key : String) (s : S) → (getdel later key (getdel now key s).1).0 ≡ none
