-- ===== src/Agent/Gate.antt =====
-- backend/app/agent/tools/confirm_gate.py: the pending confirmations, kept in Redis.
use Prim.Native.String.{slice, ◌++◌ as str_append}
use qiki.Base.{ℕ, Option, String}
use qiki.Models.Redis.{Redis}

-- The arguments of a call are their canonical JSON text (`json.dumps(args, sort_keys=True)`).
pub record Pending : Type 0 where
  pub user_id : ℕ
  pub tool_name : String
  pub args : String
  pub before_snapshot : String

-- What the gate takes from libraries: Redis, SHA-256 in hexadecimal, and the text of an identifier.
pub record Libraries (S : Type 0) : Type 0 where
  pub redis : Redis Pending S
  pub sha256_hexdigest : String → String
  pub str_of_id : ℕ → String

abbrev pub pending_ttl_seconds : ℕ
pending_ttl_seconds = 300

abbrev pub empty_snapshot : String
empty_snapshot = "{}"

module _ {S : Type 0} (lib : Libraries S) where
  unfoldable pub derive_pending_token : String → ℕ → String → String → String
  derive_pending_token session_id user_id tool_name args =
      slice
        (lib.sha256_hexdigest (
          str_append session_id (
            str_append ":" (
              str_append (lib.str_of_id user_id)
                (str_append ":" (str_append tool_name (str_append ":" args)))))))
        0 32

  abbrev pub pending_key : String → String
  pending_key token = str_append "agent_tool:pending:" token

  unfoldable pub store_pending : ℕ → String → Pending → S → S
  store_pending now token payload s =
      lib.redis.setex now (pending_key token) pending_ttl_seconds payload s

  unfoldable pub claim_pending : ℕ → String → S → Option Pending × S
  claim_pending now token s = lib.redis.getdel now (pending_key token) s
