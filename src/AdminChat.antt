-- ===== src/AdminChat.antt =====
-- backend/app/services/admin_chat_service.py: an administrator's command is planned, then confirmed
-- by a one-time token.
pub mod Protocol
mod Tests
use Prim.Native.String.{◌++◌ as str_append}
use qiki.Base.{
  ℕ, zero, suc, Bool, true, false, ◌&&◌, not, Option, none, some, List, [], ◌∷◌, ◌++◌, String, Dict,
  lookup, insert, ◌==◌, if◌then◌else◌, Result, ok, err, Error, Action,
}
use text.Mathlib.Text.{◌==◌ as str_eq}
use qiki.Models.User.{User, is_admin}
use qiki.Models.Product.{Product}
use qiki.Models.Redis.{Redis}

-- A parsed number may be negative.
pub data ℤ : Type 0 where
  pos negsuc : ℕ → ℤ

pub data AdminAction : Type 0 where
  update_price update_stock set_active : AdminAction

pub record ParsedInstruction : Type 0 where
  pub action : AdminAction
  pub price_value : Option ℤ
  pub stock_value : Option ℤ
  pub active_value : Option Bool

-- The one field that an action reads or writes, with its value: `before`, `after` and the
-- `ProductUpdate`.
pub data FieldValue : Type 0 where
  price : ℕ → FieldValue
  stock_quantity : ℕ → FieldValue
  active : Bool → FieldValue

pub record PendingAction : Type 0 where
  pub admin_id : ℕ
  pub product_id : ℕ
  pub instruction : ParsedInstruction
  pub before_snapshot : FieldValue

pub record AdminAuditLog : Type 0 where
  pub admin_id : ℕ
  pub action : AdminAction
  pub target_id : ℕ
  pub before : FieldValue
  pub after : FieldValue

pub data AdminChatStatus : Type 0 where
  unrecognized not_found ambiguous invalid expired stale executed : AdminChatStatus
  confirm_required : String → AdminChatStatus

pub record AdminDesk (S : Type 0) : Type 0 where
  pub products : Dict Product
  pub audit : List AdminAuditLog
  pub pending : S

-- The parser of a command, and the search of the catalog for the product that it names.
pub record Reading : Type 0 where
  pub parse_admin_instruction : String → Option ParsedInstruction
  pub find_matches : String → Dict Product → List Product

is_positive : Option ℤ → Bool
is_positive (some (pos (suc n))) = true
is_positive _ = false

is_natural : Option ℤ → Bool
is_natural (some (pos n)) = true
is_natural _ = false

-- Whether there is an error to report.
unfoldable pub validation_error : ParsedInstruction → Bool
unfolding is_positive is_natural
validation_error parsed = elim parsed.action [
  | AdminAction.update_price ↦ not (is_positive parsed.price_value)
  | AdminAction.update_stock ↦ not (is_natural parsed.stock_value)
  | AdminAction.set_active ↦ false
]

unfoldable pub before_of : AdminAction → Product → FieldValue
before_of AdminAction.update_price p = FieldValue.price p.price
before_of AdminAction.update_stock p = FieldValue.stock_quantity p.stock_quantity
before_of AdminAction.set_active p = FieldValue.active p.is_active

price_of : Option ℤ → Option FieldValue
price_of (some (pos n)) = some (FieldValue.price n)
price_of _ = none

stock_of : Option ℤ → Option FieldValue
stock_of (some (pos n)) = some (FieldValue.stock_quantity n)
stock_of _ = none

active_of : Option Bool → Option FieldValue
active_of none = none
active_of (some b) = some (FieldValue.active b)

-- The new value; none is a value that the database column refuses.
unfoldable pub after_of : ParsedInstruction → Option FieldValue
unfolding price_of stock_of active_of
after_of parsed = elim parsed.action [
  | AdminAction.update_price ↦ price_of parsed.price_value
  | AdminAction.update_stock ↦ stock_of parsed.stock_value
  | AdminAction.set_active ↦ active_of parsed.active_value
]

unfoldable pub set_field : FieldValue → Product → Product
set_field (FieldValue.price n) p = record p { price = n }
set_field (FieldValue.stock_quantity n) p = record p { stock_quantity = n }
set_field (FieldValue.active b) p = record p { is_active = b }

abbrev same_bool : Bool → Bool → Bool
same_bool true b = b
same_bool false b = not b

unfoldable pub same_value : FieldValue → FieldValue → Bool
same_value (FieldValue.price m) (FieldValue.price n) = m == n
same_value (FieldValue.stock_quantity m) (FieldValue.stock_quantity n) = m == n
same_value (FieldValue.active a) (FieldValue.active b) = same_bool a b
same_value _ _ = false

abbrev pub pending_ttl_seconds : ℕ
pending_ttl_seconds = 300

abbrev pub pending_key : String → String
pending_key token = str_append "admin_chat:pending:" token

abbrev pub audit_row : User → PendingAction → FieldValue → FieldValue → AdminAuditLog
audit_row admin p before after = record {
  admin_id = admin.id;
  action = p.instruction.action;
  target_id = p.product_id;
  before = before;
  after = after;
}

abbrev pub pending_of : User → ParsedInstruction → Product → PendingAction
pending_of admin parsed product = record {
  admin_id = admin.id;
  product_id = product.id;
  instruction = parsed;
  before_snapshot = before_of parsed.action product;
}

module _ {S : Type 0} (redis : Redis PendingAction S) (reading : Reading) where
  unfoldable pub store_pending :
      ℕ → String → User → ParsedInstruction → Product → AdminDesk S → AdminDesk S
  store_pending now token admin parsed product d = record d {
    pending =
        redis.setex now (pending_key token) pending_ttl_seconds (pending_of admin parsed product)
          d.pending;
  }

  -- The first message; `token` is the fresh `uuid4().hex`.
  unfoldable pub plan : ℕ → String → String → User → Action (AdminDesk S) AdminChatStatus
  plan now token message admin d = elim (reading.parse_admin_instruction message) [
    | none ↦ (ok AdminChatStatus.unrecognized, d)
    | some parsed ↦ elim (reading.find_matches message d.products) [
      | [] ↦ (ok AdminChatStatus.not_found, d)
      | product ∷ [] ↦ if validation_error parsed then (ok AdminChatStatus.invalid, d) else (
        ok (AdminChatStatus.confirm_required token),
        store_pending now token admin parsed product d,
      )
      | _ ∷ _ ∷ _ ↦ (ok AdminChatStatus.ambiguous, d)
    ]
  ]

  -- `update_product`, then the audit row.
  unfoldable pub commit_change :
      PendingAction → User → Product → Option FieldValue → Action (AdminDesk S) AdminChatStatus
  commit_change p admin product none d =
      (err (if is_admin admin then Error.conflict else Error.admin_required), d)
  commit_change p admin product (some after) d =
      if not (is_admin admin) then (err Error.admin_required, d) else (
        ok AdminChatStatus.executed,
        record d {
          products = insert p.product_id (set_field after product) d.products;
          audit = d.audit ++ audit_row admin p (before_of p.instruction.action product) after ∷ [];
        },
      )

  unfoldable pub apply_pending : PendingAction → User → Action (AdminDesk S) AdminChatStatus
  apply_pending p admin d = elim (lookup p.product_id d.products) [
    | none ↦ (ok AdminChatStatus.not_found, d)
    | some product ↦
        if validation_error p.instruction
        then (ok AdminChatStatus.invalid, d)
        else if not (same_value (before_of p.instruction.action product) p.before_snapshot)
        then (ok AdminChatStatus.stale, d)
        else commit_change p admin product (after_of p.instruction) d
  ]

  unfoldable pub execute_pending : ℕ → String → User → Action (AdminDesk S) AdminChatStatus
  execute_pending now token admin d =
      let (raw, left) = redis.getdel now (pending_key token) d.pending in
      elim raw [
        | none ↦ (ok AdminChatStatus.expired, record d { pending = left })
        | some p ↦
            if not (p.admin_id == admin.id)
            then (ok AdminChatStatus.expired, record d { pending = left })
            else apply_pending p admin (record d { pending = left })
      ]

  -- A confirmation with a token executes it; any other request is planned.
  unfoldable pub handle :
      ℕ → String → String → Bool → Option String → User → Action (AdminDesk S) AdminChatStatus
  handle now fresh message confirm none admin d = plan now fresh message admin d
  handle now fresh message confirm (some token) admin d =
      if confirm && not (str_eq token "")
      then execute_pending now token admin d
      else plan now fresh message admin d
