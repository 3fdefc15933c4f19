-- ===== src/Orders/Status.antt =====
-- The life cycle of an order: the transition table and the repository's `update_status`.
use qiki.Base.{
  ℕ, Bool, not, Option, none, some, String, List, [], ◌∷◌, any, lookup, insert, if◌then◌else◌,
  Action, Error, gets, or_raise, modify, raise_if, ◌>>=◌, ◌>>◌,
}
use text.Mathlib.Text.{◌==◌ as str_eq}
use qiki.Models.Order.{OrderStatus, same_order_status, Order}
use qiki.Models.Store.{Store}

abbrev pub allowed_status_transitions : OrderStatus → List OrderStatus
allowed_status_transitions OrderStatus.pending = OrderStatus.confirmed ∷ OrderStatus.cancelled ∷ []
allowed_status_transitions OrderStatus.confirmed = OrderStatus.shipping ∷ OrderStatus.cancelled ∷ []
allowed_status_transitions OrderStatus.shipping = OrderStatus.delivered ∷ OrderStatus.cancelled ∷ []
allowed_status_transitions OrderStatus.delivered = []
allowed_status_transitions OrderStatus.cancelled = []

-- `new_status in ALLOWED_STATUS_TRANSITIONS[status]`
unfoldable pub may_become : OrderStatus → OrderStatus → Bool
may_become status new_status =
    any (same_order_status new_status) (allowed_status_transitions status)

-- `if notes:` holds of a text that is not empty.
abbrev keep_notes : Option String → Option String → Option String
keep_notes none old = old
keep_notes (some n) old = if str_eq n "" then old else some n

abbrev delivered_time : OrderStatus → ℕ → Option ℕ → Option ℕ
delivered_time OrderStatus.delivered now old = some now
delivered_time _ now old = old

abbrev cancelled_time : OrderStatus → ℕ → Option ℕ → Option ℕ
cancelled_time OrderStatus.cancelled now old = some now
cancelled_time _ now old = old

abbrev cancel_reason : OrderStatus → Option String → Option String → Option String
cancel_reason OrderStatus.cancelled notes old = notes
cancel_reason _ notes old = old

unfoldable pub with_status : OrderStatus → Option String → ℕ → Order → Order
with_status new_status notes now o = record o {
  status = new_status;
  internal_notes = keep_notes notes o.internal_notes;
  delivered_at = delivered_time new_status now o.delivered_at;
  cancelled_at = cancelled_time new_status now o.cancelled_at;
  cancelled_reason = cancel_reason new_status notes o.cancelled_reason;
}

abbrev pub put_order : ℕ → Order → Store → Store
put_order order_id o s = record s { orders = insert order_id o s.orders }

unfoldable pub update_status : ℕ → ℕ → OrderStatus → Option String → Action Store Order
update_status now order_id new_status notes = do
  found ← gets (λ s. lookup order_id s.orders)
  o ← or_raise found Error.order_not_found
  raise_if (not (may_become o.status new_status)) Error.invalid_status_transition
  modify (put_order order_id (with_status new_status notes now o))
  gets (λ s. with_status new_status notes now o)
