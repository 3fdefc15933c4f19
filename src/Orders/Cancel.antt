-- ===== src/Orders/Cancel.antt =====
-- `update_order_status` and `cancel_order` of the service: who may act, and the stock that comes
-- back.
use qiki.Base.{
  ℕ, Bool, true, false, ◌&&◌, ◌||◌, not, Option, none, some, List, [], ◌∷◌, String, lookup, same_id,
  if◌then◌else◌, Error, Action, gets, or_raise, pure, raise_if, ◌>>=◌, ◌>>◌,
}
use text.Mathlib.Text.{◌==◌ as str_eq}
use qiki.Models.User.{User, is_staff}
use qiki.Models.Order.{OrderStatus, OrderItem, Order, can_be_cancelled}
use qiki.Models.Store.{Store}
use qiki.Stock.{increment_stock}
use qiki.Orders.Status.{may_become, update_status}

-- `if item.product_id: await increment_stock(...)`
unfoldable pub restock_item : Option ℕ → ℕ → Action Store (Unit {0})
restock_item none quantity = pure tt
restock_item (some k) quantity = increment_stock k quantity >> pure tt

-- The loop that gives the items of a cancelled order back to the stock.
unfoldable pub restock : List OrderItem → Action Store (Unit {0})
restock [] = pure tt
restock (i ∷ items) = do restock_item i.product_id i.quantity; restock items

abbrev pub is_cancelled : OrderStatus → Bool
is_cancelled OrderStatus.cancelled = true
is_cancelled _ = false

owner_or_staff : Option User → Order → Bool
owner_or_staff none o = false
owner_or_staff (some u) o = is_staff u || same_id o.user_id u.id

-- `phone and order.customer_phone == phone`
phone_matches : Option String → Order → Bool
phone_matches none o = false
phone_matches (some phone) o = not (str_eq phone "") && str_eq o.customer_phone phone

-- `_ensure_can_view`
unfoldable pub can_view : Order → Option User → Option String → Bool
unfolding owner_or_staff phone_matches
can_view o user phone = owner_or_staff user o || phone_matches phone o

unfoldable pub update_order_status : ℕ → ℕ → OrderStatus → User → Option String → Action Store Order
update_order_status now order_id new_status admin notes = do
  raise_if (not (is_staff admin)) Error.staff_required
  found ← gets (λ s. lookup order_id s.orders)
  o ← or_raise found Error.order_not_found
  raise_if (not (may_become o.status new_status)) Error.invalid_status_transition
  restock (if is_cancelled new_status then o.items else [])
  update_status now order_id new_status notes

unfoldable pub cancel_order :
    ℕ → ℕ → Option User → Option String → Option String → Action Store Order
cancel_order now order_id user reason phone = do
  found ← gets (λ s. lookup order_id s.orders)
  o ← or_raise found Error.order_not_found
  raise_if (not (can_view o user phone)) Error.order_forbidden
  raise_if (not (can_be_cancelled o)) Error.order_not_cancellable
  restock o.items
  update_status now order_id OrderStatus.cancelled reason
