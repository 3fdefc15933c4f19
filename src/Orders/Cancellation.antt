-- ===== src/Orders/Cancellation.antt =====
-- Status changes and cancellations: who may make them, and the units that come back.
use qiki.Base.{
  ℕ, ◌+◌, ◌≡◌, ◌≢◌, ◌⊎◌, inl, inr, true, Option, some, String, arith, lookup, lookup-insert_self,
  ok, Option-cases, Result-cases,
}
use qiki.Models.User.{User, is_staff}
use qiki.Models.Order.{OrderStatus, Order, can_be_cancelled}
use qiki.Models.Store.{Store, transaction}
use qiki.Stock.Levels.{stock_of}
use qiki.Orders.Status.{may_become, with_status}
use qiki.Orders.Cancel.{restock, can_view, update_order_status, cancel_order}
use qiki.Orders.Lines.{units_of}
use qiki.Orders.Inventory.{inventory}
use qiki.Orders.Restock.{restock_lem, returned, after, update_status-after, inventory-after}

-- What a status change by the staff has checked, when it succeeds.
update_order_status_inv :
    (now order_id : ℕ) (new_status : OrderStatus) (admin : User) (notes : Option String) (s : Store)
    {o' : Order} {s' : Store}
    → update_order_status now order_id new_status admin notes s ≡ (ok o', s')
    → (o : Order) × (is_staff admin ≡ true)
      × (found : lookup order_id s.orders ≡ some o) × (may_become o.status new_status ≡ true)
      × ((restock (returned new_status o) s).0 ≡ ok tt)
      × (o' ≡ with_status new_status notes now o)
      × (s' ≡ after now order_id new_status notes o s)
unfolding update_order_status
update_order_status_inv now order_id new_status admin notes s e =
    elim (Option-cases (lookup order_id s.orders)) [
      | inl absent ↦ absurd (ground arith)
      | inr (o, found) ↦ elim (Result-cases (restock (returned new_status o) s).0) [
        | inl (f, failed) ↦ absurd (ground arith)
        | inr (_, done) ↦
            let allowed : may_become o.status new_status ≡ true = ground arith in
            let run = update_status-after now order_id new_status notes o s found allowed done in
            (o, ground arith, found, allowed, done, ground (arith, run), ground (arith, run))
      ]
    ]

-- Where the staff changes an order's status, in whatever way the request ends, every product has as
-- many units on hand and in live orders together as before: a failed request is rolled back.
inventory-update_order_status :
    (now order_id : ℕ) (new_status : OrderStatus) (admin : User) (notes : Option String) (s : Store)
    (k : ℕ)
    → inventory k (transaction (update_order_status now order_id new_status admin notes) s).1
      ≡ inventory k s
unfolding transaction
inventory-update_order_status now order_id new_status admin notes s k =
    elim (Result-cases (update_order_status now order_id new_status admin notes s).0) [
      | inl (e, failed) ↦ ground arith
      | inr (o', run) ↦
          let end = (update_order_status now order_id new_status admin notes s).1 in
          let e : update_order_status now order_id new_status admin notes s ≡ (ok o', end) =
            ground arith in
          let (o, _, found, allowed, done, _, stored) =
            update_order_status_inv now order_id new_status admin notes s e in
          ground
            (arith, stored, inventory-after now order_id new_status notes o s found allowed done k)
    ]

-- A status change that succeeds was made by the staff, along the table of transitions; the order is
-- stored with the new status, and keeps its items and its amounts.
update_order_status_lem :
    (now order_id : ℕ) (new_status : OrderStatus) (admin : User) (notes : Option String) (s : Store)
    {o' : Order} {s' : Store}
    → update_order_status now order_id new_status admin notes s ≡ (ok o', s')
    → (o : Order) × (is_staff admin ≡ true)
      × (lookup order_id s.orders ≡ some o)
      × (may_become o.status new_status ≡ true)
      × (lookup order_id s'.orders ≡ some o')
      × (o'.status ≡ new_status)
      × (o'.items ≡ o.items)
      × (o'.total_amount ≡ o.total_amount)
unfolding with_status
update_order_status_lem now order_id new_status admin notes s {o'} e =
    let (o, staff, found, allowed, done, row, stored) =
      update_order_status_inv now order_id new_status admin notes s e in
    let restocked = restock_lem (returned new_status o) s done in
    (
      o,
      staff,
      found,
      allowed,
      ground (
        arith,
        row,
        stored,
        lookup-insert_self order_id (with_status new_status notes now o)
            (restock (returned new_status o) s).1.orders,
      ),
      ground (arith, row),
      ground (arith, row),
      ground (arith, row),
    )

-- What a cancellation has checked, when it succeeds.
cancel_order_inv :
    (now order_id : ℕ) (user : Option User) (reason phone : Option String) (s : Store) {o' : Order}
    {s' : Store}
    → cancel_order now order_id user reason phone s ≡ (ok o', s')
    → (o : Order) × (can_view o user phone ≡ true)
      × (can_be_cancelled o ≡ true)
      × (found : lookup order_id s.orders ≡ some o) × (may_become o.status OrderStatus.cancelled
          ≡ true)
      × ((restock o.items s).0 ≡ ok tt)
      × (o' ≡ with_status OrderStatus.cancelled reason now o)
      × (s' ≡ after now order_id OrderStatus.cancelled reason o s)
unfolding cancel_order can_be_cancelled may_become
cancel_order_inv now order_id user reason phone s e =
    elim (Option-cases (lookup order_id s.orders)) [
      | inl absent ↦ absurd (ground arith)
      | inr (o, found) ↦ elim (Result-cases (restock o.items s).0) [
        | inl (f, failed) ↦ absurd (ground arith)
        | inr (_, done) ↦
            let allowed : may_become o.status OrderStatus.cancelled ≡ true = ground arith in
            let run =
              update_status-after now order_id OrderStatus.cancelled reason o s found allowed
                done in
            (
              o,
              ground arith,
              ground arith,
              found,
              allowed,
              done,
              ground (arith, run),
              ground (arith, run),
            )
      ]
    ]

cancelled_stays :
    (now order_id : ℕ) (user : Option User) (reason phone : Option String) (s : Store)
    (o o' : Order)
    → lookup order_id s.orders ≡ some o
    → o.status ≡ OrderStatus.cancelled
    → (cancel_order now order_id user reason phone s).0 ≢ ok o'
unfolding cancel_order can_be_cancelled
cancelled_stays now order_id user reason phone s o o' e h run = ground arith

-- A cancellation, too, in whatever way the request ends, loses no unit of any product.
pub inventory-cancel_order :
    (now order_id : ℕ) (user : Option User) (reason phone : Option String) (s : Store) (k : ℕ)
    → inventory k (transaction (cancel_order now order_id user reason phone) s).1 ≡ inventory k s
unfolding transaction
inventory-cancel_order now order_id user reason phone s k =
    elim (Result-cases (cancel_order now order_id user reason phone s).0) [
      | inl (e, failed) ↦ ground arith
      | inr (o', run) ↦
          let end = (cancel_order now order_id user reason phone s).1 in
          let e : cancel_order now order_id user reason phone s ≡ (ok o', end) = ground arith in
          let (o, _, _, found, allowed, done, _, stored) =
            cancel_order_inv now order_id user reason phone s e in
          ground (
            arith,
            stored,
            inventory-after now order_id OrderStatus.cancelled reason o s found allowed done k,
          )
    ]

-- A cancellation that succeeds was asked for by the owner, the staff or the holder of the order's
-- phone, of an order that was pending or confirmed. It puts the order's units back on the shelves and
-- stores the order as cancelled, and no second cancellation of it succeeds, whoever asks.
pub cancel_order_lem :
    (now order_id : ℕ) (user : Option User) (reason phone : Option String) (s : Store) {o' : Order}
    {s' : Store}
    → cancel_order now order_id user reason phone s ≡ (ok o', s')
    → ((o : Order) × (lookup order_id s.orders ≡ some o)
        × (can_view o user phone ≡ true)
        × ((o.status ≡ OrderStatus.pending) ⊎ (o.status ≡ OrderStatus.confirmed))
        × ((k : ℕ) → stock_of k s' ≡ stock_of k s + units_of k o.items))
      × (lookup order_id s'.orders ≡ some o')
      × (o'.status ≡ OrderStatus.cancelled)
      × ((later : ℕ) (user' : Option User) (reason' phone' : Option String) (o'' : Order)
          → (cancel_order later order_id user' reason' phone' s').0 ≢ ok o'')
cancel_order_lem now order_id user reason phone s {o'} {s'} e =
    let (o, seen, live, found, allowed, done, row, stored) =
      cancel_order_inv now order_id user reason phone s e in
    let d = restock_lem o.items s done in
    let kept : lookup order_id s'.orders ≡ some o' = ground (
      arith,
      row,
      stored,
      lookup-insert_self order_id (with_status OrderStatus.cancelled reason now o)
          (restock o.items s).1.orders,
    ) in
    let status : o'.status ≡ OrderStatus.cancelled = unfold with_status in ground (arith, row) in
    (
      (
        o,
        found,
        seen,
        unfold can_be_cancelled in ground arith,
        λ k. ground (arith, stored, d.stock k),
      ),
      kept,
      status,
      λ later user' reason' phone' o''.
          cancelled_stays later order_id user' reason' phone' s' o' o'' kept status,
    )
