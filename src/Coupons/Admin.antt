-- ===== src/Coupons/Admin.antt =====
-- The administrator's operations keep every coupon inside the rules of its schema.
use qiki.Base.{
  insert, lookup-insert, lookup-insert_self, lookup, Error, err, Option-cases, inl, inr, ℕ, ◌≤◌,
  ◌<◌, ◌≡◌, true, some, arith, ok,
}
use qiki.Models.User.{User, is_admin}
use qiki.Models.Store.{Store}
use qiki.Models.Coupon.{DiscountType, Coupon}
use qiki.Coupons.{update_coupon, CouponUpdate, validate_update, updated_row, validate_coupon_rules}

-- A percentage is at most 100%, and a window with both ends is not empty.
pub record IsWellFormed (c : Coupon) : Type 0 where
  pub percent_le : c.discount_type ≡ DiscountType.percent → c.value ≤ 10_000
  pub window : (from to : ℕ) → c.starts_at ≡ some from → c.ends_at ≡ some to → from < to

pub validate_coupon_rules-IsWellFormed :
    (c : Coupon) → validate_coupon_rules c ≡ true → IsWellFormed c
unfolding validate_coupon_rules
validate_coupon_rules-IsWellFormed c h = record {
  percent_le = λ e. ground arith;
  window = λ from to e f. ground arith;
}

pub updated_row-IsWellFormed :
    (c : Coupon) (u : CouponUpdate) {c' : Coupon}
    → validate_update c u ≡ ok tt
    → updated_row c u ≡ ok c'
    → IsWellFormed c'
unfolding validate_update updated_row
updated_row-IsWellFormed c u h e = record {
  percent_le = λ p. ground arith;
  window = λ from to p q. ground arith;
}

-- Every stored coupon is well-formed.
abbrev pub AllWellFormed : Store → Type 0
AllWellFormed s = (k : ℕ) (c : Coupon) → lookup k s.coupons ≡ some c → IsWellFormed c

-- What a successful update has read and written.
update_coupon_inv :
    (coupon_id : ℕ) (payload : CouponUpdate) (admin : User) (s : Store) {c' : Coupon} {s' : Store}
    → update_coupon coupon_id payload admin s ≡ (ok c', s')
    → (c : Coupon) × (is_admin admin ≡ true)
      × (lookup coupon_id s.coupons ≡ some c)
      × (validate_update c payload ≡ ok tt)
      × (updated_row c payload ≡ ok c')
      × (s' ≡ record s { coupons = insert coupon_id c' s.coupons })
unfolding update_coupon
update_coupon_inv coupon_id payload admin s e = elim (Option-cases (lookup coupon_id s.coupons)) [
  | inl absent ↦ absurd (ground arith)
  | inr (c, found) ↦ (c, ground arith, found, ground arith, ground arith, ground arith)
]

-- An administrator's partial update, explicit nulls and all, keeps every stored coupon well-formed
-- and stores the row that it returns; nobody else can make one.
update_coupon_lem :
    (coupon_id : ℕ) (payload : CouponUpdate) (admin : User) (s : Store) {c' : Coupon} {s' : Store}
    → AllWellFormed s
    → update_coupon coupon_id payload admin s ≡ (ok c', s')
    → AllWellFormed s' × (lookup coupon_id s'.coupons ≡ some c') × (is_admin admin ≡ true)
update_coupon_lem coupon_id payload admin s {c'} {s'} h e =
    let (c, allowed, found, valid, row, stored) = update_coupon_inv coupon_id payload admin s e in
    let kept = updated_row-IsWellFormed c payload valid row in
    rw stored (
      λ k d q. ground (arith, lookup-insert coupon_id k c' s.coupons, h k d),
      lookup-insert_self coupon_id c' s.coupons,
      allowed,
    )

-- An update that raises has written nothing.
pub update_coupon_err :
    (coupon_id : ℕ) (payload : CouponUpdate) (admin : User) (s : Store) {e : Error} {s' : Store}
    → update_coupon coupon_id payload admin s ≡ (err e, s')
    → s' ≡ s
unfolding update_coupon
update_coupon_err coupon_id payload admin s h = ground arith
