-- ===== src/Models/Store.antt =====
-- The tables that one database session sees. A method of the services runs inside one transaction;
-- `transaction` is the session dependency of backend/app/db/session.py around it. Requests run one
-- after the other here; the code sees to that only in create_order, which is SERIALIZABLE.
use qiki.Base.{List, Dict, Action, ok, err}
use qiki.Models.Product.{Product}
use qiki.Models.Coupon.{Coupon, CouponRedemption}
use qiki.Models.Order.{Order}

pub record Store : Type 0 where
  pub products : Dict Product
  pub coupons : Dict Coupon
  pub redemptions : List CouponRedemption
  pub orders : Dict Order

-- Commits when the handler returns, rolls back when it raises.
unfoldable pub transaction : {A : Type 0} → Action Store A → Action Store A
transaction m s = let (r, s') = m s in elim r [ ok a ↦ (ok a, s') | err e ↦ (err e, s) ]
