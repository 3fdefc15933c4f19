-- ===== src/Coupons/Discount.antt =====
-- What `compute_discount` promises of every coupon and every subtotal.
use qiki.Base.{ℕ, ◌+◌, ◌*◌, ◌%◌, ◌≤◌, ◌≡◌, Option, none, some, arith}
use qiki.Models.Coupon.{DiscountType, Coupon}
use qiki.Coupons.{round_half_even, raw_discount, cap_discount, compute_discount}

-- The rounded quotient is within half a unit of the exact one, and exactly half-way it is even.
round_half_even_nearest :
    (n : ℕ)
    → (2 * n ≤ 2 * (10_000 * round_half_even n) + 10_000)
      × (2 * (10_000 * round_half_even n) ≤ 2 * n + 10_000)
      × (2 * (n % 10_000) ≡ 10_000 → round_half_even n % 2 ≡ 0)
unfolding round_half_even
round_half_even_nearest n = ground arith

pub round_half_even_mono : (m n : ℕ) → m ≤ n → round_half_even m ≤ round_half_even n
unfolding round_half_even
round_half_even_mono m n h = ground arith

-- A coupon's discount is never more than the subtotal, nor more than the coupon's cap.
pub compute_discount_bounds :
    (c : Coupon) (subtotal : ℕ)
    → (compute_discount c subtotal ≤ subtotal)
      × ((top : ℕ) → c.max_discount ≡ some top → compute_discount c subtotal ≤ top)
unfolding compute_discount
compute_discount_bounds c subtotal = (ground arith, λ top e. ground arith)

cap_discount_mono : (o : Option ℕ) (a b : ℕ) → a ≤ b → cap_discount o a ≤ cap_discount o b
unfolding cap_discount
cap_discount_mono none a b h = h
cap_discount_mono (some top) a b h = ground arith

raw_discount_mono : (t : DiscountType) (v a b : ℕ) → a ≤ b → raw_discount t v a ≤ raw_discount t v b
unfolding raw_discount
raw_discount_mono DiscountType.percent v a b h = round_half_even_mono (a * v) (b * v) (grind arith)
raw_discount_mono DiscountType.fixed v a b h = omega arith

-- A larger subtotal never earns a smaller discount.
compute_discount_mono : (c : Coupon) (a b : ℕ) → a ≤ b → compute_discount c a ≤ compute_discount c b
unfolding compute_discount
compute_discount_mono c a b h = ground (
  arith,
  cap_discount_mono c.max_discount (raw_discount c.discount_type c.value a)
      (raw_discount c.discount_type c.value b) (raw_discount_mono c.discount_type c.value a b h),
)
