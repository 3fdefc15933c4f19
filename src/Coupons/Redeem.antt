-- ===== src/Coupons/Redeem.antt =====
-- Redemption at checkout: no limit is exceeded, and the counter of a coupon is the number of its rows.
use qiki.Base.{
  ◌≢◌, ◌&&◌, same_id, ◌<◌, none, ℕ, ◌+◌, ◌≤◌, ◌≡◌, refl, inl, inr, Bool, false, Option, some, List,
  [], ◌∷◌, ◌++◌, arith, Dict, IsTable, lookup, lookup-insert, lookup-IsTable, insert-IsTable,
  select, length, String, ◌==◌, ok, Option-cases, if◌then◌else◌,
}
use text.Mathlib.TextEquality.{eq_iff}
use qiki.Models.User.{User, user_id_of}
use qiki.Models.Coupon.{Coupon, CouponRedemption}
use qiki.Models.Store.{Store}
use qiki.Coupons.{
  reached, get_by_code, check_eligibility, check_user_limit, apply_coupon, record_redemption,
  compute_discount, count_user_redemptions,
}

-- The rows that record a use of a coupon.
abbrev pub redemptions_of : ℕ → List CouponRedemption → List CouponRedemption
redemptions_of coupon_id = select (λ r. r.coupon_id == coupon_id)

abbrev pub WithinLimit : Coupon → Type 0
WithinLimit c = (limit : ℕ) → c.usage_limit ≡ some limit → c.used_count ≤ limit

-- The coupon table is keyed by identifier, no coupon is used more often than its limit, and each
-- counter is the number of recorded redemptions.
pub record IsLedger (s : Store) : Type 0 where
  pub table : IsTable (λ (c : Coupon). c.id) s.coupons
  pub within : (k : ℕ) (c : Coupon) → lookup k s.coupons ≡ some c → WithinLimit c
  pub counted :
      (k : ℕ) (c : Coupon)
      → lookup k s.coupons ≡ some c
      → c.used_count ≡ length (redemptions_of k s.redemptions)

pub get_by_code-lookup :
    (code : String) (d : Dict Coupon) (c : Coupon)
    → IsTable (λ (c : Coupon). c.id) d
    → get_by_code code d ≡ some c
    → (lookup c.id d ≡ some c) × (c.code ≡ code)
unfolding get_by_code lookup
get_by_code-lookup code [] c h e = cc
get_by_code-lookup code ((k, c₀) ∷ d) c h e = ground (
  arith,
  eq_iff c₀.code code,
  get_by_code-lookup code d c h.2,
  lookup-IsTable (λ (c : Coupon). c.id) c.id c d h.2,
)

length-select-append {ℓ} :
    {A : Type ℓ} (p : A → Bool) (xs : List A) (y : A)
    → length (select p (xs ++ (y ∷ []))) ≡ length (select p xs) + (if p y then 1 else 0)
length-select-append p [] y = ground arith
length-select-append p (x ∷ xs) y = ground (arith, length-select-append p xs y)

-- A coupon that `apply_coupon` accepts is stored under its identifier and has a use left.
pub apply_coupon_lem :
    (now : ℕ) (code : String) (subtotal : ℕ) (user : Option User) (s : Store) {c : Coupon}
    {discount : ℕ} {s' : Store}
    → IsTable (λ (c : Coupon). c.id) s.coupons
    → apply_coupon now code subtotal user s ≡ (ok (c, discount), s')
    → (s' ≡ s)
      × (lookup c.id s.coupons ≡ some c)
      × (c.code ≡ code)
      × (reached c.usage_limit c.used_count ≡ false)
      × (check_user_limit c.per_user_limit c.id user s.redemptions ≡ ok tt)
      × (discount ≡ compute_discount c subtotal)
unfolding apply_coupon check_eligibility
apply_coupon_lem now code subtotal user s {c} table e =
    elim (Option-cases (get_by_code code s.coupons)) [
      | inl none_found ↦ ground arith
      | inr (found, p) ↦ ground (arith, get_by_code-lookup code s.coupons found table p)
    ]

-- Recording a redemption of a stored coupon with a use left keeps the ledger.
pub record_redemption-IsLedger :
    (now : ℕ) (c : Coupon) (user_id : Option ℕ) (order_id : ℕ) (s : Store)
    → IsLedger s
    → lookup c.id s.coupons ≡ some c
    → reached c.usage_limit c.used_count ≡ false
    → IsLedger (record_redemption now c user_id order_id s).1
unfolding record_redemption
record_redemption-IsLedger now c user_id order_id s h stored free =
    let new : Coupon = record c { used_count = c.used_count + 1 } in
    record {
      table = insert-IsTable (λ (c : Coupon). c.id) new s.coupons h.table;
      within = λ k d e limit lim. ground (
        arith,
        lookup-insert c.id k new s.coupons,
        h.within k d,
        λ (q : lookup k s.coupons ≡ some d). h.within k d q limit,
      );
      counted = λ k d e. ground (
        arith,
        lookup-insert c.id k new s.coupons,
        h.counted k d,
        h.counted c.id c stored,
        length-select-append (λ (r : CouponRedemption). r.coupon_id == k) s.redemptions
            (record { coupon_id = c.id; user_id = user_id; order_id = order_id; created_at = now }),
      );
    }

-- A redemption by a coupon that checkout accepts keeps the ledger: the table stays keyed by
-- identifier, no usage limit is exceeded, and every counter is the number of its recorded rows.
pub redeem-IsLedger :
    (now : ℕ) (code : String) (subtotal : ℕ) (user : Option User) (order_id : ℕ) (s : Store)
    {c : Coupon} {discount : ℕ} {s' : Store}
    → IsLedger s
    → apply_coupon now code subtotal user s ≡ (ok (c, discount), s')
    → IsLedger (record_redemption now c (user_id_of user) order_id s').1
redeem-IsLedger now code subtotal user order_id s {c} h e =
    let (same, stored, named, free, limited, value) =
      apply_coupon_lem now code subtotal user s h.table e in
    rw same (record_redemption-IsLedger now c (user_id_of user) order_id s h stored free)

check_user_limit_user :
    (limit coupon_id : ℕ) (u : User) (o : Option ℕ) (rows : List CouponRedemption)
    → o ≡ some limit
    → check_user_limit o coupon_id (some u) rows ≡ ok tt
    → count_user_redemptions coupon_id u.id rows < limit
unfolding check_user_limit
check_user_limit_user limit coupon_id u o rows e h = ground arith

check_user_limit_guest :
    (limit coupon_id : ℕ) (o : Option ℕ) (rows : List CouponRedemption)
    → o ≡ some limit
    → check_user_limit o coupon_id none rows ≢ ok tt
unfolding check_user_limit
check_user_limit_guest limit coupon_id o rows e h = ground arith

count_user_redemptions-record :
    (now : ℕ) (c : Coupon) (u order_id : ℕ) (s : Store)
    → count_user_redemptions c.id u (record_redemption now c (some u) order_id s).1.redemptions
      ≡ count_user_redemptions c.id u s.redemptions + 1
unfolding count_user_redemptions record_redemption
count_user_redemptions-record now c u order_id s = ground (
  arith,
  length-select-append (λ (r : CouponRedemption). (r.coupon_id == c.id) && same_id r.user_id u)
      s.redemptions
      (record { coupon_id = c.id; user_id = some u; order_id = order_id; created_at = now }),
)

-- Where a coupon has a limit per account, checkout refuses a guest, and after the redemption the
-- account has used the coupon at most that often.
redeem_per_user :
    (now : ℕ) (code : String) (subtotal : ℕ) (user : Option User) (order_id limit : ℕ) (s : Store)
    {c : Coupon} {discount : ℕ} {s' : Store}
    → IsLedger s
    → apply_coupon now code subtotal user s ≡ (ok (c, discount), s')
    → c.per_user_limit ≡ some limit
    → (u : User) × (user ≡ some u)
      × (count_user_redemptions c.id u.id
            (record_redemption now c (user_id_of user) order_id s').1.redemptions
          ≤ limit)
redeem_per_user now code subtotal none order_id limit s {c} h e lim =
    let (_, _, _, _, limited, _) = apply_coupon_lem now code subtotal none s h.table e in
    absurd (check_user_limit_guest limit c.id c.per_user_limit s.redemptions lim limited)
redeem_per_user now code subtotal (some u) order_id limit s {c} h e lim =
    let (same, _, _, _, limited, _) = apply_coupon_lem now code subtotal (some u) s h.table e in
    let below = check_user_limit_user limit c.id u c.per_user_limit s.redemptions lim limited in
    (u, refl, rw (same, count_user_redemptions-record now c u.id order_id s) (omega arith))
