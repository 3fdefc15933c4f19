-- ===== src/Models/User.antt =====
-- backend/app/models/user.py: the account behind a request, and its roles.
use qiki.Base.{ℕ, Bool, true, false, Option, none, some, String}

pub data Role : Type 0 where
  customer staff admin driver : Role

pub record User : Type 0 where
  pub id : ℕ
  pub email : Option String
  pub phone : Option String
  pub hashed_password : Option String
  pub email_verified : Bool
  pub role : Role
  pub is_active : Bool

-- `user.id if user else None`
abbrev pub user_id_of : Option User → Option ℕ
user_id_of none = none
user_id_of (some u) = some u.id

admin_role : Role → Bool
admin_role Role.admin = true
admin_role _ = false

staff_role : Role → Bool
staff_role Role.staff = true
staff_role Role.admin = true
staff_role _ = false

driver_role : Role → Bool
driver_role Role.driver = true
driver_role Role.admin = true
driver_role _ = false

unfoldable pub is_admin : User → Bool
unfolding admin_role
is_admin u = admin_role u.role

unfoldable pub is_staff : User → Bool
unfolding staff_role
is_staff u = staff_role u.role

unfoldable pub is_driver : User → Bool
unfolding driver_role
is_driver u = driver_role u.role
