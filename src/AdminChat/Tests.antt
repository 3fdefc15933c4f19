-- ===== src/AdminChat/Tests.antt =====
-- The administrator's chat at a concrete catalog, with a list for Redis.
use qiki.Base.{
  ℕ, ◌+◌, ◌≤◌, ◌<◌, true, false, Option, none, some, List, [], ◌∷◌, String, lookup, insert, ◌≡◌,
  refl, ltb, if◌then◌else◌, arith,
}
use text.Mathlib.Text.{◌==◌ as str_eq}
use text.Mathlib.TextEquality.{eq_iff}
use qiki.Models.User.{Role, User, is_admin}
use qiki.Models.Product.{Category, Product}
use qiki.Models.Redis.{Redis}
use qiki.AdminChat.{
  ℤ, AdminAction, ParsedInstruction, PendingAction, AdminDesk, Reading, validation_error, before_of,
  after_of, set_field, same_value, store_pending, plan, commit_change, apply_pending,
  execute_pending, handle,
}

abbrev Table : Type 0
Table = List (String × ℕ × PendingAction)

unfoldable find : ℕ → String → Table → Option PendingAction
find now key [] = none
find now key ((k, expiry, p) ∷ s) =
    let rest = find now key s in
    if str_eq k key then (if ltb now expiry then some p else none) else rest

unfoldable drop : String → Table → Table
drop key [] = []
drop key ((k, expiry, p) ∷ s) =
    let rest = drop key s in if str_eq k key then rest else (k, expiry, p) ∷ rest

find-drop : (now : ℕ) (key : String) (s : Table) → find now key (drop key s) ≡ none
unfolding find drop
find-drop now key [] = refl
find-drop now key ((k, expiry, p) ∷ s) = ground (arith, find-drop now key s)

find-setex :
    (now later ttl : ℕ) (key : String) (p : PendingAction) (s : Table)
    → now ≤ later
    → later < now + ttl
    → find later key ((key, now + ttl, p) ∷ s) ≡ some p
unfolding find
find-setex now later ttl key p s h k = ground (arith, (eq_iff key key).1 refl)

abbrev table : Redis PendingAction Table
table = record {
  setex = λ now key ttl p s. (key, now + ttl, p) ∷ s;
  getdel = λ now key s. (find now key s, drop key s);
  getdel-setex = find-setex;
  getdel_again = λ now later key s. find-drop later key s;
}

unfoldable admin_chat_code : Unit {0}
unfolding find drop lookup insert is_admin validation_error before_of after_of set_field same_value
    store_pending plan commit_change apply_pending execute_pending handle
admin_chat_code = tt

abbrev boss : User
boss = record {
  id = 1;
  email = none;
  phone = none;
  hashed_password = none;
  email_verified = false;
  role = Role.admin;
  is_active = true;
}

abbrev bottle : ℕ → Product
bottle stock = record {
  id = 5;
  sku = "ELF-12";
  name = "Elf 12kg";
  brand = "Elf";
  size_kg = 12;
  category = Category.gas;
  unit = "bottle";
  price = 46_000_000;
  sale_price = none;
  stock_quantity = stock;
  image_url = none;
  is_active = true;
}

abbrev restock_to_20 : ParsedInstruction
restock_to_20 = record {
  action = AdminAction.update_stock;
  price_value = none;
  stock_value = some (ℤ.pos 20);
  active_value = none;
}

abbrev reader : Reading
reader = record {
  parse_admin_instruction = λ m. some restock_to_20;
  find_matches = λ m d. bottle 3 ∷ [];
}

abbrev desk : AdminDesk Table
desk = record { products = (5, bottle 3) ∷ []; audit = []; pending = [] }

abbrev planned : AdminDesk Table
planned = (plan table reader 100 "t" "stock of Elf 12kg to 20" boss desk).1
