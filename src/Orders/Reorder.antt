-- ===== src/Orders/Reorder.antt =====
-- `OrderService.reorder`: a cart rebuilt from a past order at current prices and stock.
use qiki.Base.{
  ℕ, not, Option, none, some, List, [], ◌∷◌, String, Dict, lookup, min, leb, same_id, if◌then◌else◌,
  Error, Action, gets, or_raise, raise_if, ◌>>=◌, ◌>>◌,
}
use qiki.Models.User.{User}
use qiki.Models.Product.{Category, Product, product_price}
use qiki.Models.Order.{OrderItem}
use qiki.Models.Store.{Store}

pub data SkipReason : Type 0 where
  not_found inactive out_of_stock : SkipReason

pub record ReorderItem : Type 0 where
  pub product_id : ℕ
  pub sku : String
  pub name : String
  pub brand : String
  pub size_kg : ℕ
  pub category : Category
  pub unit : String
  pub price : ℕ
  pub quantity : ℕ
  pub image_url : Option String
  pub stock_quantity : ℕ

pub record SkippedReorderItem : Type 0 where
  pub product_id : Option ℕ
  pub product_name : String
  pub reason : SkipReason

pub record ReorderResponse : Type 0 where
  pub items : List ReorderItem
  pub skipped : List SkippedReorderItem

-- One line of the past order: an item of the new cart, or the reason why it is dropped.
pub data Outcome : Type 0 where
  keep : ReorderItem → Outcome
  skip : SkippedReorderItem → Outcome

unfoldable pub find_product : Option ℕ → Dict Product → Option Product
find_product none products = none
find_product (some k) products = lookup k products

unfoldable pub reorder_product : OrderItem → Option Product → Outcome
reorder_product line none = skip (record {
  product_id = line.product_id;
  product_name = line.product_name;
  reason = SkipReason.not_found;
})
reorder_product line (some p) =
    if not p.is_active
    then skip
        (record { product_id = some p.id; product_name = p.name; reason = SkipReason.inactive })
    else if leb p.stock_quantity 0
    then skip
        (record { product_id = some p.id; product_name = p.name; reason = SkipReason.out_of_stock })
    else keep (record {
      product_id = p.id;
      sku = p.sku;
      name = p.name;
      brand = p.brand;
      size_kg = p.size_kg;
      category = p.category;
      unit = p.unit;
      price = product_price p;
      quantity = min line.quantity p.stock_quantity;
      image_url = p.image_url;
      stock_quantity = p.stock_quantity;
    })

unfoldable pub reorder_line : Dict Product → OrderItem → Outcome
unfolding find_product reorder_product
reorder_line products line = reorder_product line (find_product line.product_id products)

unfoldable pub add_outcome : Outcome → ReorderResponse → ReorderResponse
add_outcome (keep i) r = record r { items = i ∷ r.items }
add_outcome (skip i) r = record r { skipped = i ∷ r.skipped }

unfoldable pub reorder_lines : Dict Product → List OrderItem → ReorderResponse
unfolding add_outcome
reorder_lines products [] = record { items = []; skipped = [] }
reorder_lines products (line ∷ lines) =
    add_outcome (reorder_line products line) (reorder_lines products lines)

unfoldable pub reorder : ℕ → User → Action Store ReorderResponse
reorder order_id user = do
  found ← gets (λ s. lookup order_id s.orders)
  o ← or_raise found Error.order_not_found
  raise_if (not (same_id o.user_id user.id)) Error.order_forbidden
  gets (λ s. reorder_lines s.products o.items)
