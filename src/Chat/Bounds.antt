-- ===== src/Chat/Bounds.antt =====
-- What the validators of `CheckoutRequest` ask (backend/app/schemas/order.py), as bounds.
use Prim.Native.String.{count}
use qiki.Base.{
  ℕ, ◌≤◌, true, false, Option, none, some, List, [], ◌∷◌, String, All, all, map, leb, ◌&&◌, ◌≡◌,
  ◌↔◌, refl, arith,
}
use qiki.Orders.Checkout.{OrderItemCreate}
use qiki.Models.Product.{Product}
use qiki.Chat.Slots.{ChatOrderSlots, text_of}
use qiki.Chat.Items.{Reader, is_empty}
use qiki.Chat.Review.{
  has_valid_fields, at_most, is_accepted, line_of, matched_order_products, match_order_items,
}

-- The notes, where there are some, have at most so many characters.
abbrev pub AtMost : ℕ → Option String → Type 0
AtMost most none = Unit
AtMost most (some text) = count text ≤ most

pub record InBounds (items : List OrderItemCreate) (customer_name delivery_address : String)
    (delivery_notes : Option String) : Type 0 where
  pub some_line : is_empty items ≡ false
  pub quantities : All (λ (l : OrderItemCreate). (1 ≤ l.quantity) × (l.quantity ≤ 100)) items
  pub name_least : 2 ≤ count customer_name
  pub name_most : count customer_name ≤ 255
  pub address_least : 5 ≤ count delivery_address
  pub address_most : count delivery_address ≤ 500
  pub notes : AtMost 1000 delivery_notes

quantities_all :
    (items : List OrderItemCreate)
    → (all (λ l. leb 1 l.quantity && leb l.quantity 100) items ≡ true)
      ↔ All (λ (l : OrderItemCreate). (1 ≤ l.quantity) × (l.quantity ≤ 100)) items
quantities_all [] = ((λ _. tt), (λ _. refl))
quantities_all (l ∷ items) = (
  (λ h. ((ground arith, ground arith), (quantities_all items).0 (ground arith))),
  (λ h. ground (arith, h.0, (quantities_all items).1 h.1)),
)

at_most-AtMost : (most : ℕ) (text : Option String) → (at_most most text ≡ true) ↔ AtMost most text
at_most-AtMost most none = ((λ _. tt), (λ _. refl))
at_most-AtMost most (some text) = ((λ h. ground arith), (λ h. ground arith))

-- The tests of the validators decide the bounds.
pub has_valid_fields-InBounds :
    (items : List OrderItemCreate) (customer_name delivery_address : String)
    (delivery_notes : Option String)
    → (has_valid_fields items customer_name delivery_address delivery_notes ≡ true)
      ↔ InBounds items customer_name delivery_address delivery_notes
unfolding has_valid_fields
has_valid_fields-InBounds items customer_name delivery_address delivery_notes =
    let lines = quantities_all items in
    let notes = at_most-AtMost 1000 delivery_notes in
    (
      (λ h. record {
        some_line = ground arith;
        quantities = lines.0 (ground arith);
        name_least = ground arith;
        name_most = ground arith;
        address_least = ground arith;
        address_most = ground arith;
        notes = notes.0 (ground arith);
      }),
      (λ h. ground (
        arith,
        h.some_line,
        lines.1 h.quantities,
        h.name_least,
        h.name_most,
        h.address_least,
        h.address_most,
        notes.1 h.notes,
      )),
    )

module _ (r : Reader) (products : List Product) where
  -- The request that the slots make is within the bounds.
  abbrev pub IsAcceptable : ChatOrderSlots → Type 0
  IsAcceptable s =
      InBounds (map line_of (matched_order_products (match_order_items r products s.items)))
        (text_of s.customer_name) (text_of s.delivery_address)
        (r.delivery_notes_with_water_fee s.delivery_notes
          (matched_order_products (match_order_items r products s.items)))

  pub is_accepted-IsAcceptable :
      (s : ChatOrderSlots) → (is_accepted r products s ≡ true) ↔ IsAcceptable s
  unfolding is_accepted
  is_accepted-IsAcceptable s =
      has_valid_fields-InBounds
        (map line_of (matched_order_products (match_order_items r products s.items)))
        (text_of s.customer_name) (text_of s.delivery_address)
        (r.delivery_notes_with_water_fee s.delivery_notes
          (matched_order_products (match_order_items r products s.items)))
