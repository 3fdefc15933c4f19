-- ===== src/Chat/Items.antt =====
-- The reading of a message and the operations on the items of an order in the chat
-- (backend/app/services/conversation_service.py).
use qiki.Base.{
  ℕ, Bool, true, false, ◌&&◌, not, Option, none, some, List, [], ◌∷◌, ◌++◌, String, select, all,
  any, is_some, ◌==◌, if◌then◌else◌,
}
use qiki.Models.Product.{Category, Product}
use qiki.Chat.Slots.{
  ChatOrderItem, ChatOrderSlots, truthy, or_else, text_of, update_first, or_append, override,
  with_order_items,
}
use qiki.Chat.Cues.{has_add_cue, has_replace_cue, has_remove_cue, is_bare_category}

-- What the service reads out of free text: the normal form of a text, the slots that the language
-- model and the patterns extract, the product of the catalog that a text names, and the tables of
-- wards of backend/app/services/address_lookup.py.
pub record Reader : Type 0 where
  pub normalize_match_text : String → String
  pub strip : String → String
  pub extract_order_slots : String → List Product → ChatOrderSlots
  pub infer_order_slots : String → List Product → ChatOrderSlots
  pub is_product_mentioned : String → ChatOrderItem → List Product → Bool
  pub order_address : Option String → String → Option String
  pub match_product : Option String → List Product → Option Product
  pub display_name : Product → String
  pub mentions_brand : String → List Product → Bool
  pub names_gas_size : String → List Product → Bool
  pub category_filter : String → Option Category
  pub extract_payment_candidate : String → Option String
  pub extract_name_candidate : String → Option String → Option String
  pub extract_phone_candidate : String → Option String
  pub extract_delivery_time_candidate : String → Option String
  pub extract_ambiguous_delivery_time_window : String → Option String
  pub validate_phone : String → Option String
  pub resolves_delivery_zone : String → Bool
  pub khu_pho_is_valid : String → Bool
  pub delivery_notes_with_water_fee : Option String → List (ChatOrderItem × Product) → Option String
  pub str_of_int : ℕ → String
  pub uuid5 : String → ℕ

abbrev same_row : Option Product → Option Product → Bool
same_row (some p) (some q) = q.id == p.id
same_row _ _ = false

-- The candidate adds what the item does not have.
abbrev complete : ChatOrderItem → ChatOrderItem → ChatOrderItem
complete incoming current = record {
  product = or_else current.product incoming.product;
  quantity = if is_some current.quantity then current.quantity else incoming.quantity;
}

abbrev is_gas : Option Category → Bool
is_gas (some Category.gas) = true
is_gas _ = false

pub data ItemOperation : Type 0 where
  set_items add replace_item remove merge_existing ambiguous : ItemOperation

abbrev pub items_of : Option ChatOrderSlots → List ChatOrderItem
items_of none = []
items_of (some s) = s.items

abbrev pub is_empty {ℓ} : {A : Type ℓ} → List A → Bool
is_empty [] = true
is_empty (x ∷ xs) = false

abbrev pub head {ℓ} : {A : Type ℓ} → List A → Option A
head [] = none
head (x ∷ xs) = some x

unfoldable pub remove_first {ℓ} : {A : Type ℓ} → (A → Bool) → List A → List A
remove_first p [] = []
remove_first p (x ∷ xs) = let rest = remove_first p xs in if p x then xs else x ∷ rest

module _ (r : Reader) (products : List Product) where
  -- `_find_matching_item_index`: whether an item names the product of the candidate.
  unfoldable pub matches_item : ChatOrderItem → ChatOrderItem → Bool
  matches_item candidate item =
      same_row (r.match_product candidate.product products) (r.match_product item.product products)

  unfoldable pub merge_candidate_items : List ChatOrderItem → ChatOrderItem → List ChatOrderItem
  merge_candidate_items current incoming =
      or_append (update_first (matches_item incoming) (complete incoming) current) current incoming

  unfoldable pub merge_candidates : List ChatOrderItem → List ChatOrderItem → List ChatOrderItem
  merge_candidates items [] = items
  merge_candidates items (c ∷ candidates) =
      merge_candidates (merge_candidate_items items c) candidates

  unfoldable pub append_order_items : ChatOrderSlots → List ChatOrderItem → ChatOrderSlots
  append_order_items s candidates = with_order_items s (merge_candidates s.items candidates)

  abbrev pub append_order_item : ChatOrderSlots → ChatOrderItem → ChatOrderSlots
  append_order_item s candidate = with_order_items s (s.items ++ candidate ∷ [])

  abbrev replace_head : ChatOrderItem → List ChatOrderItem → List ChatOrderItem
  replace_head candidate [] = candidate ∷ []
  replace_head candidate (i ∷ items) = override candidate i ∷ items

  abbrev or_replace_head :
      Option (List ChatOrderItem) → ChatOrderItem → List ChatOrderItem → List ChatOrderItem
  or_replace_head none candidate items = replace_head candidate items
  or_replace_head (some updated) candidate items = updated

  unfoldable pub replace_first_matching_item : ChatOrderSlots → ChatOrderItem → ChatOrderSlots
  replace_first_matching_item s candidate = with_order_items s (
      or_replace_head (update_first (matches_item candidate) (override candidate) s.items) candidate
        s.items)

  unfoldable pub merge_existing_item : ChatOrderSlots → ChatOrderItem → ChatOrderSlots
  merge_existing_item s candidate = with_order_items s (
      or_append (update_first (matches_item candidate) (override candidate) s.items) s.items
        candidate)

  unfoldable pub merge_existing_items : ChatOrderSlots → List ChatOrderItem → ChatOrderSlots
  merge_existing_items s [] = s
  merge_existing_items s (c ∷ candidates) =
      merge_existing_items (merge_existing_item s c) candidates

  unfoldable pub remove_order_item : ChatOrderSlots → ChatOrderItem → ChatOrderSlots
  remove_order_item s candidate =
      if any (matches_item candidate) s.items
      then with_order_items s (remove_first (matches_item candidate) s.items)
      else s

  unfoldable pub is_bare_category_query : Option String → Bool
  is_bare_category_query query =
      truthy query && is_bare_category (r.normalize_match_text (text_of query))

  unfoldable pub is_incomplete_add_item : ChatOrderItem → Bool
  is_incomplete_add_item i = elim i.product [
    | none ↦ true
    | some product ↦
        let normalized = r.normalize_match_text product in
        is_bare_category_query (some normalized) && is_gas (r.category_filter normalized)
  ]

  abbrev pub drop_incomplete_add_items : ChatOrderSlots → ChatOrderSlots
  drop_incomplete_add_items s =
      with_order_items s (select (λ i. not (is_incomplete_add_item i)) s.items)

  unfoldable pub pending_change_item :
      List ChatOrderItem → List ChatOrderItem → Option ChatOrderItem
  pending_change_item previous pending =
      elim (select (λ i. not (any (matches_item i) previous)) pending) [
        | i ∷ _ ↦ some i
        | [] ↦ head pending
      ]

  -- What the candidates ask for; one that matches nothing is ambiguous, as several are.
  unfoldable pub detect_order_items_operation :
      String → List ChatOrderItem → List ChatOrderItem → Option ItemOperation
  detect_order_items_operation normalized previous candidates =
      let named = select (λ i. truthy i.product) candidates in
      if is_empty named
      then none
      else if has_remove_cue normalized
      then some ItemOperation.remove
      else if has_add_cue normalized
      then some ItemOperation.add
      else if has_replace_cue normalized
      then some ItemOperation.replace_item
      else if is_empty previous
      then some ItemOperation.set_items
      else if all (λ i. any (matches_item i) previous) named
      then some ItemOperation.merge_existing
      else some ItemOperation.ambiguous

  abbrev drops_category : List ChatOrderItem → ChatOrderItem → Bool
  drops_category (i ∷ []) extracted =
      is_bare_category_query i.product
      && is_some (r.match_product extracted.product products)
      && not (is_bare_category_query extracted.product)
  drops_category _ extracted = false

  -- One item that the language model extracted: an item with a product counts only where the message
  -- mentions it.
  unfoldable pub combine_item : String → List ChatOrderItem → ChatOrderItem → List ChatOrderItem
  combine_item content items extracted =
      let mentioned = r.is_product_mentioned content extracted products in
      if truthy extracted.product && not mentioned
      then items
      else merge_candidate_items
          (if truthy extracted.product && drops_category items extracted then [] else items)
          extracted

  unfoldable pub combine_items :
      String → List ChatOrderItem → List ChatOrderItem → List ChatOrderItem
  combine_items content items [] = items
  combine_items content items (e ∷ extracted) =
      combine_items content (combine_item content items e) extracted

  unfoldable pub combine_current_message_slots :
      ChatOrderSlots → ChatOrderSlots → String → ChatOrderSlots
  combine_current_message_slots inferred extracted content = record extracted {
    items = combine_items content inferred.items extracted.items;
    delivery_address = r.order_address extracted.delivery_address content;
  }
