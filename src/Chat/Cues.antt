-- ===== src/Chat/Cues.antt =====
-- The cues that a normalized message gives (backend/app/services/conversation_service.py): phrases
-- that it holds, or that it is.
use qiki.Base.{
  Bool, true, ◌&&◌, ◌||◌, Option, none, some, List, [], ◌∷◌, String, any, is_some, if◌then◌else◌,
}
use text.Mathlib.Text.{◌==◌ as str_eq, find?}
use qiki.Models.Order.{PaymentMethod}

-- `phrase in normalized`, for some phrase of the set.
unfoldable pub has_phrase : String → List String → Bool
has_phrase normalized phrases = any (λ phrase. is_some (find? normalized phrase)) phrases

-- `normalized in {...}`
unfoldable pub is_one_of : String → List String → Bool
is_one_of normalized texts = any (str_eq normalized) texts

unfoldable pub has_add_cue : String → Bool
has_add_cue normalized = has_phrase normalized (
    "them" ∷ "them vao" ∷ "them mot" ∷ "them 1" ∷ "lay them" ∷ "cong them" ∷ "co them" ∷ "va " ∷ [])

unfoldable pub is_cancel_add_request : String → Bool
is_cancel_add_request normalized = has_phrase normalized (
    "thoi khong them" ∷ "thoi ko them" ∷ "khong them nua" ∷ "ko them nua" ∷ "khoi them"
    ∷ "khong lay them" ∷ "ko lay them nua" ∷ "khong lay them nua" ∷ "khoi lay them" ∷ [])

unfoldable pub has_replace_cue : String → Bool
has_replace_cue normalized =
    has_phrase normalized ("doi" ∷ "doi sang" ∷ "doi qua" ∷ "doi thanh" ∷ "thay" ∷ "thay bang" ∷ [])

unfoldable pub has_remove_cue : String → Bool
has_remove_cue normalized = has_phrase normalized ("bo" ∷ "xoa" ∷ "huy" ∷ [])

abbrev cancel_phrases : List String
cancel_phrases =
    "huy don" ∷ "huy dat" ∷ "thoi khong dat" ∷ "khong dat nua" ∷ "dung dat" ∷ "khong mua nua" ∷ []

unfoldable pub is_order_cancel_request : String → Bool
is_order_cancel_request normalized =
    is_one_of normalized ("huy" ∷ cancel_phrases) || has_phrase normalized cancel_phrases

abbrev negation_phrases : List String
negation_phrases = "ko phai" ∷ "khong phai" ∷ "khong doi" ∷ "giu nguyen" ∷ []

unfoldable pub is_negation : String → Bool
is_negation normalized =
    is_one_of normalized ("ko" ∷ "khong" ∷ "k" ∷ "thoi" ∷ negation_phrases)
    || has_phrase normalized negation_phrases

unfoldable pub is_keep_previous_product_request : String → Bool
is_keep_previous_product_request normalized = has_phrase normalized (
    "giu cu" ∷ "giu san pham cu" ∷ "lay cu" ∷ "lay san pham cu" ∷ "khong doi" ∷ "khong doi nua"
    ∷ [])

unfoldable pub is_affirmation : String → Bool
is_affirmation normalized =
    is_one_of normalized (
      "dung" ∷ "dung r" ∷ "dung roi" ∷ "ok" ∷ "okay" ∷ "uh" ∷ "u" ∷ "phai" ∷ "phai roi" ∷ "xac nhan"
      ∷ [])
    || has_phrase normalized ("dung roi" ∷ "phai roi" ∷ "xac nhan" ∷ "dong y" ∷ "chot don" ∷ [])

-- Whether the message asks for a change of an order that is placed; the first argument says whether
-- it names a payment method.
unfoldable pub is_post_order_change_request : Bool → String → Bool
is_post_order_change_request names_payment normalized =
    if names_payment
      && has_phrase normalized
          ("doi" ∷ "doi sang" ∷ "chuyen sang" ∷ "thay doi" ∷ "sua" ∷ "cap nhat" ∷ [])
    then true
    else has_phrase normalized (
        "doi thong tin" ∷ "sua thong tin" ∷ "cap nhat thong tin" ∷ "doi hinh thuc" ∷ "sua hinh thuc"
        ∷ [])

unfoldable pub is_bare_category : String → Bool
is_bare_category normalized = is_one_of normalized ("nuoc" ∷ "nuoc uong" ∷ "gas" ∷ "binh gas" ∷ [])

unfoldable pub normalize_payment_method : String → Option PaymentMethod
normalize_payment_method normalized =
    if is_one_of normalized ("cod" ∷ "cash" ∷ "tien mat" ∷ [])
      || has_phrase normalized ("nhan hang" ∷ [])
    then some PaymentMethod.cod
    else if is_one_of normalized
          ("bank transfer" ∷ "bank_transfer" ∷ "chuyen khoan" ∷ "ck" ∷ "bank" ∷ "banking" ∷ [])
        || has_phrase normalized ("khoan" ∷ [])
    then some PaymentMethod.bank_transfer
    else none

unfoldable pub is_explicit_human_request : String → Bool
is_explicit_human_request normalized = has_phrase normalized (
    "gap nhan vien" ∷ "gap nguoi that" ∷ "cho gap nhan vien" ∷ "cho gap nguoi that"
    ∷ "goi nhan vien" ∷ "goi nguoi that" ∷ "chuyen nhan vien" ∷ "chuyen nguoi that"
    ∷ "can nhan vien" ∷ "keu nhan vien" ∷ "keu nguoi" ∷ "noi chuyen voi nhan vien" ∷ "gap nguoi"
    ∷ "can gap nguoi" ∷ "muon gap nhan vien" ∷ [])
