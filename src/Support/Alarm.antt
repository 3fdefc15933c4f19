-- ===== src/Support/Alarm.antt =====
-- When the hybrid classifier reports an emergency (backend/app/intent/classifier.py).
use qiki.Base.{
  true, false, none, some, String, ◌≡◌, refl, inl, inr, ◌↔◌, ◌<◌, arith, Option-cases, Bool-cases,
}
use qiki.Chat.Cues.{is_bare_category}
use qiki.Support.Intent.{
  IntentCategory, IntentResult, Classifiers, is_safety, double_check, must_check_llm, classify,
}

-- One of the two classifiers sees an emergency in the text. The language model is asked only
-- where the embedding is unavailable or less certain than the threshold.
pub data Alarm (k : Classifiers) (text : String) : Type 0 where
  by_embedding :
      (e : IntentResult)
      → k.embedding text ≡ some e
      → e.category ≡ IntentCategory.safety_emergency
      → Alarm k text
  by_llm :
      (e : IntentResult)
      → k.embedding text ≡ some e
      → e.confidence < k.confidence_threshold
      → (k.llm text).category ≡ IntentCategory.safety_emergency
      → Alarm k text
  by_llm_alone :
      k.embedding text ≡ none
      → (k.llm text).category ≡ IntentCategory.safety_emergency
      → Alarm k text

safety_lem : (c : IntentCategory) → is_safety c ≡ true → c ≡ IntentCategory.safety_emergency
safety_lem IntentCategory.safety_emergency h = refl
safety_lem IntentCategory.product_inquiry h = absurd (ground arith)
safety_lem IntentCategory.place_order h = absurd (ground arith)
safety_lem IntentCategory.delivery_status h = absurd (ground arith)
safety_lem IntentCategory.complaint h = absurd (ground arith)
safety_lem IntentCategory.technical_issue h = absurd (ground arith)
safety_lem IntentCategory.payment_issue h = absurd (ground arith)
safety_lem IntentCategory.general_info h = absurd (ground arith)

module _ (k : Classifiers) (text : String) where
  raised :
      is_bare_category (k.normalize_text text) ≡ false
      → Alarm k text
      → (classify k text).category ≡ IntentCategory.safety_emergency
  unfolding classify must_check_llm double_check
  raised b (by_embedding e p h) = ground arith
  raised b (by_llm e p low h) = ground arith
  raised b (by_llm_alone p h) = ground arith

  seen :
      (classify k text).category ≡ IntentCategory.safety_emergency
      → is_bare_category (k.normalize_text text) ≡ false
  unfolding classify
  seen h = ground arith

  alarm : (classify k text).category ≡ IntentCategory.safety_emergency → Alarm k text
  unfolding classify must_check_llm double_check
  alarm h = elim (Option-cases (k.embedding text)) [
    | inl p ↦ by_llm_alone p (ground arith)
    | inr (e, p) ↦ elim (Bool-cases (is_safety e.category)) [
      | inl safe ↦ by_embedding e p (safety_lem e.category safe)
      | inr unsafe ↦ by_llm e p (ground arith) (ground (arith, safety_lem (k.llm text).category))
    ]
  ]

  -- A message is an emergency exactly when it is not the bare name of a category and one of the
  -- classifiers sees an emergency: the embedding, however little certain, or the language model
  -- where the embedding is unavailable or below the threshold.
  pub classify-Alarm :
      ((classify k text).category ≡ IntentCategory.safety_emergency)
      ↔ ((is_bare_category (k.normalize_text text) ≡ false) × Alarm k text)
  classify-Alarm = (λ h. (seen h, alarm h), λ (b, a). raised b a)
