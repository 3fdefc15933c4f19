-- ===== src/Support/Intent.antt =====
-- The intent of a message: the hybrid classifier and the routing to staff (backend/app/intent and
-- backend/app/services/routing_service.py). A confidence is a number of hundredths; the
-- code only compares confidences.
use qiki.Base.{
  ℕ, Bool, true, false, ◌||◌, not, Option, none, some, List, [], ◌∷◌, String, select, take, ltb,
  max, if◌then◌else◌,
}
use qiki.Models.User.{User, Role}
use qiki.Chat.Cues.{is_bare_category}

pub data IntentCategory : Type 0 where
  product_inquiry place_order delivery_status complaint : IntentCategory
  technical_issue safety_emergency payment_issue general_info : IntentCategory

pub record IntentResult : Type 0 where
  pub category : IntentCategory
  pub confidence : ℕ

abbrev pub is_safety : IntentCategory → Bool
is_safety IntentCategory.safety_emergency = true
is_safety _ = false

abbrev pub is_complaint : IntentCategory → Bool
is_complaint IntentCategory.complaint = true
is_complaint _ = false

abbrev pub is_place_order : IntentCategory → Bool
is_place_order IntentCategory.place_order = true
is_place_order _ = false

abbrev pub is_product_inquiry : IntentCategory → Bool
is_product_inquiry IntentCategory.product_inquiry = true
is_product_inquiry _ = false

-- The two classifiers; none says that the embedding service is out of quota.
pub record Classifiers : Type 0 where
  pub normalize_text : String → String
  pub embedding : String → Option IntentResult
  pub llm : String → IntentResult
  pub confidence_threshold : ℕ

unfoldable pub double_check : IntentResult → IntentResult → IntentResult
double_check embedding llm =
    if is_safety embedding.category || is_safety llm.category
    then record {
      category = IntentCategory.safety_emergency;
      confidence = max embedding.confidence llm.confidence;
    }
    else llm

unfoldable pub must_check_llm : ℕ → IntentResult → Bool
must_check_llm threshold embedding =
    is_safety embedding.category || ltb embedding.confidence threshold

unfoldable pub classify : Classifiers → String → IntentResult
classify k text =
    if is_bare_category (k.normalize_text text)
    then record { category = IntentCategory.product_inquiry; confidence = 95 }
    else elim (k.embedding text) [
      | none ↦ k.llm text
      | some embedding ↦
          if not (must_check_llm k.confidence_threshold embedding)
          then embedding
          else double_check embedding (k.llm text)
    ]

pub record IntentRoutingRule : Type 0 where
  pub requires_human : Bool
  pub priority : ℕ

unfoldable pub intent_routing_rules : IntentCategory → IntentRoutingRule
intent_routing_rules IntentCategory.product_inquiry = record {
  requires_human = false;
  priority = 3;
}
intent_routing_rules IntentCategory.place_order = record { requires_human = false; priority = 2 }
intent_routing_rules IntentCategory.delivery_status = record {
  requires_human = false;
  priority = 2;
}
intent_routing_rules IntentCategory.complaint = record { requires_human = true; priority = 1 }
intent_routing_rules IntentCategory.technical_issue = record {
  requires_human = false;
  priority = 2;
}
intent_routing_rules IntentCategory.safety_emergency = record {
  requires_human = true;
  priority = 0;
}
intent_routing_rules IntentCategory.payment_issue = record { requires_human = false; priority = 1 }
intent_routing_rules IntentCategory.general_info = record { requires_human = false; priority = 4 }

pub record RoutingDecision : Type 0 where
  pub requires_human : Bool
  pub priority : ℕ
  pub reason : String
  pub assigned_staff_id : Option ℕ

abbrev is_role : Role → Role → Bool
is_role Role.staff Role.staff = true
is_role Role.admin Role.admin = true
is_role _ _ = false

abbrev pub first {ℓ} : {A : Type ℓ} → List A → Option A
first [] = none
first (x ∷ xs) = some x

-- The active ones among the first 50 users of the role; users stand newest first.
unfoldable pub active_with : Role → List User → List User
active_with role users =
    select (λ u. u.is_active) (take 50 (select (λ u. is_role role u.role) users))

-- Staff, or else an administrator.
unfoldable pub find_available_staff : List User → Option User
find_available_staff users = elim (active_with Role.staff users) [
  | u ∷ _ ↦ some u
  | [] ↦ first (active_with Role.admin users)
]

abbrev id_of : Option User → Option ℕ
id_of none = none
id_of (some u) = some u.id

unfoldable pub route_intent : List User → IntentResult → RoutingDecision
route_intent users result =
    let rule = intent_routing_rules result.category in
    let staff = id_of (find_available_staff users) in
    if is_safety result.category
    then record {
      requires_human = true;
      priority = 0;
      reason = "Safety emergency requires immediate staff attention";
      assigned_staff_id = staff;
    }
    else if rule.requires_human
    then record {
      requires_human = true;
      priority = rule.priority;
      reason = "Intent requires staff";
      assigned_staff_id = staff;
    }
    else record {
      requires_human = false;
      priority = rule.priority;
      reason = "Automatic response allowed";
      assigned_staff_id = none;
    }
