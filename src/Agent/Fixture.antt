-- ===== src/Agent/Fixture.antt =====
-- Concrete tools and services for the assistant, with a list for Redis.
use qiki.Base.{
  ℕ, ◌+◌, ◌≤◌, ◌<◌, Bool, true, false, Option, none, some, List, [], ◌∷◌, String, ◌≡◌, refl, ltb,
  if◌then◌else◌, arith,
}
use text.Mathlib.Text.{◌==◌ as str_eq}
use text.Mathlib.TextEquality.{eq_iff}
use qiki.Models.Redis.{Redis}
use qiki.Models.User.{Role, User}
use qiki.Agent.Policy.{get_tool_policy}
use qiki.Agent.Gate.{Pending, Libraries, derive_pending_token, store_pending, claim_pending}
use qiki.Agent.Executor.{
  ToolCall, ToolResult, Payload, Outcome, Invocation, Tool, Decision, Run, Wiring, apply_decision,
  check_claimed, run_confirm_gate, authorize, record_audit, audit_call, invoke, execute_call,
  tool_executor,
}
use qiki.Agent.Audit.{expected_audit}
use qiki.Agent.State.{Message, Locale, RetrievedDoc, Services, Context}
use qiki.Agent.Graph.{Turn}

abbrev pub Table : Type 0
Table = List (String × ℕ × Pending)

abbrev setex : ℕ → String → ℕ → Pending → Table → Table
setex now key ttl p s = (key, now + ttl, p) ∷ s

unfoldable pub find : ℕ → String → Table → Option Pending
find now key [] = none
find now key ((k, expiry, p) ∷ s) =
    let rest = find now key s in
    if str_eq k key then (if ltb now expiry then some p else none) else rest

unfoldable pub drop : String → Table → Table
drop key [] = []
drop key ((k, expiry, p) ∷ s) =
    let rest = drop key s in if str_eq k key then rest else (k, expiry, p) ∷ rest

pub find-drop : (now : ℕ) (key : String) (s : Table) → find now key (drop key s) ≡ none
unfolding find drop
find-drop now key [] = refl
find-drop now key ((k, expiry, p) ∷ s) = ground (arith, find-drop now key s)

pub find-setex :
    (now later ttl : ℕ) (key : String) (p : Pending) (s : Table)
    → now ≤ later
    → later < now + ttl
    → find later key (setex now key ttl p s) ≡ some p
unfolding find
find-setex now later ttl key p s h k = ground (arith, (eq_iff key key).1 refl)

abbrev table : Redis Pending Table
table = record {
  setex = setex;
  getdel = λ now key s. (find now key s, drop key s);
  getdel-setex = find-setex;
  getdel_again = λ now later key s. find-drop later key s;
}

abbrev pub libraries : Libraries Table
libraries = record { redis = table; sha256_hexdigest = λ t. t; str_of_id = λ n. "7" }

unfoldable pub agent_code : Unit {0}
unfolding find drop get_tool_policy derive_pending_token store_pending claim_pending apply_decision
    check_claimed run_confirm_gate authorize record_audit audit_call invoke execute_call
    tool_executor expected_audit
agent_code = tt

abbrev pub person : User
person = record {
  id = 7;
  email = none;
  phone = none;
  hashed_password = none;
  email_verified = false;
  role = Role.customer;
  is_active = true;
}

abbrev pub done : Payload
done = record { is_ok = true; products = []; body = "done" }

-- The world counts the orders; the reading tool leaves it alone.
abbrev pub order_tool : Tool ℕ
order_tool args w = (Invocation.answer done, w + 1)

abbrev search_tool : Tool ℕ
search_tool args w = (Invocation.answer done, w)

abbrev both_tools : String → Option (Tool ℕ)
both_tools name =
    if str_eq name "_mock_create_order_example"
    then some order_tool
    else if str_eq name "search_products"
    then some search_tool
    else none

abbrev pub shop : Option User → Wiring ℕ
shop user = record {
  tools = both_tools;
  current_user = user;
  has_confirm_gate = true;
  has_audit_repository = true;
}

abbrev pub order_call : ToolCall
order_call = record { name = "_mock_create_order_example"; args = "{}" }

abbrev pub search_call : ToolCall
search_call = record { name = "search_products"; args = "{}" }

abbrev pub start : Run Table ℕ
start = record { pending = []; world = 0; decisions = []; audit = [] }

abbrev pub order_token : String
order_token = "s:7:_mock_create_order_example:{"

abbrev pub approved : Run Table ℕ
approved = record start { decisions = Decision.dict true (some order_token) ∷ [] }

abbrev pub declined : Run Table ℕ
declined = record start { decisions = Decision.dict false (some order_token) ∷ [] }

approved_run :
    (tool_executor libraries (shop (some person)) 0 "s" (order_call ∷ []) approved).1.world ≡ 1
unfolding agent_code
approved_run = refl

abbrev flags_fire : String → Bool × Option String
flags_fire text = (str_eq text "fire", none)

abbrev pub hotline : RetrievedDoc
hotline = record { id = "1"; title = "Hotline"; content = "Call 114" }

abbrev pub desk : Services ℕ ℕ
desk = record {
  check_query = flags_fire;
  emergency_response = λ l. "Call 114";
  strip_accents = λ t. t;
  json_dumps = λ d. "{}";
  retrieve = λ q k w. ((hotline, k) ∷ [], w + 10);
  render = λ l c h. elim c [
    | Context.tool_results_context rs ↦ "tools"
    | Context.retrieved_docs_context ds ↦ "docs"
  ];
  stream = λ q prompt w. ([], if str_eq prompt "docs" then w + 100 else w + 200);
  provider_name = "model";
  zero_score = 0;
  one_score = 1;
}

abbrev pub thread : String → List ToolResult → Turn ℕ Table ℕ
thread question results = record {
  agent = record {
    messages = Message.human question ∷ [];
    session_id = "s";
    locale = Locale.en;
    confidence = none;
    retrieved_docs = [];
    tool_calls = [];
    tool_results = results;
    is_emergency = false;
    matched_pattern = none;
    turn_count = 1;
    llm_provider = none;
  };
  run = start;
}

abbrev pub old_result : ToolResult
old_result = record { name = "search_products"; is_ok = true; result = Outcome.returned done }
