-- ===== src/Agent/Nodes.antt =====
-- The nodes of backend/app/agent/nodes besides the tool executor.
use Prim.Native.String.{◌++◌ as str_append}
use qiki.Base.{
  ◌+◌, Bool, true, false, ◌&&◌, not, Option, none, some, List, [], ◌∷◌, ◌++◌, String, any, map,
  is_some, if◌then◌else◌,
}
use text.Mathlib.Text.{◌==◌ as str_eq, find?}
use qiki.Agent.Executor.{ToolResult, Outcome}
use qiki.Agent.State.{
  Message, Locale, AgentState, JsonValue, StreamChunk, Context, Services, last_human_text,
  drop_last, take_chars,
}

abbrev pub stock_keywords : List String
stock_keywords = "con hang" ∷ "con khong" ∷ "ton kho" ∷ "in stock" ∷ "available" ∷ []

abbrev pub safety_info_keywords : List String
safety_info_keywords =
    "bao quan" ∷ "an toan" ∷ "kiem tra dinh ky" ∷ "phong ngua" ∷ "safety" ∷ "how to store"
    ∷ "maintenance" ∷ []

abbrev pub product_keywords : List String
product_keywords =
    "gas" ∷ "binh" ∷ "nuoc uong" ∷ "gia" ∷ "kg" ∷ "lit" ∷ "price" ∷ "bottle" ∷ "cylinder" ∷ []

unfoldable pub matches_any : String → List String → Bool
matches_any haystack keywords = any (λ keyword. is_some (find? haystack keyword)) keywords

abbrev products_of : Outcome → List String
products_of (Outcome.returned p) = p.products
products_of _ = []

abbrev single : List String → Option String
single (x ∷ []) = some x
single _ = none

abbrev last_search : Option ToolResult → List ToolResult → Option ToolResult
last_search found [] = found
last_search found (r ∷ rs) =
    last_search (if str_eq r.name "search_products" then some r else found) rs

abbrev single_product : Option ToolResult → Option String
single_product none = none
single_product (some r) = single (products_of r.result)

-- The one product of the most recent search, if it found just one.
unfoldable pub remembered_product_id : List ToolResult → Option String
remembered_product_id results = single_product (last_search none results)

abbrev stock_question : Option String → Bool → Option String
stock_question none asked = none
stock_question (some k) asked = if not (str_eq k "") && asked then some k else none

abbrev head_score {ℓ} : {A : Type 0} {Score : Type ℓ} → Score → List (A × Score) → Score
head_score zero_score [] = zero_score
head_score zero_score ((d, score) ∷ docs) = score

abbrev pub is_empty {ℓ} : {A : Type ℓ} → List A → Bool
is_empty [] = true
is_empty (x ∷ xs) = false

abbrev last_provider : Option String → List StreamChunk → Option String
last_provider found [] = found
last_provider found (c ∷ chunks) =
    last_provider (if is_some c.provider then c.provider else found) chunks

unfoldable pub joined : List StreamChunk → String
joined [] = ""
joined (c ∷ chunks) = str_append c.delta (joined chunks)

-- `served_by or llm_provider.provider_name`
abbrev or_text : Option String → String → String
or_text none default = default
or_text (some t) default = if str_eq t "" then default else t

abbrev pub turn_limit_reply : Locale → String
turn_limit_reply Locale.en =
    "This conversation has run long. Let me hand you over to a support agent for more detailed help."
turn_limit_reply Locale.vi =
    "Cuộc trò chuyện này đã khá dài. Mình xin phép chuyển bạn đến nhân viên hỗ trợ để được tư vấn kỹ hơn nhé."

module _ {Score : Type 0} {W : Type 0} (services : Services Score W) where
  unfoldable pub intake_guardrail : AgentState Score → AgentState Score
  intake_guardrail a =
      let (is_emergency, matched) = services.check_query (last_human_text a.messages) in
      record a {
        turn_count = a.turn_count + 1;
        is_emergency = is_emergency;
        matched_pattern = matched;
      }

  unfoldable pub safety_emergency : AgentState Score → AgentState Score
  safety_emergency a = record a {
    messages = a.messages ++ Message.ai (services.emergency_response a.locale) ∷ [];
    confidence = some services.one_score;
  }

  -- The tool that the last human message asks for, if any.
  unfoldable pub router : AgentState Score → AgentState Score
  router a =
      let query = services.strip_accents (last_human_text a.messages) in
      record a {
        tool_calls =
            elim (stock_question (remembered_product_id a.tool_results)
              (matches_any query stock_keywords)) [
                | some k ↦
                    record {
                      name = "check_inventory";
                      args = services.json_dumps (
                          ("product_id", JsonValue.json_text k)
                          ∷ ("quantity", JsonValue.json_number 1)
                          ∷ []);
                    }
                    ∷ []
                | none ↦
                    if matches_any query safety_info_keywords
                    then record {
                      name = "lookup_safety_policy";
                      args = services.json_dumps (("query", JsonValue.json_text query) ∷ []);
                    }
                      ∷ []
                    else if matches_any query product_keywords
                    then record {
                      name = "search_products";
                      args = services.json_dumps (("query", JsonValue.json_text query) ∷ []);
                    }
                      ∷ []
                    else []
              ];
      }

  unfoldable pub retriever_node : AgentState Score → W → AgentState Score × W
  retriever_node a w =
      let (documents, w') = services.retrieve (last_human_text a.messages) 5 w in
      (
        record a {
          retrieved_docs = map (λ d. record d.0 { content = take_chars 800 d.0.content }) documents;
          confidence = some (head_score services.zero_score documents);
        },
        w',
      )

  unfoldable pub verifier : AgentState Score → AgentState Score
  verifier a = elim a.confidence [
    | some score ↦ a
    | none ↦ record a {
      confidence =
          some
            (if any (λ r. r.is_ok) a.tool_results then services.one_score else services.zero_score);
    }
  ]

  -- `_tool_results_context(state) if used_tools else _retrieved_docs_context(state)`
  unfoldable pub context_of : AgentState Score → Context
  context_of a =
      if is_empty a.tool_results
      then Context.retrieved_docs_context a.retrieved_docs
      else Context.tool_results_context a.tool_results

  unfoldable pub system_prompt : AgentState Score → String
  system_prompt a = services.render a.locale (context_of a) (drop_last a.messages)

  unfoldable pub responder : AgentState Score → W → AgentState Score × W
  responder a w =
      let (chunks, w') = services.stream (last_human_text a.messages) (system_prompt a) w in
      (
        record a {
          messages = a.messages ++ Message.ai (joined chunks) ∷ [];
          llm_provider = some (or_text (last_provider none chunks) services.provider_name);
        },
        w',
      )

unfoldable pub turn_limit : {Score : Type 0} → AgentState Score → AgentState Score
turn_limit a = record a { messages = a.messages ++ Message.ai (turn_limit_reply a.locale) ∷ [] }
