-- ===== src/Agent/State.antt =====
-- backend/app/agent/state.py: the state of a thread, the helpers on texts and messages that the nodes
-- of backend/app/agent/nodes share, and the services that they call.
use Prim.Native.String.{[] as empty_text, ◌∷◌ as ◌::◌}
use qiki.Base.{ℕ, zero, suc, Bool, Option, List, [], ◌∷◌, String}
use qiki.Agent.Executor.{ToolCall, ToolResult}

pub data Message : Type 0 where
  human ai : String → Message

pub data Locale : Type 0 where
  vi en : Locale

pub record RetrievedDoc : Type 0 where
  pub id : String
  pub title : String
  pub content : String

-- The checkpointed state of a thread; a key that may be missing is an Option, or holds what
-- `state.get(key, default)` gives. `Score` is Python's float.
pub record AgentState (Score : Type 0) : Type 0 where
  pub messages : List Message
  pub session_id : String
  pub locale : Locale
  pub confidence : Option Score
  pub retrieved_docs : List RetrievedDoc
  pub tool_calls : List ToolCall
  pub tool_results : List ToolResult
  pub is_emergency : Bool
  pub matched_pattern : Option String
  pub turn_count : ℕ
  pub llm_provider : Option String

abbrev pub max_agent_turns : ℕ
max_agent_turns = 8

abbrev pub recursion_limit : ℕ
recursion_limit = 25

abbrev last_human : String → List Message → String
last_human found [] = found
last_human found (Message.human text ∷ messages) = last_human text messages
last_human found (Message.ai text ∷ messages) = last_human found messages

-- The last message of the human, empty where there is none.
unfoldable pub last_human_text : List Message → String
last_human_text messages = last_human "" messages

-- `messages[:-1]`
abbrev pub drop_last {ℓ} : {A : Type ℓ} → List A → List A
drop_last [] = []
drop_last (x ∷ []) = []
drop_last (x ∷ y ∷ xs) = x ∷ drop_last (y ∷ xs)

-- `text[:n]`
unfoldable pub take_chars : ℕ → String → String
take_chars zero text = ""
take_chars (suc n) empty_text = ""
take_chars (suc n) (c :: s) = c :: take_chars n s

pub data JsonValue : Type 0 where
  json_text : String → JsonValue
  json_number : ℕ → JsonValue

pub record StreamChunk : Type 0 where
  pub provider : Option String
  pub delta : String

-- What the answer is grounded in.
pub data Context : Type 0 where
  tool_results_context : List ToolResult → Context
  retrieved_docs_context : List RetrievedDoc → Context

-- What the nodes call: the safety checker, the accents and JSON of Python, the retriever, the
-- prompt templates and the provider of a language model.
pub record Services (Score W : Type 0) : Type 0 where
  pub check_query : String → Bool × Option String
  pub emergency_response : Locale → String
  pub strip_accents : String → String
  pub json_dumps : List (String × JsonValue) → String
  pub retrieve : String → ℕ → W → List (RetrievedDoc × Score) × W
  pub render : Locale → Context → List Message → String
  pub stream : String → String → W → List StreamChunk × W
  pub provider_name : String
  pub zero_score : Score
  pub one_score : Score
