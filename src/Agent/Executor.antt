-- ===== src/Agent/Executor.antt =====
-- backend/app/agent/nodes/tool_executor.py: the queued tool calls of a turn, each one authorised
-- before it runs. LangGraph's `interrupt()` raises on its first call and gives the
-- caller's decision after a resume, which runs the node again from its first line: `decisions`
-- holds the decisions that the run finds.
use Prim.Native.String.{◌++◌ as str_append}
use qiki.Base.{
  ℕ, Bool, false, ◌&&◌, ◌||◌, not, Option, none, some, List, [], ◌∷◌, ◌++◌, String, ◌==◌,
  if◌then◌else◌,
}
use text.Mathlib.Text.{◌==◌ as str_eq}
use qiki.Models.User.{User}
use qiki.Agent.Policy.{ToolAuthPolicy, get_tool_policy}
use qiki.Agent.Gate.{
  Pending, Libraries, empty_snapshot, derive_pending_token, store_pending, claim_pending,
}

pub record ToolCall : Type 0 where
  pub name : String
  pub args : String

-- The dict that a tool returns: its `ok`, the identifiers of its `products`, and the rest.
pub record Payload : Type 0 where
  pub is_ok : Bool
  pub products : List String
  pub body : String

pub data Refusal : Type 0 where
  authentication_required confirmation_unavailable confirmation_declined : Refusal
  confirmation_invalid confirmation_expired : Refusal

pub data Outcome : Type 0 where
  unknown_tool : Outcome
  refusal : Refusal → Outcome
  returned : Payload → Outcome
  tool_execution_failed : String → Outcome

pub record ToolResult : Type 0 where
  pub name : String
  pub is_ok : Bool
  pub result : Outcome

-- What a tool does to the world outside: it returns a payload or raises.
pub data Invocation : Type 0 where
  answer : Payload → Invocation
  exception : String → Invocation

abbrev pub Tool : Type 0 → Type 0
Tool W = String → W → Invocation × W

-- The value of a resume: not a dict, or whether its `approved` is True and its `pending_token`.
pub data Decision : Type 0 where
  not_a_dict : Decision
  dict : Bool → Option String → Decision

pub record AuditEntry : Type 0 where
  pub admin_id : ℕ
  pub action : String
  pub before : String
  pub tool : String
  pub args : String
  pub result : Outcome

-- Redis, the world that the tools act on, the decisions not used yet and the audit log.
pub record Run (S W : Type 0) : Type 0 where
  pub pending : S
  pub world : W
  pub decisions : List Decision
  pub audit : List AuditEntry

pub data AuthDecision : Type 0 where
  paused : String → AuthDecision
  refused : Refusal → AuthDecision
  allowed : Option String → AuthDecision

abbrev pub same_token : Option String → String → Bool
same_token none token = false
same_token (some t) token = str_eq t token

-- What a graph is built with.
pub record Wiring (W : Type 0) : Type 0 where
  pub tools : String → Option (Tool W)
  pub current_user : Option User
  pub has_confirm_gate : Bool
  pub has_audit_repository : Bool

abbrev pub outcome_of : Invocation → Outcome
outcome_of (answer p) = Outcome.returned p
outcome_of (exception message) = Outcome.tool_execution_failed message

abbrev pub ok_of : Invocation → Bool
ok_of (answer p) = p.is_ok
ok_of (exception message) = false

pub data CallOutcome : Type 0 where
  stopped : String → CallOutcome
  recorded : ToolResult → CallOutcome

pub data Execution : Type 0 where
  interrupted : String → Execution
  finished : List ToolResult → Execution

abbrev pub prepend : ToolResult → Execution → Execution
prepend r (interrupted token) = interrupted token
prepend r (finished rs) = finished (r ∷ rs)

abbrev pub audit_entry : User → ToolCall → String → Outcome → AuditEntry
audit_entry u c before result = record {
  admin_id = u.id;
  action = str_append "agent_tool:" c.name;
  before = before;
  tool = c.name;
  args = c.args;
  result = result;
}

module _ {S : Type 0} {W : Type 0} (lib : Libraries S) (wiring : Wiring W) (now : ℕ)
    (session_id : String) where
  abbrev pub token_of : User → ToolCall → String
  token_of u c = derive_pending_token lib session_id u.id c.name c.args

  abbrev pub pending_of : User → ToolCall → Pending
  pending_of u c = record {
    user_id = u.id;
    tool_name = c.name;
    args = c.args;
    before_snapshot = empty_snapshot;
  }

  unfoldable pub check_claimed : User → ToolCall → Option Pending → AuthDecision
  check_claimed u c none = AuthDecision.refused Refusal.confirmation_expired
  check_claimed u c (some p) =
      if not (p.user_id == u.id) || not (str_eq p.tool_name c.name && str_eq p.args c.args)
      then AuthDecision.refused Refusal.confirmation_invalid
      else AuthDecision.allowed (some p.before_snapshot)

  -- After the pause: the decision must approve, name this call, and find its pending record.
  unfoldable pub apply_decision : User → ToolCall → Decision → Run S W → AuthDecision × Run S W
  unfolding claim_pending
  apply_decision u c Decision.not_a_dict s = (AuthDecision.refused Refusal.confirmation_declined, s)
  apply_decision u c (Decision.dict approved pending_token) s =
      if not approved
      then (AuthDecision.refused Refusal.confirmation_declined, s)
      else if not (same_token pending_token (token_of u c))
      then (AuthDecision.refused Refusal.confirmation_invalid, s)
      else let (claimed, left) = claim_pending lib now (token_of u c) s.pending in
        (check_claimed u c claimed, record s { pending = left })

  unfoldable pub run_confirm_gate : User → ToolCall → Run S W → AuthDecision × Run S W
  run_confirm_gate u c s =
      let stored = store_pending lib now (token_of u c) (pending_of u c) s.pending in
      elim s.decisions [
        | [] ↦ (AuthDecision.paused (token_of u c), record s { pending = stored })
        | d ∷ ds ↦ apply_decision u c d (record s { pending = stored; decisions = ds })
      ]

  unfoldable pub authorize : ToolAuthPolicy → ToolCall → Run S W → AuthDecision × Run S W
  authorize policy c s = elim wiring.current_user [
    | none ↦
        if policy.requires_auth || policy.requires_confirm
        then (AuthDecision.refused Refusal.authentication_required, s)
        else (AuthDecision.allowed none, s)
    | some u ↦
        if not policy.requires_confirm
        then (AuthDecision.allowed none, s)
        else if not wiring.has_confirm_gate
        then (AuthDecision.refused Refusal.confirmation_unavailable, s)
        else run_confirm_gate u c s
  ]

  unfoldable pub record_audit : ToolCall → String → Outcome → List AuditEntry → List AuditEntry
  record_audit c before result entries = elim wiring.current_user [
    | none ↦ entries
    | some u ↦
        if wiring.has_audit_repository
        then entries ++ audit_entry u c before result ∷ []
        else entries
  ]

  unfoldable pub audit_call :
      ToolCall → Option String → Invocation → List AuditEntry → List AuditEntry
  audit_call c none invocation entries = entries
  audit_call c (some before) invocation entries =
      if ok_of invocation then record_audit c before (outcome_of invocation) entries else entries

  -- The tool runs, and an approved call that succeeds is audited.
  unfoldable pub invoke : Tool W → ToolCall → Option String → Run S W → ToolResult × Run S W
  invoke tool c audit_before s =
      let (invocation, world') = tool c.args s.world in
      (
        record { name = c.name; is_ok = ok_of invocation; result = outcome_of invocation },
        record s { world = world'; audit = audit_call c audit_before invocation s.audit },
      )

  abbrev pub not_run : ToolCall → Outcome → ToolResult
  not_run c result = record { name = c.name; is_ok = false; result = result }

  unfoldable pub execute_call : ToolCall → Run S W → CallOutcome × Run S W
  execute_call c s = elim (wiring.tools c.name) [
    | none ↦ (CallOutcome.recorded (not_run c Outcome.unknown_tool), s)
    | some tool ↦
        let (decision, s') = authorize (get_tool_policy c.name) c s in
        elim decision [
          | AuthDecision.paused token ↦ (CallOutcome.stopped token, s')
          | AuthDecision.refused r ↦ (CallOutcome.recorded (not_run c (Outcome.refusal r)), s')
          | AuthDecision.allowed before ↦
              let (r, s'') = invoke tool c before s' in (CallOutcome.recorded r, s'')
        ]
  ]

  unfoldable pub tool_executor : List ToolCall → Run S W → Execution × Run S W
  tool_executor [] s = (Execution.finished [], s)
  tool_executor (c ∷ calls) s =
      let (outcome, s') = execute_call c s in
      elim outcome [
        | CallOutcome.stopped token ↦ (Execution.interrupted token, s')
        | CallOutcome.recorded r ↦ let (rest, s'') = tool_executor calls s' in (prepend r rest, s'')
      ]
