-- ===== src/Agent/Audit.antt =====
-- The audit log of the tool executor (backend/app/agent/nodes/tool_executor.py).
use qiki.Base.{
  ℕ, true, false, ◌&&◌, some, List, [], ◌∷◌, ◌++◌, String, ◌≡◌, refl, ap, ◌∙◌, ◌⊎◌, inl, inr,
  Bool-cases, Option-cases, append-nil, append_assoc, if◌then◌else◌, arith,
}
use qiki.Models.User.{User}
use qiki.Agent.Policy.{get_tool_policy}
use qiki.Agent.Gate.{Libraries, empty_snapshot}
use qiki.Agent.Executor.{
  ToolCall, ToolResult, AuditEntry, AuthDecision, CallOutcome, Execution, Run, Wiring, audit_entry,
  authorize, record_audit, audit_call, invoke, execute_call, tool_executor,
}
use qiki.Agent.Safety.{is_allowed, authorize_unconfirmed}
use qiki.Agent.Approval.{run_confirm_gate-audit}

-- The entries that the results call for: one for every successful call of a tool that needs
-- confirmation, in the name of the signed-in user.
abbrev pub entry_of : User → ToolCall → ToolResult → List AuditEntry
entry_of u c r =
    if r.is_ok && (get_tool_policy c.name).requires_confirm
    then audit_entry u c empty_snapshot r.result ∷ []
    else []

unfoldable pub expected_audit : User → List ToolCall → List ToolResult → List AuditEntry
expected_audit u [] rs = []
expected_audit u (c ∷ calls) [] = []
expected_audit u (c ∷ calls) (r ∷ rs) = entry_of u c r ++ expected_audit u calls rs

CallOutcome-cases :
    (o : CallOutcome)
    → ((token : String) × (o ≡ CallOutcome.stopped token))
      ⊎ ((r : ToolResult) × (o ≡ CallOutcome.recorded r))
CallOutcome-cases (CallOutcome.stopped token) = inl (token, refl)
CallOutcome-cases (CallOutcome.recorded r) = inr (r, refl)

Execution-cases :
    (x : Execution)
    → ((token : String) × (x ≡ Execution.interrupted token))
      ⊎ ((rs : List ToolResult) × (x ≡ Execution.finished rs))
Execution-cases (Execution.interrupted token) = inl (token, refl)
Execution-cases (Execution.finished rs) = inr (rs, refl)

module _ {S : Type 0} {W : Type 0} (lib : Libraries S) (wiring : Wiring W) (now : ℕ)
    (session_id : String) (u : User) (somebody : wiring.current_user ≡ some u)
    (repository : wiring.has_audit_repository ≡ true) where
  authorize-audit :
      (c : ToolCall) (s : Run S W)
      → (get_tool_policy c.name).requires_confirm ≡ true
      → ((authorize lib wiring now session_id (get_tool_policy c.name) c s).1.audit ≡ s.audit)
        × ((is_allowed (authorize lib wiring now session_id (get_tool_policy c.name) c s).0 ≡ false)
            ⊎ ((authorize lib wiring now session_id (get_tool_policy c.name) c s).0
                ≡ AuthDecision.allowed (some empty_snapshot)))
  unfolding authorize
  authorize-audit c s confirm = elim (Bool-cases wiring.has_confirm_gate) [
    | inl gate ↦ ground (
      arith,
      run_confirm_gate-audit lib wiring now session_id u c s.pending s.world s.decisions s.audit,
    )
    | inr no_gate ↦ ground arith
  ]

  execute_call-audit :
      (c : ToolCall) (s : Run S W) (r : ToolResult) (s' : Run S W)
      → execute_call lib wiring now session_id c s ≡ (CallOutcome.recorded r, s')
      → s'.audit ≡ s.audit ++ entry_of u c r
  unfolding execute_call invoke audit_call record_audit
  execute_call-audit c s r s' e = elim (Option-cases (wiring.tools c.name)) [
    | inl absent ↦ ground (arith, append-nil s.audit)
    | inr (tool, found) ↦ elim (Bool-cases (get_tool_policy c.name).requires_confirm) [
      | inl confirm ↦ ground (arith, authorize-audit c s confirm, append-nil s.audit)
      | inr reads ↦ elim (authorize_unconfirmed lib wiring now session_id c s reads) [
        | inl refused ↦ ground (arith, append-nil s.audit)
        | inr go ↦ ground (arith, append-nil s.audit)
      ]
    ]
  ]

  finished_inv :
      (c : ToolCall) (calls : List ToolCall) (s : Run S W) (rs : List ToolResult) (s' : Run S W)
      → tool_executor lib wiring now session_id (c ∷ calls) s ≡ (Execution.finished rs, s')
      → let s1 = (execute_call lib wiring now session_id c s).1 in
        (r : ToolResult) × (rest : List ToolResult) × (execute_call lib wiring now session_id c s
          ≡ (CallOutcome.recorded r, s1))
        × (tool_executor lib wiring now session_id calls s1 ≡ (Execution.finished rest, s'))
        × (rs ≡ r ∷ rest)
  unfolding tool_executor
  finished_inv c calls s rs s' e =
      let s1 = (execute_call lib wiring now session_id c s).1 in
      elim (CallOutcome-cases (execute_call lib wiring now session_id c s).0) [
        | inl (token, out) ↦ absurd (ground arith)
        | inr (r, out) ↦
            elim (Execution-cases (tool_executor lib wiring now session_id calls s1).0) [
              | inl (token, stop) ↦ absurd (ground arith)
              | inr (rest, fin) ↦ (r, rest, ground arith, ground arith, ground arith)
            ]
      ]

  -- With a signed-in user and an audit repository, a run that finishes adds to the log exactly one
  -- entry for each successful result of a tool that needs confirmation, in the order of
  -- the calls, naming the user, the tool, its arguments and its result.
  pub tool_executor-audit :
      (calls : List ToolCall) (s : Run S W) (rs : List ToolResult) (s' : Run S W)
      → tool_executor lib wiring now session_id calls s ≡ (Execution.finished rs, s')
      → s'.audit ≡ s.audit ++ expected_audit u calls rs
  unfolding tool_executor expected_audit
  tool_executor-audit [] s rs s' e = ground (arith, append-nil s.audit)
  tool_executor-audit (c ∷ calls) s rs s' e =
      let s1 = (execute_call lib wiring now session_id c s).1 in
      let (r, rest, head, tail, shape) = finished_inv c calls s rs s' e in
      rw shape (
        tool_executor-audit calls s1 rest s' tail
        ∙ ap {B = List AuditEntry} (λ a. a ++ expected_audit u calls rest)
            (execute_call-audit c s r s1 head)
        ∙ append_assoc s.audit (entry_of u c r) (expected_audit u calls rest))
