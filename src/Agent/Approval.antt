-- ===== src/Agent/Approval.antt =====
-- An approved call, from the pause to the tool (backend/app/agent/nodes/tool_executor.py and
-- backend/app/agent/tools/confirm_gate.py).
use qiki.Base.{
  ℕ, true, false, Option, some, List, [], ◌∷◌, String, ◌≡◌, refl, ◌⊎◌, inl, inr, Bool-cases,
  ==_refl, arith,
}
use text.Mathlib.TextEquality.{eq_iff}
use qiki.Models.User.{User}
use qiki.Agent.Policy.{get_tool_policy}
use qiki.Agent.Gate.{
  Pending, Libraries, empty_snapshot, pending_key, pending_ttl_seconds, store_pending,
  claim_pending,
}
use qiki.Agent.Executor.{
  ToolCall, Tool, Decision, AuditEntry, AuthDecision, CallOutcome, Execution, Run, Wiring,
  same_token, token_of, pending_of, check_claimed, apply_decision, run_confirm_gate, authorize,
  invoke, execute_call, ok_of, outcome_of, tool_executor,
}
use qiki.Agent.Safety.{is_allowed}

module _ {S : Type 0} {W : Type 0} (lib : Libraries S) (wiring : Wiring W) (now : ℕ)
    (session_id : String) where
  -- The record that the gate has just stored is the one that it claims.
  pub claim-store :
      (token : String) (p : Pending) (s : S)
      → (claim_pending lib now token (store_pending lib now token p s)).0 ≡ some p
  unfolding claim_pending store_pending
  claim-store token p s =
      lib.redis.getdel-setex now now pending_ttl_seconds (pending_key lib token) p s (omega arith)
        (omega arith)

  pub check_own :
      (u : User) (c : ToolCall)
      → check_claimed lib wiring now session_id u c
          (some (pending_of lib wiring now session_id u c))
        ≡ AuthDecision.allowed (some empty_snapshot)
  unfolding check_claimed
  check_own u c =
      ground (arith, ==_refl u.id, (eq_iff c.name c.name).1 refl, (eq_iff c.args c.args).1 refl)

  -- Stored, then claimed: an approval with the right token is always allowed.
  pub run_confirm_gate_approved :
      (u : User) (c : ToolCall) (t : Option String) (p : S) (w : W) (ds : List Decision)
      (a : List AuditEntry)
      → same_token t (token_of lib wiring now session_id u c) ≡ true
      → (run_confirm_gate lib wiring now session_id u c
          (record { pending = p; world = w; decisions = Decision.dict true t ∷ ds; audit = a })).0
        ≡ AuthDecision.allowed (some empty_snapshot)
  unfolding run_confirm_gate apply_decision
  run_confirm_gate_approved u c t p w ds a same = rw same (
      rw
        (claim-store (token_of lib wiring now session_id u c)
          (pending_of lib wiring now session_id u c) p)
        (check_own u c))

  pub run_confirm_gate-audit :
      (u : User) (c : ToolCall) (p : S) (w : W) (ds : List Decision) (a : List AuditEntry)
      → ((run_confirm_gate lib wiring now session_id u c
            (record { pending = p; world = w; decisions = ds; audit = a })).1.audit
          ≡ a)
        × ((run_confirm_gate lib wiring now session_id u c
              (record { pending = p; world = w; decisions = ds; audit = a })).1.world
            ≡ w)
        × ((is_allowed
                (run_confirm_gate lib wiring now session_id u c
                  (record { pending = p; world = w; decisions = ds; audit = a })).0
              ≡ false)
            ⊎ ((run_confirm_gate lib wiring now session_id u c
                  (record { pending = p; world = w; decisions = ds; audit = a })).0
                ≡ AuthDecision.allowed (some empty_snapshot)))
  unfolding run_confirm_gate apply_decision
  run_confirm_gate-audit u c p w [] a = (refl, refl, inl refl)
  run_confirm_gate-audit u c p w (Decision.not_a_dict ∷ ds) a = (refl, refl, inl refl)
  run_confirm_gate-audit u c p w (Decision.dict false t ∷ ds) a = (refl, refl, inl refl)
  run_confirm_gate-audit u c p w (Decision.dict true t ∷ ds) a =
      elim (Bool-cases (same_token t (token_of lib wiring now session_id u c))) [
        | inl same ↦ rw same (
          refl,
          refl,
          inr (
              rw
                (claim-store (token_of lib wiring now session_id u c)
                  (pending_of lib wiring now session_id u c) p)
                (check_own u c)),
        )
        | inr other ↦ rw other (refl, refl, inl refl)
      ]

  module _ (u : User) (c : ToolCall) (tool : Tool W) (found : wiring.tools c.name ≡ some tool)
      (somebody : wiring.current_user ≡ some u) (gate : wiring.has_confirm_gate ≡ true)
      (confirm : (get_tool_policy c.name).requires_confirm ≡ true) where
    execute_call_paused :
        (p : S) (w : W) (a : List AuditEntry)
        → execute_call lib wiring now session_id c
            (record { pending = p; world = w; decisions = []; audit = a })
          ≡ (
            CallOutcome.stopped (token_of lib wiring now session_id u c),
            record {
              pending =
                  store_pending lib now
                    (token_of lib wiring now session_id u c)
                    (pending_of lib wiring now session_id u c)
                    p;
              world = w;
              decisions = [];
              audit = a;
            },
          )
    unfolding execute_call authorize run_confirm_gate
    execute_call_paused p w a = ground arith

    pub tool_executor_paused :
        (p : S) (w : W) (a : List AuditEntry)
        → tool_executor lib wiring now session_id
            (c ∷ [])
            (record { pending = p; world = w; decisions = []; audit = a })
          ≡ (
            Execution.interrupted (token_of lib wiring now session_id u c),
            record {
              pending =
                  store_pending lib now
                    (token_of lib wiring now session_id u c)
                    (pending_of lib wiring now session_id u c)
                    p;
              world = w;
              decisions = [];
              audit = a;
            },
          )
    unfolding tool_executor
    tool_executor_paused p w a = ground (arith, execute_call_paused p w a)

    execute_call_approved :
        (s : Run S W)
        → (run_confirm_gate lib wiring now session_id u c s).0
          ≡ AuthDecision.allowed (some empty_snapshot)
        → (run_confirm_gate lib wiring now session_id u c s).1.world ≡ s.world
        → ((execute_call lib wiring now session_id c s).0
            ≡ CallOutcome.recorded (record {
              name = c.name;
              is_ok = ok_of (tool c.args s.world).0;
              result = outcome_of (tool c.args s.world).0;
            }))
          × ((execute_call lib wiring now session_id c s).1.world ≡ (tool c.args s.world).1)
    unfolding execute_call authorize invoke
    execute_call_approved s approved same = ground arith

    pub tool_executor_approved :
        (s : Run S W)
        → (run_confirm_gate lib wiring now session_id u c s).0
          ≡ AuthDecision.allowed (some empty_snapshot)
        → (run_confirm_gate lib wiring now session_id u c s).1.world ≡ s.world
        → ((tool_executor lib wiring now session_id (c ∷ []) s).0
            ≡ Execution.finished (
                record {
                  name = c.name;
                  is_ok = ok_of (tool c.args s.world).0;
                  result = outcome_of (tool c.args s.world).0;
                }
                ∷ []))
          × ((tool_executor lib wiring now session_id (c ∷ []) s).1.world ≡ (tool c.args s.world).1)
    unfolding tool_executor
    tool_executor_approved s approved same = ground (arith, execute_call_approved s approved same)

-- A queued call that needs confirmation, of a signed-in user: the first run stops with the token
-- of the call, and the world is untouched. The run after an approval with that token, at any
-- later instant and whatever is left in Redis, invokes the tool once and records its answer.
pub approval_lem :
    {S W : Type 0} (lib : Libraries S) (wiring : Wiring W) (session_id : String) (now later : ℕ)
    (u : User) (c : ToolCall) (tool : Tool W) (s : Run S W) (left : S)
    → wiring.tools c.name ≡ some tool
    → wiring.current_user ≡ some u
    → wiring.has_confirm_gate ≡ true
    → (get_tool_policy c.name).requires_confirm ≡ true
    → s.decisions ≡ []
    → let token = token_of lib wiring now session_id u c in
      let pause = tool_executor lib wiring now session_id (c ∷ []) s in
      let resume =
        tool_executor lib wiring later session_id
          (c ∷ [])
          (record s { pending = left; decisions = Decision.dict true (some token) ∷ [] }) in
      (pause.0 ≡ Execution.interrupted token)
      × (pause.1.world ≡ s.world)
      × (resume.1.world ≡ (tool c.args s.world).1)
      × (resume.0
          ≡ Execution.finished (
              record {
                name = c.name;
                is_ok = ok_of (tool c.args s.world).0;
                result = outcome_of (tool c.args s.world).0;
              }
              ∷ []))
approval_lem lib wiring session_id now later u c tool s left found somebody gate confirm fresh =
    let token = token_of lib wiring now session_id u c in
    let decision = Decision.dict true (some token) in
    let resumed = record s { pending = left; decisions = decision ∷ [] } in
    let same : same_token (some token) token ≡ true = (eq_iff token token).1 refl in
    let approved =
      run_confirm_gate_approved lib wiring later session_id u c (some token) left s.world [] s.audit
        same in
    let kept =
      (run_confirm_gate-audit lib wiring later session_id u c left s.world (decision ∷ [])
        s.audit).1 in
    let (finished, world) =
      tool_executor_approved lib wiring later session_id u c tool found somebody gate confirm
        resumed approved kept in
    let paused =
      tool_executor_paused lib wiring now session_id u c tool found somebody gate confirm s.pending
        s.world s.audit in
    ground (arith, paused, finished, world)
