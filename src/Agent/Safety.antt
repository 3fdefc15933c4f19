-- ===== src/Agent/Safety.antt =====
-- What the tool executor lets through (backend/app/agent/nodes/tool_executor.py).
use qiki.Base.{
  ℕ, Bool, true, false, ◌&&◌, none, some, List, [], ◌∷◌, String, All, ◌≡◌, refl, subst, ◌⊎◌, inl,
  inr, Bool-cases, Option-cases, arith, any, if◌then◌else◌,
}
use text.Mathlib.Text.{◌==◌ as str_eq}
use qiki.Models.User.{User}
use qiki.Agent.Policy.{get_tool_policy}
use qiki.Agent.Gate.{Libraries}
use qiki.Agent.Executor.{
  ToolCall, Tool, Decision, AuditEntry, AuthDecision, Run, Wiring, Refusal, same_token, token_of,
  apply_decision, run_confirm_gate, authorize, invoke, audit_call, execute_call, tool_executor,
}

abbrev pub is_allowed : AuthDecision → Bool
is_allowed (AuthDecision.allowed before) = true
is_allowed _ = false

-- The decisions left over: all of them, or all but the first.
abbrev pub Leftover : List Decision → List Decision → Type 0
Leftover ds ds' = (ds' ≡ ds) ⊎ ((d : Decision) × (ds ≡ d ∷ ds'))

All-Leftover :
    (P : Decision → Type 0) (ds ds' : List Decision) → Leftover ds ds' → All P ds → All P ds'
All-Leftover P ds ds' (inl e) h = rw e h
All-Leftover P ds ds' (inr (d, e)) h = (subst (All P) e h).1

-- The world and the audit log are as before.
abbrev pub Untouched : {S W : Type 0} → Run S W → Run S W → Type 0
Untouched s s' = (s'.world ≡ s.world) × (s'.audit ≡ s.audit) × Leftover s.decisions s'.decisions

module _ {S : Type 0} {W : Type 0} (lib : Libraries S) (wiring : Wiring W) (now : ℕ)
    (session_id : String) where
  -- A decision that approves this call of this user.
  abbrev pub approves : User → ToolCall → Decision → Bool
  approves u c Decision.not_a_dict = false
  approves u c (Decision.dict approved t) =
      approved && same_token t (token_of lib wiring now session_id u c)

  abbrev pub Unapproved : List Decision → ToolCall → Type 0
  Unapproved ds c = (u : User) → wiring.current_user ≡ some u → All (λ d. approves u c d ≡ false) ds

  -- The tools that need no confirmation only read.
  abbrev pub ReadersOnly : Type 0
  ReadersOnly =
      (name : String) (tool : Tool W)
      → wiring.tools name ≡ some tool
      → (get_tool_policy name).requires_confirm ≡ false
      → (args : String) (w : W) → (tool args w).1 ≡ w

  run_confirm_gate_denied :
      (u : User) (c : ToolCall) (p : S) (w : W) (ds : List Decision) (a : List AuditEntry)
      → All (λ d. approves u c d ≡ false) ds
      → (is_allowed
            (run_confirm_gate lib wiring now session_id u c
              (record { pending = p; world = w; decisions = ds; audit = a })).0
          ≡ false)
        × Untouched
            (record { pending = p; world = w; decisions = ds; audit = a })
            (run_confirm_gate lib wiring now session_id u c
              (record { pending = p; world = w; decisions = ds; audit = a })).1
  unfolding run_confirm_gate apply_decision
  run_confirm_gate_denied u c p w [] a h = (refl, (refl, refl, inl refl))
  run_confirm_gate_denied u c p w (Decision.not_a_dict ∷ ds) a h =
      (refl, (refl, refl, inr (Decision.not_a_dict, refl)))
  run_confirm_gate_denied u c p w (Decision.dict false t ∷ ds) a h =
      (refl, (refl, refl, inr (Decision.dict false t, refl)))
  run_confirm_gate_denied u c p w (Decision.dict true t ∷ ds) a h =
      let no : same_token t (token_of lib wiring now session_id u c) ≡ false = h.0 in
      rw no (refl, (refl, refl, inr (Decision.dict true t, refl)))

  authorize_denied :
      (c : ToolCall) (s : Run S W)
      → (get_tool_policy c.name).requires_confirm ≡ true
      → Unapproved s.decisions c
      → (is_allowed (authorize lib wiring now session_id (get_tool_policy c.name) c s).0 ≡ false)
        × Untouched s (authorize lib wiring now session_id (get_tool_policy c.name) c s).1
  unfolding authorize
  authorize_denied c s confirm h = elim (Option-cases wiring.current_user) [
    | inl nobody ↦ ground arith
    | inr (u, somebody) ↦ elim (Bool-cases wiring.has_confirm_gate) [
      | inl gate ↦
          ground (
            arith,
            run_confirm_gate_denied u c s.pending s.world s.decisions s.audit (h u somebody),
          )
      | inr no_gate ↦ ground arith
    ]
  ]

  pub authorize_unconfirmed :
      (c : ToolCall) (s : Run S W)
      → (get_tool_policy c.name).requires_confirm ≡ false
      → (authorize lib wiring now session_id (get_tool_policy c.name) c s
          ≡ (AuthDecision.refused Refusal.authentication_required, s))
        ⊎ (authorize lib wiring now session_id (get_tool_policy c.name) c s
            ≡ (AuthDecision.allowed none, s))
  unfolding authorize
  authorize_unconfirmed c s confirm = elim (Option-cases wiring.current_user) [
    | inl nobody ↦ ground arith
    | inr (u, somebody) ↦ inr (ground arith)
  ]

  invoke_reader :
      (tool : Tool W) (c : ToolCall) (s : Run S W)
      → (tool c.args s.world).1 ≡ s.world
      → Untouched s (invoke lib wiring now session_id tool c none s).1
  unfolding invoke audit_call
  invoke_reader tool c s h = (h, refl, inl refl)

  execute_call-Unapproved :
      (c : ToolCall) (s : Run S W)
      → ReadersOnly
      → Unapproved s.decisions c
      → Untouched s (execute_call lib wiring now session_id c s).1
  unfolding execute_call
  execute_call-Unapproved c s readers h = elim (Option-cases (wiring.tools c.name)) [
    | inl absent ↦ ground arith
    | inr (tool, found) ↦ elim (Bool-cases (get_tool_policy c.name).requires_confirm) [
      | inl confirm ↦ ground (arith, authorize_denied c s confirm h)
      | inr reads ↦ elim (authorize_unconfirmed c s reads) [
        | inl refused ↦ ground arith
        | inr allowed ↦
            ground (arith, invoke_reader tool c s (readers c.name tool found reads c.args s.world))
      ]
    ]
  ]

  Untouched-trans :
      (s s' s'' : Run S W)
      → Untouched s s'
      → (s''.world ≡ s'.world) × (s''.audit ≡ s'.audit)
      → (s''.world ≡ s.world) × (s''.audit ≡ s.audit)
  Untouched-trans s s' s'' h k = ground arith

  All-Unapproved :
      (ds ds' : List Decision) (calls : List ToolCall)
      → Leftover ds ds'
      → All (Unapproved ds) calls
      → All (Unapproved ds') calls
  All-Unapproved ds ds' [] k h = tt
  All-Unapproved ds ds' (c ∷ calls) k (h, hs) = (
    (λ u e. All-Leftover (λ d. approves u c d ≡ false) ds ds' k (h u e)),
    All-Unapproved ds ds' calls k hs,
  )

  -- Where the tools that need no confirmation only read, and no decision approves a queued call of
  -- the signed-in user by its own token, a run of the executor changes nothing outside and audits
  -- nothing. So without a user, and before any decision, no write tool runs.
  pub tool_executor-Unapproved :
      (calls : List ToolCall) (s : Run S W)
      → ReadersOnly
      → All (Unapproved s.decisions) calls
      → ((tool_executor lib wiring now session_id calls s).1.world ≡ s.world)
        × ((tool_executor lib wiring now session_id calls s).1.audit ≡ s.audit)
  unfolding tool_executor
  tool_executor-Unapproved [] s readers h = (refl, refl)
  tool_executor-Unapproved (c ∷ calls) s readers (h, hs) =
      let s' = (execute_call lib wiring now session_id c s).1 in
      let kept = execute_call-Unapproved c s readers h in
      let rest =
        tool_executor-Unapproved calls s' readers
          (All-Unapproved s.decisions s'.decisions calls kept.2 hs) in
      ground (arith, kept, rest)

  abbrev pub public_tools : List String
  public_tools =
      "search_products" ∷ "check_inventory" ∷ "lookup_safety_policy" ∷ "recommend_products" ∷ []

  -- Without a signed-in user, the calls that are allowed are those of the four catalogue and
  -- knowledge base readers, whatever tools the graph is given; every other name is refused.
  authorize_anonymous :
      (c : ToolCall) (s : Run S W)
      → wiring.current_user ≡ none
      → authorize lib wiring now session_id (get_tool_policy c.name) c s ≡ (
        (if any (str_eq c.name) public_tools
            then AuthDecision.allowed none
            else AuthDecision.refused Refusal.authentication_required),
        s,
      )
  unfolding authorize get_tool_policy
  authorize_anonymous c s nobody = ground arith
