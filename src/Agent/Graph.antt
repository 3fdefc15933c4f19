-- ===== src/Agent/Graph.antt =====
-- backend/app/agent/graph.py: one turn of the assistant as a walk through the graph, and
-- backend/app/api/v1/endpoints/agent.py, which starts it.
use qiki.Base.{ℕ, zero, suc, [], ◌∷◌, ◌++◌, String, ltb, if◌then◌else◌}
use qiki.Agent.Gate.{Libraries}
use qiki.Agent.Executor.{Execution, Run, Wiring, tool_executor}
use qiki.Agent.State.{AgentState, Message, Locale, Services, max_agent_turns}
use qiki.Agent.Nodes.{
  intake_guardrail, safety_emergency, turn_limit, router, retriever_node, verifier, responder,
}

pub data Node : Type 0 where
  at_intake at_turn_limit at_emergency at_router at_tools at_retriever at_verifier : Node
  at_responder : Node

-- The state of the thread, with everything that a node can change outside it.
pub record Turn (Score S W : Type 0) : Type 0 where
  pub agent : AgentState Score
  pub run : Run S W

pub data Progress : Type 0 where
  next : Node → Progress
  confirm_required : String → Progress
  finish : Progress

-- How a run of the graph comes to its end; GraphRecursionError is LangGraph's, past its limit.
pub data Ending : Type 0 where
  completed : Ending
  awaiting : String → Ending
  recursion_error : Ending

unfoldable pub route_after_intake : {Score : Type 0} → AgentState Score → Node
route_after_intake a =
    if ltb max_agent_turns a.turn_count
    then Node.at_turn_limit
    else if a.is_emergency
    then Node.at_emergency
    else Node.at_router

unfoldable pub route_after_router : {Score : Type 0} → AgentState Score → Node
route_after_router a = elim a.tool_calls [ [] ↦ Node.at_retriever | _ ∷ _ ↦ Node.at_tools ]

-- The state that a request puts in front of the thread's checkpoint.
unfoldable pub stream_agent_turn :
    {Score : Type 0} → String → Locale → String → AgentState Score → AgentState Score
stream_agent_turn session_id locale content a = record a {
  messages = a.messages ++ Message.human content ∷ [];
  session_id = session_id;
  locale = locale;
}

module _ {Score S W : Type 0} (lib : Libraries S) (wiring : Wiring W) (services : Services Score W)
    (now : ℕ) where
  abbrev pub with_agent : (AgentState Score → AgentState Score) → Turn Score S W → Turn Score S W
  with_agent f t = record t { agent = f t.agent }

  abbrev pub with_world :
      (AgentState Score → W → AgentState Score × W) → Turn Score S W → Turn Score S W
  with_world f t =
      let (a, w) = f t.agent t.run.world in
      record t { agent = a; run = record (t.run) { world = w } }

  abbrev pub after_tools : Execution × Run S W → Turn Score S W → Progress × Turn Score S W
  after_tools (Execution.interrupted token, run) t =
      (Progress.confirm_required token, record t { run = run })
  after_tools (Execution.finished results, run) t = (
    Progress.next Node.at_verifier,
    record t { agent = record (t.agent) { tool_results = results }; run = run },
  )

  -- One superstep: the node runs, then its edge is taken.
  unfoldable pub superstep : Node → Turn Score S W → Progress × Turn Score S W
  superstep Node.at_intake t =
      let t' = with_agent (intake_guardrail services) t in
      (Progress.next (route_after_intake t'.agent), t')
  superstep Node.at_turn_limit t = (Progress.finish, with_agent turn_limit t)
  superstep Node.at_emergency t = (Progress.finish, with_agent (safety_emergency services) t)
  superstep Node.at_router t =
      let t' = with_agent (router services) t in (Progress.next (route_after_router t'.agent), t')
  superstep Node.at_tools t =
      after_tools (tool_executor lib wiring now t.agent.session_id t.agent.tool_calls t.run) t
  superstep Node.at_retriever t =
      (Progress.next Node.at_verifier, with_world (retriever_node services) t)
  superstep Node.at_verifier t = (Progress.next Node.at_responder, with_agent (verifier services) t)
  superstep Node.at_responder t = (Progress.finish, with_world (responder services) t)

  -- The limit counts the nodes that run; LangGraph counts its START step beside them.
  unfoldable pub run_graph : ℕ → Node → Turn Score S W → Ending × Turn Score S W
  run_graph zero node t = (Ending.recursion_error, t)
  run_graph (suc limit) node t =
      let (progress, t') = superstep node t in
      elim progress [
        | Progress.finish ↦ (Ending.completed, t')
        | Progress.confirm_required token ↦ (Ending.awaiting token, t')
        | Progress.next node' ↦ run_graph limit node' t'
      ]
