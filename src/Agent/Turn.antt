-- ===== src/Agent/Turn.antt =====
-- What one turn of the assistant does (backend/app/agent/graph.py).
use qiki.Base.{
  subst, ◌⊎◌, inl, inr, ℕ, zero, suc, ◌+◌, ◌≤◌, Bool, true, false, ◌||◌, [], ◌∷◌, ◌++◌, map, String,
  ◌≡◌, refl, ltb, if◌then◌else◌, Bool-cases, arith,
}
use qiki.Agent.Gate.{Libraries}
use qiki.Agent.Executor.{Wiring}
use qiki.Agent.State.{
  Message, Services, Context, max_agent_turns, recursion_limit, drop_last, last_human_text,
  take_chars,
}
use qiki.Agent.Nodes.{
  is_empty, intake_guardrail, safety_emergency, turn_limit, turn_limit_reply, router,
  retriever_node, verifier, responder, context_of, system_prompt, joined,
}
use qiki.Agent.Graph.{
  Node, Turn, Progress, Ending, route_after_intake, route_after_router, superstep, run_graph,
}

-- How many supersteps a node is from the end at most.
rank : Node → ℕ
rank Node.at_intake = 5
rank Node.at_router = 4
rank Node.at_tools = 3
rank Node.at_retriever = 3
rank Node.at_verifier = 2
rank _ = 1

abbrev pub is_recursion_error : Ending → Bool
is_recursion_error Ending.recursion_error = true
is_recursion_error _ = false

-- The nodes that an edge leads to are nearer to the end.
abbrev IsNearer : ℕ → Progress → Type 0
IsNearer limit (Progress.next node) = rank node ≤ limit
IsNearer limit _ = Unit

rank_pos : (node : Node) → 1 ≤ rank node
unfolding rank
rank_pos Node.at_intake = omega arith
rank_pos Node.at_router = omega arith
rank_pos Node.at_tools = omega arith
rank_pos Node.at_retriever = omega arith
rank_pos Node.at_verifier = omega arith
rank_pos _ = omega arith

Progress-cases :
    (p : Progress)
    → ((node : Node) × (p ≡ Progress.next node))
      ⊎ ((p ≡ Progress.finish) ⊎ ((token : String) × (p ≡ Progress.confirm_required token)))
Progress-cases (Progress.next node) = inl (node, refl)
Progress-cases Progress.finish = inr (inl refl)
Progress-cases (Progress.confirm_required token) = inr (inr (token, refl))

nearer_node :
    (limit : ℕ) (node : Node) (p : Progress)
    → p ≡ Progress.next node
    → IsNearer limit p
    → rank node ≤ limit
nearer_node limit node p e h = subst (IsNearer limit) e h

module _ {Score S W : Type 0} (lib : Libraries S) (wiring : Wiring W) (services : Services Score W)
    (now : ℕ) where
  superstep-IsNearer :
      (limit : ℕ) (node : Node) (t : Turn Score S W)
      → rank node ≤ suc limit
      → IsNearer limit (superstep lib wiring services now node t).0
  unfolding superstep rank route_after_intake route_after_router
  superstep-IsNearer limit Node.at_intake t h = ground arith
  superstep-IsNearer limit Node.at_router t h = ground arith
  superstep-IsNearer limit Node.at_tools t h = ground arith
  superstep-IsNearer limit Node.at_retriever t h = ground arith
  superstep-IsNearer limit Node.at_verifier t h = ground arith
  superstep-IsNearer limit _ t h = tt

  run_graph_ranked :
      (limit : ℕ) (node : Node) (t : Turn Score S W)
      → rank node ≤ limit
      → is_recursion_error (run_graph lib wiring services now limit node t).0 ≡ false
  unfolding run_graph
  run_graph_ranked zero node t h = absurd (omega (arith, rank_pos node, h))
  run_graph_ranked (suc limit) node t h =
      elim (Progress-cases (superstep lib wiring services now node t).0) [
        | inl (node', e) ↦ ground (
          arith,
          run_graph_ranked limit node' (superstep lib wiring services now node t).1 (
              nearer_node limit node' (superstep lib wiring services now node t).0 e
                (superstep-IsNearer limit node t h)),
        )
        | inr stopped ↦ ground arith
      ]

  -- A turn never meets LangGraph's recursion error: whatever the state of the thread, five nodes
  -- run at most, so any limit of at least five on the nodes, as the graph's 25 is beside the step that
  -- LangGraph counts for START, ends with an answer or with a call that awaits confirmation.
  pub run_graph_ends :
      (limit : ℕ) (t : Turn Score S W)
      → 5 ≤ limit
      → is_recursion_error (run_graph lib wiring services now limit Node.at_intake t).0 ≡ false
  unfolding rank
  run_graph_ends limit t h = run_graph_ranked limit Node.at_intake t h

  abbrev pub over_limit : Turn Score S W → Bool
  over_limit t = ltb max_agent_turns (t.agent.turn_count + 1)

  abbrev pub emergency : Turn Score S W → Bool
  emergency t = (services.check_query (last_human_text t.agent.messages)).0

  -- A turn past the cap, or whose message the safety checker flags, answers with the fixed text, the
  -- hand-over before the emergency guidance, and reaches nothing outside: no language model,
  -- no retriever, no tool, no pending confirmation and no audit entry.
  run_graph_closed :
      (t : Turn Score S W)
      → (over_limit t || emergency t) ≡ true
      → let (ending, t') = run_graph lib wiring services now recursion_limit Node.at_intake t in
        (ending ≡ Ending.completed)
        × (t'.run ≡ t.run)
        × (t'.agent.messages
            ≡ t.agent.messages
              ++ Message.ai (
                  if over_limit t
                  then turn_limit_reply t.agent.locale
                  else services.emergency_response t.agent.locale)
                ∷ [])
  unfolding run_graph superstep route_after_intake intake_guardrail turn_limit safety_emergency
  run_graph_closed t h = elim (Bool-cases (over_limit t)) [
    | inl over ↦ ground arith
    | inr within ↦ elim (Bool-cases (emergency t)) [
      | inl danger ↦ ground arith
      | inr calm ↦ absurd (ground arith)
    ]
  ]

  -- A turn within the cap, unflagged, in which the router queues no tool, asks the retriever the last
  -- question, for five documents, in the world as the turn found it, and keeps them cut to 800
  -- characters each. Then it asks the model once, and adds the streamed text to the thread. The
  -- system prompt holds those documents only where the thread has no tool results: those of an
  -- earlier turn, which nothing clears, take their place. Nothing else is called.
  pub run_graph_answer :
      (t : Turn Score S W)
      → over_limit t ≡ false
      → emergency t ≡ false
      → (router services (intake_guardrail services t.agent)).tool_calls ≡ []
      → let (ending, t') = run_graph lib wiring services now recursion_limit Node.at_intake t in
        let question = last_human_text t.agent.messages in
        let (found, w) = services.retrieve question 5 t.run.world in
        let docs = map (λ d. record d.0 { content = take_chars 800 d.0.content }) found in
        let context =
          if is_empty t.agent.tool_results
          then Context.retrieved_docs_context docs
          else Context.tool_results_context t.agent.tool_results in
        let prompt = services.render t.agent.locale context (drop_last t.agent.messages) in
        let (chunks, w') = services.stream question prompt w in
        (ending ≡ Ending.completed)
        × (t'.run ≡ record t.run { world = w' })
        × (t'.agent.retrieved_docs ≡ docs)
        × (t'.agent.tool_results ≡ t.agent.tool_results)
        × (t'.agent.messages ≡ t.agent.messages ++ Message.ai (joined chunks) ∷ [])
  unfolding run_graph superstep route_after_intake route_after_router intake_guardrail router
      retriever_node verifier responder context_of system_prompt
  run_graph_answer t within calm none_queued = ground arith
