-- ===== src/Agent/Tests.antt =====
-- The theorems on the assistant at concrete tools.
use qiki.Base.{
  true, false, ℕ, Option, none, some, [], ◌∷◌, String, ◌≡◌, refl, Bool-cases, inl, inr, arith,
}
use text.Mathlib.Text.{◌==◌ as str_eq}
use text.Mathlib.TextEquality.{eq_iff}
use qiki.Models.User.{User}
use qiki.Agent.Policy.{get_tool_policy}
use qiki.Agent.Executor.{Outcome, Execution, tool_executor}
use qiki.Agent.Safety.{tool_executor-Unapproved, ReadersOnly}
use qiki.Agent.Approval.{approval_lem}
use qiki.Agent.Audit.{tool_executor-audit, expected_audit}
use qiki.Agent.State.{Message, last_human_text, take_chars}
use qiki.Agent.Nodes.{
  intake_guardrail, router, remembered_product_id, matches_any, retriever_node, joined,
}
use qiki.Agent.Graph.{Node, Turn, Ending, run_graph}
use qiki.Agent.Turn.{is_recursion_error, run_graph_ends, run_graph_answer}
use qiki.Agent.Fixture.{
  libraries, agent_code, person, done, order_tool, shop, order_call, search_call, start,
  order_token, approved, declined, desk, thread, old_result, Table, hotline,
}

policy_confirms :
    (name : String)
    → name ≡ "_mock_create_order_example"
    → (get_tool_policy name).requires_confirm ≡ true
unfolding agent_code
policy_confirms name e = rw e refl

shop_reads : (user : Option User) → ReadersOnly libraries (shop user) 0 "s"
shop_reads user name tool found free args w =
    elim (Bool-cases (str_eq name "_mock_create_order_example")) [
      | inl e ↦
          absurd
            (ground (arith, policy_confirms name ((eq_iff name "_mock_create_order_example").0 e)))
      | inr other ↦ ground arith
    ]

tool_executor-Unapproved_example :
    ((tool_executor libraries
        (shop (some person))
        0
        "s"
        (order_call ∷ search_call ∷ [])
        declined).1.world
      ≡ 0)
    × ((tool_executor libraries
          (shop (some person))
          0
          "s"
          (order_call ∷ search_call ∷ [])
          declined).1.audit
        ≡ [])
tool_executor-Unapproved_example =
    tool_executor-Unapproved libraries (shop (some person)) 0 "s" (order_call ∷ search_call ∷ [])
      declined (shop_reads (some person)) ((λ u e. (refl, tt)), ((λ u e. (refl, tt)), tt))

approval_lem_example :
    ((tool_executor libraries (shop (some person)) 0 "s" (order_call ∷ []) start).0
      ≡ Execution.interrupted order_token)
    × ((tool_executor libraries (shop (some person)) 0 "s" (order_call ∷ []) start).1.world ≡ 0)
    × ((tool_executor libraries (shop (some person)) 900 "s" (order_call ∷ []) approved).1.world
        ≡ 1)
    × ((tool_executor libraries (shop (some person)) 900 "s" (order_call ∷ []) approved).0
        ≡ Execution.finished
            (record { name = order_call.name; is_ok = true; result = Outcome.returned done } ∷ []))
unfolding agent_code
approval_lem_example =
    approval_lem libraries (shop (some person)) "s" 0 900 person order_call order_tool start [] refl
      refl refl refl refl

tool_executor-audit_example :
    (tool_executor libraries
      (shop (some person))
      0
      "s"
      (order_call ∷ search_call ∷ [])
      approved).1.audit
    ≡ expected_audit person (order_call ∷ search_call ∷ []) (
        record { name = order_call.name; is_ok = true; result = Outcome.returned done }
        ∷ record { name = search_call.name; is_ok = true; result = Outcome.returned done }
        ∷ [])
unfolding agent_code
tool_executor-audit_example =
    tool_executor-audit libraries (shop (some person)) 0 "s" person refl refl
      (order_call ∷ search_call ∷ []) approved
      (record { name = order_call.name; is_ok = true; result = Outcome.returned done }
        ∷ record { name = search_call.name; is_ok = true; result = Outcome.returned done }
        ∷ [])
      (tool_executor libraries (shop (some person)) 0 "s" (order_call ∷ search_call ∷ [])
        approved).1
      refl

run_graph_ends_example :
    is_recursion_error
      (run_graph libraries (shop none) desk 0 25 Node.at_intake (thread "hello" [])).0
    ≡ false
run_graph_ends_example =
    run_graph_ends libraries (shop none) desk 0 25 (thread "hello" []) (omega arith)

-- The answer to "hello" is grounded in the results of an earlier search.
abbrev greeted : Turn ℕ Table ℕ
greeted = thread "hello" (old_result ∷ [])

abbrev answered : Ending × Turn ℕ Table ℕ
answered = run_graph libraries (shop none) desk 0 25 Node.at_intake greeted

run_graph_answer_example :
    (answered.0 ≡ Ending.completed)
    × (answered.1.run ≡ record start { world = 210 })
    × (answered.1.agent.retrieved_docs ≡ hotline ∷ [])
    × (answered.1.agent.tool_results ≡ old_result ∷ [])
    × (answered.1.agent.messages ≡ Message.human "hello" ∷ Message.ai "" ∷ [])
unfolding last_human_text intake_guardrail router remembered_product_id matches_any retriever_node
    take_chars joined
run_graph_answer_example = run_graph_answer libraries (shop none) desk 0 greeted refl refl refl
