-- ===== src/AllNodes.antt =====
-- processAllNodesForRule (internal/controller/nodereadinessgaterule_controller.go): every node that
-- the rule selects is evaluated, and a node that fails is recorded and does not stop the others.
pub mod Laws
pub mod Convergence
pub mod InLine
pub mod Refinement
pub mod Rules
pub mod Quiet
pub mod Bounds
use node_readiness_gate_cont.Prelude.{
  String, Bool, true, false, List, [], ◌∷◌, ◌++◌, Option, none, some, Result, ok, err,
}
use node_readiness_gate_cont.Core.{Node, Selectors}
use node_readiness_gate_cont.Api.{NodeReadinessGateRule}
use node_readiness_gate_cont.Client.{Client, Fault, api}
use node_readiness_gate_cont.Selection.{rule_applies_to}
use node_readiness_gate_cont.Evaluation.{evaluate_and_record}

-- The variables of the loop.
pub record Progress (c : Client) : Type 0 where
  pub rule : NodeReadinessGateRule
  pub applied : List String
  pub world : c.World

module _ (c : Client) (sel : Selectors) where
  -- `r.ruleAppliesTo(ctx, rule, &node)`.
  abbrev pub applies : NodeReadinessGateRule → Node → Bool
  applies rule node = rule_applies_to sel rule.spec.node_selector node.labels

  -- One round of the loop.
  unfoldable pub process_node : Progress c → Node → Progress c
  process_node p node = elim (applies p.rule node) [
    | true ↦
        let out = evaluate_and_record c p.rule node p.world in
        record { rule = out.rule; applied = p.applied ++ node.name ∷ []; world = out.world }
    | false ↦ p
  ]

  unfoldable pub process_nodes : Progress c → List Node → Progress c
  process_nodes p [] = p
  process_nodes p (node ∷ nodes) = process_nodes (process_node p node) nodes

  finish_nodes : Progress c → NodeReadinessGateRule
  finish_nodes p =
      let rule = p.rule in
      let status = rule.status in
      record rule {
        status = record status { observed_generation = rule.generation; applied_nodes = p.applied };
      }

  process_listed :
      NodeReadinessGateRule
      → Result c.Err (List Node) × c.World
      → Option (Fault c.Err) × NodeReadinessGateRule × c.World
  unfolding process_nodes process_node finish_nodes
  process_listed rule (err e, w) = (some (api e), rule, w)
  process_listed rule (ok nodes, w) =
      let p = process_nodes (record { rule = rule; applied = []; world = w }) nodes in
      (none, finish_nodes p, p.world)

  unfoldable pub process_all_nodes_for_rule :
      NodeReadinessGateRule → c.World → Option (Fault c.Err) × NodeReadinessGateRule × c.World
  unfolding process_listed
  process_all_nodes_for_rule rule w = process_listed rule (c.list_nodes w)
