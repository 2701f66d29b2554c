-- ===== src/AllNodes/Bounds.antt =====
-- The size of the status of a rule after a pass over all nodes (processAllNodesForRule).
use node_readiness_gate_cont.Prelude.{
  ℕ, ◌+◌, ◌≡◌, inl, inr, List, [], ◌∷◌, none, Result, ok, err, arith, Bool-cases, length,
  length-append,
}
use node_readiness_gate_cont.Core.{Node, Selectors}
use node_readiness_gate_cont.Api.{NodeReadinessGateRule}
use node_readiness_gate_cont.Client.{Client}
use node_readiness_gate_cont.Status.Bounds.{GrowsBy, GrowsBy-refl, GrowsBy-trans}
use node_readiness_gate_cont.Evaluation.Bounds.{evaluate_and_record-GrowsBy}
use node_readiness_gate_cont.AllNodes.{
  Progress, applies, process_node, process_nodes, finish_nodes, process_listed,
  process_all_nodes_for_rule,
}

module _ (c : Client) (sel : Selectors) where
  -- From one point of the loop to a later one the status has grown by at most one entry for each
  -- node that was applied.
  abbrev Counts : Progress c → Progress c → Type 0
  Counts p q =
      (n : ℕ) × (length q.applied ≡ length p.applied + n) × GrowsBy n p.rule.status q.rule.status

  process_node-Counts : (p : Progress c) (node : Node) → Counts p (process_node c sel p node)
  unfolding process_node
  process_node-Counts p node = elim (Bool-cases (applies c sel p.rule node)) [
    | inl taken ↦
        rw (taken, process_node)
          (
            1,
            length-append p.applied (node.name ∷ []),
            evaluate_and_record-GrowsBy c p.rule node p.world,
          )
    | inr skipped ↦ rw (skipped, process_node) (0, omega arith, GrowsBy-refl p.rule.status)
  ]

  process_nodes-Counts :
      (nodes : List Node) (p : Progress c) → Counts p (process_nodes c sel p nodes)
  unfolding process_nodes
  process_nodes-Counts [] p = (0, omega arith, GrowsBy-refl p.rule.status)
  process_nodes-Counts (node ∷ nodes) p =
      let (m, here, g) = process_node-Counts p node in
      let (n, later, h) = process_nodes-Counts nodes (process_node c sel p node) in
      (m + n, omega (arith, here, later), GrowsBy-trans g h)

  -- A pass over all nodes that does not fail adds at most one evaluation and at most one failure
  -- to the status for each node that it lists as applied, and if the status has at most one
  -- evaluation and at most one failure of each node before the pass, so it has after it.
  pub process_all_nodes_for_rule-GrowsBy :
      (rule : NodeReadinessGateRule) (w : c.World)
      → let (failure, rule', w') = process_all_nodes_for_rule c sel rule w in
        failure ≡ none → GrowsBy (length rule'.status.applied_nodes) rule.status rule'.status
  unfolding process_all_nodes_for_rule process_listed finish_nodes
  process_all_nodes_for_rule-GrowsBy rule w = listed (c.list_nodes w)
    where
      listed :
          (answer : Result c.Err (List Node) × c.World)
          → let (failure, rule', w') = process_listed c sel rule answer in
            failure ≡ none → GrowsBy (length rule'.status.applied_nodes) rule.status rule'.status
      listed (err e, v) h = absurd (cc)
      listed (ok nodes, v) h =
          let start : Progress c = record { rule = rule; applied = []; world = v } in
          let (n, count, g) = process_nodes-Counts nodes start in
          record {
            sound = g.sound;
            evaluations = omega (arith, count, g.evaluations);
            failures = omega (arith, count, g.failures);
          }
